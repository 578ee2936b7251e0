-- ===== src/Domain/Treatment/Order.antt =====
-- The order that `is_narrowing` puts on the treatments of domain/governance.py.
use itsm_poc.Common.{true, ◌≡◌, ◌⊎◌, arith}
use itsm_poc.Domain.Treatment.{ExecutionTreatment, not_allowed, is_narrowing}

pub is_narrowing_refl : (t : ExecutionTreatment) → is_narrowing t t ≡ true
unfolding is_narrowing
is_narrowing_refl t = ground arith

pub is_narrowing_trans :
    (a b c : ExecutionTreatment)
    → is_narrowing a b ≡ true
    → is_narrowing b c ≡ true
    → is_narrowing a c ≡ true
unfolding is_narrowing
is_narrowing_trans a b c h k = ground arith

-- Re-assigning a treatment is safe in both directions only when nothing changes, and of any two
-- treatments one may be re-assigned to the other: the order has no ties and leaves no pair out.
pub is_narrowing_linear :
    (a b : ExecutionTreatment)
    → (is_narrowing a b ≡ true → is_narrowing b a ≡ true → a ≡ b)
      × ((is_narrowing a b ≡ true) ⊎ (is_narrowing b a ≡ true))
unfolding is_narrowing
is_narrowing_linear a b = (λ h k. ground arith, ground arith)

pub is_narrowing-not_allowed : (t : ExecutionTreatment) → is_narrowing t not_allowed ≡ true
unfolding is_narrowing
is_narrowing-not_allowed t = ground arith
