-- ===== src/Common/Lists.antt =====
-- Lists measured by native numbers, and membership, selection and counting by a Boolean test.
use Prim.Native.Nat.{ℕ, zero, suc, ◌+◌, ◌≤◌}
use mathlib.Core.Path.{◌≡◌, refl, ap, ◌∙◌}
use mathlib.Core.List.{List, [], ◌∷◌, ◌++◌, map}
use mathlib.Core.Bool.{Bool, true, false, ◌||◌, not}
use native.Mathlib.Omega.{arith}
use mathlib.Core.Logic.{inl, inr}
use itsm_poc.Common.Tests.{if◌then◌else◌, Bool-cases}

module _ {ℓ} {A : Type ℓ} where
  abbrev pub length : List A → ℕ
  length [] = 0
  length (x ∷ xs) = suc (length xs)

  abbrev pub take : ℕ → List A → List A
  take zero xs = []
  take (suc n) [] = []
  take (suc n) (x ∷ xs) = x ∷ take n xs

  -- Whether some item passes the test.
  abbrev pub any : (A → Bool) → List A → Bool
  any p [] = false
  any p (x ∷ xs) = p x || any p xs

  -- What holds of every item.
  abbrev pub All {κ} : (A → Type κ) → List A → Type κ
  All P [] = Unit
  All P (x ∷ xs) = P x × All P xs

  pub length-append : (xs ys : List A) → length (xs ++ ys) ≡ length xs + length ys
  length-append [] ys = omega arith
  length-append (x ∷ xs) ys = omega (arith, length-append xs ys)

pub or_assoc : (a b c : Bool) → a || (b || c) ≡ (a || b) || c
or_assoc true b c = refl
or_assoc false b c = refl

pub or_true : (a : Bool) → a || true ≡ true
or_true true = refl
or_true false = refl

pub or_false : (a b : Bool) → a || b ≡ false → (a ≡ false) × (b ≡ false)
or_false true b h = cc
or_false false b h = (refl, h)

pub any-append {ℓ} :
    {A : Type ℓ} (p : A → Bool) (xs ys : List A) → any p (xs ++ ys) ≡ any p xs || any p ys
any-append p [] ys = refl
any-append p (x ∷ xs) ys =
    ap (λ b. p x || b) (any-append p xs ys) ∙ or_assoc (p x) (any p xs) (any p ys)

pub map-snoc {ℓ κ} :
    {A : Type ℓ} {B : Type κ} (f : A → B) (xs : List A) (x : A)
    → map f (xs ++ (x ∷ [])) ≡ map f xs ++ (f x ∷ [])
map-snoc f [] x = refl
map-snoc f (y ∷ ys) x = ap (λ zs. f y ∷ zs) (map-snoc f ys x)

pub All-snoc {ℓ κ} :
    {A : Type ℓ} (P : A → Type κ) (xs : List A) (x : A) → All P xs → P x → All P (xs ++ (x ∷ []))
All-snoc P [] x h here = (here, tt)
All-snoc P (y ∷ ys) x (first, rest) here = (first, All-snoc P ys x rest here)

pub All-append {ℓ κ} :
    {A : Type ℓ} (P : A → Type κ) (xs ys : List A) → All P xs → All P ys → All P (xs ++ ys)
All-append P [] ys h k = k
All-append P (x ∷ xs) ys (here, h) k = (here, All-append P xs ys h k)

pub All-weaken {ℓ κ μ} :
    {A : Type ℓ} (P : A → Type κ) (Q : A → Type μ)
    → ((x : A) → P x → Q x)
    → (xs : List A) → All P xs
    → All Q xs
All-weaken P Q f [] h = tt
All-weaken P Q f (x ∷ xs) (here, rest) = (f x here, All-weaken P Q f xs rest)

pub append_nil {ℓ} : {A : Type ℓ} (xs : List A) → xs ++ [] ≡ xs
append_nil [] = refl
append_nil (x ∷ xs) = ap (λ ys. x ∷ ys) (append_nil xs)

pub append_assoc {ℓ} : {A : Type ℓ} (xs ys zs : List A) → (xs ++ ys) ++ zs ≡ xs ++ (ys ++ zs)
append_assoc [] ys zs = refl
append_assoc (x ∷ xs) ys zs = ap (λ ws. x ∷ ws) (append_assoc xs ys zs)

module _ {ℓ} {A : Type ℓ} where
  -- How many items pass the test.
  abbrev pub matching : (A → Bool) → List A → ℕ
  matching p [] = 0
  matching p (x ∷ xs) = if p x then 1 + matching p xs else matching p xs

  -- The items that pass it, in their order: `[x for x in xs if p(x)]`, and a SELECT.
  abbrev pub select : (A → Bool) → List A → List A
  select p [] = []
  select p (x ∷ xs) = if p x then x ∷ select p xs else select p xs

  pub select_none : (p : A → Bool) (xs : List A) → matching p xs ≡ 0 → select p xs ≡ []
  select_none p [] h = refl
  select_none p (x ∷ xs) h = let rest = select_none p xs in ground arith

  pub All-select {κ} :
      (P : A → Type κ) (p : A → Bool) (xs : List A) → All P xs → All P (select p xs)
  All-select P p [] h = tt
  All-select P p (x ∷ xs) (here, rest) = elim (Bool-cases (p x)) [
    | inl e ↦ rw (e, if◌then◌else◌) (here, All-select P p xs rest)
    | inr e ↦ rw (e, if◌then◌else◌) (All-select P p xs rest)
  ]

  pub append_none : (xs ys : List A) → xs ++ ys ≡ [] → (xs ≡ []) × (ys ≡ [])
  append_none [] ys h = (refl, h)
  append_none (x ∷ xs) ys h = cc

  pub select_nothing : (p : A → Bool) (xs : List A) → select p xs ≡ [] → All (λ x. p x ≡ false) xs
  select_nothing p [] h = tt
  select_nothing p (x ∷ xs) h =
      let away : p x ≡ false = ground arith in (away, select_nothing p xs (ground arith))

  pub All_selected : (p : A → Bool) (xs : List A) → All (λ x. p x ≡ true) (select p xs)
  All_selected p [] = tt
  All_selected p (x ∷ xs) = elim (Bool-cases (p x)) [
    | inl e ↦ rw (e, if◌then◌else◌) (e, All_selected p xs)
    | inr e ↦ rw (e, if◌then◌else◌) (All_selected p xs)
  ]

  pub matching-append :
      (p : A → Bool) (xs ys : List A) → matching p (xs ++ ys) ≡ matching p xs + matching p ys
  matching-append p [] ys = omega arith
  matching-append p (x ∷ xs) ys = let rest = matching-append p xs ys in ground arith

  pub length-select : (p : A → Bool) (xs : List A) → length (select p xs) ≤ length xs
  length-select p [] = omega arith
  length-select p (x ∷ xs) = let rest = length-select p xs in ground arith

  pub select_same :
      (p q : A → Bool) (xs : List A) → All (λ x. p x ≡ q x) xs → select p xs ≡ select q xs
  select_same p q [] h = refl
  select_same p q (x ∷ xs) (here, h) = let rest = select_same p q xs h in ground arith

  pub any_none : (p : A → Bool) (xs : List A) → All (λ x. p x ≡ false) xs → any p xs ≡ false
  any_none p [] h = refl
  any_none p (x ∷ xs) (away, h) = let rest = any_none p xs h in ground arith

  -- The items that pass a test and those that do not are all of them.
  pub matching-split :
      (p q : A → Bool) (xs : List A)
      → matching p (select q xs) + matching p (select (λ x. not (q x)) xs) ≡ matching p xs
  matching-split p q [] = omega arith
  matching-split p q (x ∷ xs) = let rest = matching-split p q xs in ground arith

  pub matching_none : (p : A → Bool) (xs : List A) → matching p xs ≡ 0 → All (λ x. p x ≡ false) xs
  matching_none p [] h = tt
  matching_none p (x ∷ xs) h =
      let away : p x ≡ false = ground arith in (away, matching_none p xs (ground arith))

  pub none_matching : (p : A → Bool) (xs : List A) → All (λ x. p x ≡ false) xs → matching p xs ≡ 0
  none_matching p [] h = refl
  none_matching p (x ∷ xs) (away, h) = rw (away, if◌then◌else◌) (none_matching p xs h)

module _ {ℓ κ} {A : Type ℓ} {B : Type κ} (f : A → B) where
  pub map_none : (xs : List A) → map f xs ≡ [] → xs ≡ []
  map_none [] h = refl
  map_none (x ∷ xs) h = cc

  pub length-map : (xs : List A) → length (map f xs) ≡ length xs
  length-map [] = refl
  length-map (x ∷ xs) = ap suc (length-map xs)

  pub All-map {μ} : (P : B → Type μ) → ((x : A) → P (f x)) → (xs : List A) → All P (map f xs)
  All-map P h [] = tt
  All-map P h (x ∷ xs) = (h x, All-map P h xs)

pub matching-map {ℓ κ} :
    {A : Type ℓ} {B : Type κ} (p : B → Bool) (f : A → B) (xs : List A)
    → matching p (map f xs) ≡ matching (λ x. p (f x)) xs
matching-map p f [] = refl
matching-map p f (x ∷ xs) = let rest = matching-map p f xs in ground arith
