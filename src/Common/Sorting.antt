-- ===== src/Common/Sorting.antt =====
-- Sorting by a Boolean order, as `sorted` and `ORDER BY` do: a stable insertion sort.
use mathlib.Core.Path.{◌≡◌, refl, sym, subst, ap}
use mathlib.Core.List.{List, [], ◌∷◌}
use mathlib.Core.Bool.{Bool}
use mathlib.Core.Logic.{inl, inr}
use Prim.Native.Nat.{ℕ, zero, suc, ◌≤◌, ◌+◌}
use native.Mathlib.Omega.{arith}
use itsm_poc.Common.Tests.{if◌then◌else◌, Bool-cases}
use itsm_poc.Common.Lists.{length, take, All, matching}

module _ {ℓ} {A : Type ℓ} where
  module _ (before : A → A → Bool) where
    abbrev pub insert_by : A → List A → List A
    insert_by x [] = x ∷ []
    insert_by x (y ∷ ys) = if before y x then y ∷ insert_by x ys else x ∷ y ∷ ys

    -- Of two items that come after each other in neither order, the first stays first.
    abbrev pub sort_by : List A → List A
    sort_by [] = []
    sort_by (x ∷ xs) = insert_by x (sort_by xs)

    length-insert_by : (x : A) (xs : List A) → length (insert_by x xs) ≡ suc (length xs)
    length-insert_by x [] = refl
    length-insert_by x (y ∷ ys) = let rest = length-insert_by x ys in ground arith

    pub length-sort_by : (xs : List A) → length (sort_by xs) ≡ length xs
    length-sort_by [] = refl
    length-sort_by (x ∷ xs) =
        let step = length-insert_by x (sort_by xs) in
        let rest = length-sort_by xs in omega (arith, step, rest)

    matching-insert_by :
        (p : A → Bool) (x : A) (xs : List A)
        → matching p (insert_by x xs) ≡ (if p x then 1 + matching p xs else matching p xs)
    matching-insert_by p x [] = refl
    matching-insert_by p x (y ∷ ys) = let rest = matching-insert_by p x ys in ground arith

    pub matching-sort_by : (p : A → Bool) (xs : List A) → matching p (sort_by xs) ≡ matching p xs
    matching-sort_by p [] = refl
    matching-sort_by p (x ∷ xs) =
        let step = matching-insert_by p x (sort_by xs) in
        let rest = matching-sort_by p xs in ground arith

    module _ {κ} (P : A → Type κ) where
      All-insert_by : (x : A) (xs : List A) → P x → All P xs → All P (insert_by x xs)
      All-insert_by x [] here rest = (here, tt)
      All-insert_by x (y ∷ ys) here (first, rest) = elim (Bool-cases (before y x)) [
        | inl e ↦
            subst (λ b. All P (if b then y ∷ insert_by x ys else x ∷ y ∷ ys)) (sym e)
              (first, All-insert_by x ys here rest)
        | inr e ↦
            subst (λ b. All P (if b then y ∷ insert_by x ys else x ∷ y ∷ ys)) (sym e)
              (here, (first, rest))
      ]

      pub All-sort_by : (xs : List A) → All P xs → All P (sort_by xs)
      All-sort_by [] h = tt
      All-sort_by (x ∷ xs) (here, rest) = All-insert_by x (sort_by xs) here (All-sort_by xs rest)

    pub sort_by_none : (xs : List A) → sort_by xs ≡ [] → xs ≡ []
    sort_by_none [] h = refl
    sort_by_none (x ∷ xs) h =
        let size = length-sort_by (x ∷ xs) in absurd (omega (arith, size, ap length h))

    module _ {κ} (P : A → Type κ) where
      All_inserted : (x : A) (xs : List A) → All P (insert_by x xs) → P x × All P xs
      All_inserted x [] h = h
      All_inserted x (y ∷ ys) h = elim (Bool-cases (before y x)) [
        | inl e ↦
            let (first, rest) =
              subst (λ b. All P (if b then y ∷ insert_by x ys else x ∷ y ∷ ys)) e h in
            let (here, later) = All_inserted x ys rest in (here, (first, later))
        | inr e ↦ subst (λ b. All P (if b then y ∷ insert_by x ys else x ∷ y ∷ ys)) e h
      ]

      -- What holds of every item in order holds of every item.
      pub All_sorted : (xs : List A) → All P (sort_by xs) → All P xs
      All_sorted [] h = tt
      All_sorted (x ∷ xs) h =
          let (here, rest) = All_inserted x (sort_by xs) h in (here, All_sorted xs rest)

  pub length-take : (n : ℕ) (xs : List A) → length (take n xs) ≤ n
  length-take zero xs = omega arith
  length-take (suc n) [] = omega arith
  length-take (suc n) (x ∷ xs) = omega (arith, length-take n xs)

  pub matching-take : (p : A → Bool) (n : ℕ) (xs : List A) → matching p (take n xs) ≤ matching p xs
  matching-take p zero xs = omega arith
  matching-take p (suc n) [] = omega arith
  matching-take p (suc n) (x ∷ xs) = let rest = matching-take p n xs in ground arith

  pub take_whole : (n : ℕ) (xs : List A) → length xs ≤ n → take n xs ≡ xs
  take_whole zero [] h = refl
  take_whole zero (x ∷ xs) h = absurd (omega (arith, h))
  take_whole (suc n) [] h = refl
  take_whole (suc n) (x ∷ xs) h = ap (λ ys. x ∷ ys) (take_whole n xs (omega (arith, h)))

  pub All-take {κ} : (P : A → Type κ) (n : ℕ) (xs : List A) → All P xs → All P (take n xs)
  All-take P zero xs h = tt
  All-take P (suc n) [] h = tt
  All-take P (suc n) (x ∷ xs) (here, rest) = (here, All-take P n xs rest)
