-- ===== src/Common/Elements.antt =====
-- The elements of a list.
use Prim.Native.Nat.{◌≤◌}
use mathlib.Core.Bool.{Bool, true}
use native.Mathlib.Omega.{arith}
use itsm_poc.Common.Tests.{if◌then◌else◌, Bool-cases}
use itsm_poc.Common.Lists.{any, matching, select}
use mathlib.Core.Path.{◌≡◌, ap, sym, subst}
use mathlib.Core.List.{List, [], ◌∷◌, ◌++◌, map}
use mathlib.Core.Logic.{◌⊎◌, inl, inr}

-- The empty type of a level.
pub data Nowhere {ℓ} : Type ℓ where

abbrev pub In {ℓ} : {A : Type ℓ} → A → List A → Type ℓ
In x [] = Nowhere
In x (y ∷ ys) = (x ≡ y) ⊎ In x ys

module _ {ℓ} {A : Type ℓ} (x : A) where
  pub In-left : (xs ys : List A) → In x xs → In x (xs ++ ys)
  In-left [] ys h = elim h [ ]
  In-left (z ∷ xs) ys (inl e) = inl e
  In-left (z ∷ xs) ys (inr h) = inr (In-left xs ys h)

  pub In-right : (xs ys : List A) → In x ys → In x (xs ++ ys)
  In-right [] ys h = h
  In-right (z ∷ xs) ys h = inr (In-right xs ys h)

pub In-map {ℓ κ} :
    {A : Type ℓ} {B : Type κ} (f : A → B) (x : A) (xs : List A) → In x xs → In (f x) (map f xs)
In-map f x [] h = elim h [ ]
In-map f x (y ∷ ys) (inl e) = inl (ap f e)
In-map f x (y ∷ ys) (inr h) = inr (In-map f x ys h)

pub not_in {ℓ} : Nowhere {ℓ} → ⊥
not_in h = elim h [ ]

-- A test that only one element passes counts that element.
module _ {ℓ} {A : Type ℓ} (p : A → Bool) (x : A) where
  pub counted-In : (xs : List A) → p x ≡ true → In x xs → 1 ≤ matching p xs
  counted-In [] passes h = absurd (not_in h)
  counted-In (y ∷ ys) passes (inl e) = let here = subst (λ z. p z ≡ true) e passes in ground arith
  counted-In (y ∷ ys) passes (inr h) = let rest = counted-In ys passes h in ground arith

  pub In-counted : (xs : List A) → ((y : A) → p y ≡ true → x ≡ y) → 1 ≤ matching p xs → In x xs
  In-counted [] only h = absurd (omega (arith, h))
  In-counted (y ∷ ys) only h = elim (Bool-cases (p y)) [
    | inl e ↦ inl (only y e)
    | inr e ↦ inr (In-counted ys only (ground arith))
  ]

-- What passes a test stays, and what stays passed it.
module _ {ℓ} {A : Type ℓ} (p : A → Bool) (x : A) where
  pub In-select : (xs : List A) → p x ≡ true → In x xs → In x (select p xs)
  In-select [] passes h = h
  In-select (y ∷ ys) passes (inl e) =
      let here = subst (λ z. p z ≡ true) e passes in rw (here, if◌then◌else◌) (inl e)
  In-select (y ∷ ys) passes (inr h) =
      let rest = In-select ys passes h in
      elim (Bool-cases (p y)) [
        | inl e ↦ rw (e, if◌then◌else◌) (inr rest)
        | inr e ↦ rw (e, if◌then◌else◌) rest
      ]

  pub select-In : (xs : List A) → In x (select p xs) → In x xs × (p x ≡ true)
  select-In [] h = absurd (not_in h)
  select-In (y ∷ ys) h = elim (Bool-cases (p y)) [
    | inl e ↦ elim (rw (e, if◌then◌else◌) at h) [
      | inl same ↦ (inl same, subst (λ z. p z ≡ true) (sym same) e)
      | inr later ↦ let (there, passes) = select-In ys later in (inr there, passes)
    ]
    | inr e ↦ let (there, passes) = select-In ys (rw (e, if◌then◌else◌) at h) in (inr there, passes)
  ]

-- A test that some element passes counts one.
module _ {ℓ} {A : Type ℓ} (p : A → Bool) where
  pub any-matching : (xs : List A) → any p xs ≡ true → 1 ≤ matching p xs
  any-matching [] h = cc
  any-matching (x ∷ xs) h = let rest = any-matching xs in ground arith

  pub matching-any : (xs : List A) → 1 ≤ matching p xs → any p xs ≡ true
  matching-any [] h = absurd (omega (arith, h))
  matching-any (x ∷ xs) h = let rest = matching-any xs in ground arith
