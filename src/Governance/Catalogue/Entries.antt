-- ===== src/Governance/Catalogue/Entries.antt =====
-- The catalogue of known entries, `Catalogue` of ragcore/src/ragcore/governance/catalogue.py: what a catalogue
-- that was built finds.
use itsm_poc.Common.{
  List, [], ◌∷◌, ◌++◌, none, some, false, ok, ◌>>=◌, ◌≡◌, ◌↔◌, refl, arith, if◌then◌else◌,
  Option-cases, inl, inr, All, sym, subst, ◌∙◌, ap, append_assoc, append_nil, All-snoc,
  ok-injective, >>=-eq-ok,
}
use itsm_poc.Domain.Records.{same_identity}
use itsm_poc.Domain.Records.Equality.{same_identity_iff}
use itsm_poc.Governance.Catalogue.{
  CatalogueRecord, Catalogue, catalogue_of, find, entry_of, enter, enter_all,
}

-- No two records have one identity.
abbrev pub Distinct : List CatalogueRecord → Type 0
Distinct [] = Unit
Distinct (r ∷ records) =
    All (λ (s : CatalogueRecord). same_identity r.identity s.identity ≡ false) records
    × Distinct records

Apart : CatalogueRecord → List CatalogueRecord → Type 0
Apart r xs = All (λ (s : CatalogueRecord). same_identity s.identity r.identity ≡ false) xs

unnamed :
    (r : CatalogueRecord) (xs : List CatalogueRecord) → entry_of r.identity xs ≡ none → Apart r xs
unfolding entry_of Apart
unnamed r [] h = tt
unnamed r (x ∷ xs) h =
    let away : same_identity x.identity r.identity ≡ false = ground arith in
    (away, unnamed r xs (ground arith))

Apart-entry_of :
    (r : CatalogueRecord) (xs : List CatalogueRecord) → Apart r xs → entry_of r.identity xs ≡ none
unfolding entry_of Apart
Apart-entry_of r [] h = refl
Apart-entry_of r (x ∷ xs) (away, rest) = let later = Apart-entry_of r xs rest in ground arith

Distinct-snoc :
    (xs : List CatalogueRecord) (r : CatalogueRecord)
    → Distinct xs
    → Apart r xs
    → Distinct (xs ++ (r ∷ []))
unfolding Apart
Distinct-snoc [] r d h = (tt, tt)
Distinct-snoc (x ∷ xs) r (first, d) (away, h) = (
  All-snoc (λ (s : CatalogueRecord). same_identity x.identity s.identity ≡ false) xs r first away,
  Distinct-snoc xs r d h,
)

All-middle {ℓ κ} :
    {A : Type ℓ} (P : A → Type κ) (xs : List A) (y : A) (ys : List A) → All P (xs ++ (y ∷ ys)) → P y
All-middle P [] y ys (here, rest) = here
All-middle P (x ∷ xs) y ys (first, rest) = All-middle P xs y ys rest

Distinct-middle :
    (xs : List CatalogueRecord) (r : CatalogueRecord) (ys : List CatalogueRecord)
    → Distinct (xs ++ (r ∷ ys))
    → Apart r xs
unfolding Apart
Distinct-middle [] r ys d = tt
Distinct-middle (x ∷ xs) r ys (first, d) = (
  All-middle (λ (s : CatalogueRecord). same_identity x.identity s.identity ≡ false) xs r ys first,
  Distinct-middle xs r ys d,
)

enter_lem :
    (acc : List CatalogueRecord) (r : CatalogueRecord) {more : List CatalogueRecord}
    → enter acc r ≡ ok more
    → (entry_of r.identity acc ≡ none) × (more ≡ acc ++ (r ∷ []))
unfolding enter
enter_lem acc r h = elim (Option-cases (entry_of r.identity acc)) [
  | inl e ↦ (e, ground arith)
  | inr (s, e) ↦ ground arith
]

-- What was entered is all of the records, and they stay distinct.
entered :
    (acc records : List CatalogueRecord) {out : List CatalogueRecord}
    → Distinct acc
    → enter_all acc records ≡ ok out
    → (out ≡ acc ++ records) × Distinct out
unfolding enter_all
entered acc [] d h =
    let same = ok-injective h in (sym same ∙ sym (append_nil acc), subst Distinct same d)
entered acc (r ∷ records) {out} d h =
    let (more, first, rest) = >>=-eq-ok (enter acc r) (λ xs. enter_all xs records) h in
    let (fresh, more_eq) = enter_lem acc r first in
    let after = Distinct-snoc acc r d (unnamed r acc fresh) in
    let (whole, apart) =
      entered more records {out = out} (subst Distinct (sym more_eq) after) rest in
    (whole ∙ ap (λ xs. xs ++ records) more_eq ∙ append_assoc acc (r ∷ []) records, apart)

enter_fresh :
    (acc : List CatalogueRecord) (r : CatalogueRecord)
    → entry_of r.identity acc ≡ none
    → enter acc r ≡ ok (acc ++ (r ∷ []))
unfolding enter
enter_fresh acc r e = rw (enter, e) refl

enterable :
    (acc records : List CatalogueRecord)
    → Distinct (acc ++ records)
    → enter_all acc records ≡ ok (acc ++ records)
unfolding enter_all
enterable acc [] d = ap (λ xs. ok xs) (sym (append_nil acc))
enterable acc (r ∷ records) d =
    let fresh = Apart-entry_of r acc (Distinct-middle acc r records d) in
    let one = append_assoc acc (r ∷ []) records in
    ap (λ x. x >>= λ more. enter_all more records) (enter_fresh acc r fresh)
    ∙ enterable (acc ++ (r ∷ [])) records (subst Distinct (sym one) d)
    ∙ ap (λ xs. ok xs) one

-- A catalogue can be built exactly of records that have distinct identities, and then it holds them in
-- their order.
pub catalogue_of_iff :
    (records : List CatalogueRecord) (c : Catalogue)
    → (catalogue_of records ≡ ok c) ↔ (Distinct records × (c.entries ≡ records))
unfolding catalogue_of
catalogue_of_iff records c = (
  (λ h.
      let (out, ran, made) =
        >>=-eq-ok (enter_all [] records) (λ entries. ok (record { entries = entries })) h in
      let (whole, apart) = entered [] records {out = out} tt ran in
      (
        subst Distinct whole apart,
        ap (λ (x : Catalogue). x.entries) (sym (ok-injective made)) ∙ whole,
      )),
  (λ (d, whole).
      ap (λ x. x >>= λ entries. ok (record { entries = entries })) (enterable [] records d)
      ∙ ap (λ xs. ok (record { entries = xs })) (sym whole)),
)

still_found :
    (x : CatalogueRecord) (records : List CatalogueRecord) (all : List CatalogueRecord)
    → All (λ (s : CatalogueRecord). same_identity x.identity s.identity ≡ false) records
    → All (λ (s : CatalogueRecord). entry_of s.identity all ≡ some s) records
    → All (λ (s : CatalogueRecord). entry_of s.identity (x ∷ all) ≡ some s) records
unfolding entry_of
still_found x [] all a f = tt
still_found x (s ∷ records) all (away, a) (found, f) =
    (rw (away, if◌then◌else◌) found, still_found x records all a f)

found_all :
    (records : List CatalogueRecord)
    → Distinct records
    → All (λ (r : CatalogueRecord). entry_of r.identity records ≡ some r) records
unfolding entry_of
found_all [] d = tt
found_all (r ∷ records) (first, d) = (
  rw ((same_identity_iff r.identity r.identity).1 refl, if◌then◌else◌) refl,
  still_found r records records first (found_all records d),
)

-- A catalogue that was built finds each of the records it was built of, by the record's identity.
pub catalogue_of-find :
    (records : List CatalogueRecord) (c : Catalogue)
    → catalogue_of records ≡ ok c
    → All (λ (r : CatalogueRecord). find c r.identity ≡ some r) records
unfolding find
catalogue_of-find records c built =
    let (d, whole) = (catalogue_of_iff records c).0 built in
    subst (λ xs. All (λ (r : CatalogueRecord). entry_of r.identity xs ≡ some r) records) (sym whole)
      (found_all records d)
