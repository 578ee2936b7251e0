-- ===== src/Persistence/Rows.antt =====
-- A table as the list of its rows, and the statements that every repository of
-- ragcore/src/ragcore/persistence issues on one: a SELECT of rows by a WHERE clause or by a key, and an
-- UPDATE of the rows that a clause admits, with the count that the driver reports.
pub use itsm_poc.Common.{matching, select, select_none, All-select}
use itsm_poc.Common.{
  ℕ, Bool, true, false, List, [], ◌∷◌, Option, none, some, if◌then◌else◌, ◌≤◌, ◌≡◌, ◌==◌, sym, ap,
  ◌∙◌, refl, arith, All, All-weaken, Bool-cases, inl, inr, some_injective, subst, matching_none,
}

module _ {ℓ} {Row : Type ℓ} where
  -- `UPDATE … SET … WHERE …`.
  abbrev pub rewrite : (Row → Bool) → (Row → Row) → List Row → List Row
  rewrite where_ set [] = []
  rewrite where_ set (r ∷ rows) = (if where_ r then set r else r) ∷ rewrite where_ set rows

  -- The row of a key.
  abbrev pub row_at : (Row → Bool) → List Row → Option Row
  row_at key [] = none
  row_at key (r ∷ rows) = if key r then some r else row_at key rows

  -- A clause that asks for a key and for more finds what the key's own row passes.
  abbrev pub counted : (Row → Bool) → Option Row → ℕ
  counted guard none = 0
  counted guard (some r) = if guard r then 1 else 0

  -- The row of a key after an update.
  abbrev pub updated : (Row → Bool) → (Row → Row) → Option Row → Option Row
  updated where_ set none = none
  updated where_ set (some r) = some (if where_ r then set r else r)

  -- A clause that admits only the rows of a key finds what the key's own row passes.
  module _ (key where_ : Row → Bool) (narrow : (r : Row) → where_ r ≡ true → key r ≡ true) where
    pub unmatched :
        (rows : List Row)
        → matching key rows ≡ 0
        → (row_at key rows ≡ none) × (matching where_ rows ≡ 0)
    unmatched [] h = (refl, refl)
    unmatched (r ∷ rows) h = let rest = unmatched rows in let keyed = narrow r in ground arith

    pub matching-narrow :
        (rows : List Row)
        → matching key rows ≤ 1
        → matching where_ rows ≡ counted where_ (row_at key rows)
    matching-narrow [] h = refl
    matching-narrow (r ∷ rows) h =
        let rest = matching-narrow rows in
        let alone = unmatched rows in let keyed = narrow r in ground arith

  pub row_at_key :
      (key : Row → Bool) (rows : List Row) {r : Row} → row_at key rows ≡ some r → key r ≡ true
  row_at_key key [] found = cc
  row_at_key key (x ∷ rows) {r = found_row} found =
      let rest = row_at_key key rows {r = found_row} in ground arith

  module _ (where_ : Row → Bool) (set : Row → Row) where
    pub row_at-rewrite :
        (key : Row → Bool)
        → ((r : Row) → key (set r) ≡ key r)
        → (rows : List Row)
        → row_at key (rewrite where_ set rows) ≡ updated where_ set (row_at key rows)
    row_at-rewrite key kept [] = refl
    row_at-rewrite key kept (r ∷ rows) =
        let rest = row_at-rewrite key kept rows in let same = kept r in ground arith

    pub matching-rewrite :
        (key : Row → Bool)
        → ((r : Row) → key (set r) ≡ key r)
        → (rows : List Row) → matching key (rewrite where_ set rows) ≡ matching key rows
    matching-rewrite key kept [] = refl
    matching-rewrite key kept (r ∷ rows) =
        let rest = matching-rewrite key kept rows in let same = kept r in ground arith

    pub select-rewrite :
        (other : Row → Bool)
        → ((r : Row) → where_ r ≡ true → other r ≡ false)
        → ((r : Row) → other (set r) ≡ other r)
        → (rows : List Row) → select other (rewrite where_ set rows) ≡ select other rows
    select-rewrite other apart kept [] = refl
    select-rewrite other apart kept (r ∷ rows) =
        let rest = select-rewrite other apart kept rows in
        let same = kept r in let away = apart r in ground arith

    pub rewrite_none : (rows : List Row) → matching where_ rows ≡ 0 → rewrite where_ set rows ≡ rows
    rewrite_none [] h = refl
    rewrite_none (r ∷ rows) h = let rest = rewrite_none rows in ground arith

    pub row_at-away :
        (key : Row → Bool)
        → ((r : Row) → key (set r) ≡ key r)
        → ((r : Row) → where_ r ≡ true → key r ≡ false)
        → (rows : List Row) → row_at key (rewrite where_ set rows) ≡ row_at key rows
    row_at-away key kept apart [] = refl
    row_at-away key kept apart (r ∷ rows) =
        let rest = row_at-away key kept apart rows in
        let same = kept r in let away = apart r in ground arith

  -- The row of a key is the only one that the key admits.
  pub only_row :
      (key : Row → Bool) (rows : List Row) {found_row : Row}
      → matching key rows ≤ 1
      → row_at key rows ≡ some found_row
      → All (λ r. key r ≡ true → r ≡ found_row) rows
  only_row key [] few found = tt
  only_row key (r ∷ rows) {found_row = x} few found = elim (Bool-cases (key r)) [
    | inl e ↦
        let none_left : matching key rows ≡ 0 = ground arith in
        let same : r ≡ x =
          some_injective (subst (λ b. (if b then some r else row_at key rows) ≡ some x) e found) in
        (
          (λ _. same),
          All-weaken (λ y. key y ≡ false) (λ y. key y ≡ true → y ≡ x) (λ y away keyed. cc) rows
              (matching_none key rows none_left),
        )
    | inr e ↦ (
      (λ keyed. cc),
      only_row key rows (ground arith)
          (subst (λ b. (if b then some r else row_at key rows) ≡ some x) e found),
    )
  ]

  -- Where one row was counted, it is the key's, and it was updated.
  pub one_of :
      (where_ : Row → Bool) (set : Row → Row) (o : Option Row)
      → (counted where_ o == 1) ≡ true
      → (r : Row) × (o ≡ some r) × (where_ r ≡ true) × (updated where_ set o ≡ some (set r))
  one_of where_ set none h = cc
  one_of where_ set (some r) h = elim (Bool-cases (where_ r)) [
    | inl e ↦ (r, refl, e, rw (e, if◌then◌else◌) refl)
    | inr e ↦ let no : (0 == 1) ≡ true = subst (λ b. ((if b then 1 else 0) == 1) ≡ true) e h in cc
  ]

  -- An update of one row whose assignment makes a clause false leaves no row of the key that the clause
  -- admits.
  pub rewrite-spent :
      (key where_ next : Row → Bool) (set : Row → Row) (rows : List Row)
      → ((r : Row) → where_ r ≡ true → key r ≡ true)
      → ((r : Row) → next r ≡ true → key r ≡ true)
      → ((r : Row) → key (set r) ≡ key r)
      → ((r : Row) → where_ r ≡ true → next (set r) ≡ false)
      → matching key rows ≤ 1
      → (matching where_ rows == 1) ≡ true
      → matching next (rewrite where_ set rows) ≡ 0
  rewrite-spent key where_ next set rows narrow narrow_next kept spent few won =
      let counted_one =
        subst (λ n. (n == 1) ≡ true) (matching-narrow key where_ narrow rows few) won in
      let (r, found, admitted, after_row) = one_of where_ set (row_at key rows) counted_one in
      let few_after : matching key (rewrite where_ set rows) ≤ 1 =
        subst (λ n. n ≤ 1) (sym (matching-rewrite where_ set key kept rows)) few in
      matching-narrow key next narrow_next (rewrite where_ set rows) few_after
      ∙ ap (counted next) (row_at-rewrite where_ set key kept rows ∙ after_row)
      ∙ ap (λ b. if b then 1 else 0) (spent r admitted)
