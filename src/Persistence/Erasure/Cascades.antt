-- ===== src/Persistence/Erasure/Cascades.antt =====
-- What one statement of an erasure removes with its cascades: ragcore/src/ragcore/persistence/erasure.py, over
-- the foreign keys of ragcore/src/ragcore/persistence/models.py.
use itsm_poc.Common.{
  ℕ, zero, suc, Bool, true, false, not, ◌&&◌, ◌==◌, ==_iff, List, [], ◌∷◌, any, String, str_eq,
  str_eq_iff, select, if◌then◌else◌, ◌≡◌, refl, sym, ◌∙◌, subst, arith, Bool-cases, inl, inr, In,
  not_in, In-select, select-In,
}
use itsm_poc.Domain.Records.{TenantContext}
use itsm_poc.Persistence.Erasure.{
  Reference, TenantRow, Database, ForeignKey, foreign_keys, is_owned, refers_to, delete_rows,
  cascade_keys, remove_rows,
}

pub any_found :
    {A : Type 0} (p : A → Bool) (xs : List A) → any p xs ≡ true → (x : A) × In x xs × (p x ≡ true)
any_found p [] h = cc
any_found p (y ∷ ys) h = elim (Bool-cases (p y)) [
  | inl e ↦ (y, inl refl, e)
  | inr e ↦ let (x, at, holds) = any_found p ys (rw e at h) in (x, inr at, holds)
]

pub found_any :
    {A : Type 0} (p : A → Bool) (x : A) (xs : List A) → In x xs → p x ≡ true → any p xs ≡ true
found_any p x [] at h = absurd (not_in at)
found_any p x (y ∷ ys) (inl e) h = let here = subst (λ z. p z ≡ true) e h in ground arith
found_any p x (y ∷ ys) (inr at) h = let rest = found_any p x ys at h in ground arith

-- No row refers to a row of another organisation.
abbrev pub Within : Database → Type 0
Within db =
    (name : String) (r : TenantRow) (f : Reference) (q : TenantRow)
    → In r (db name)
    → In f r.refers
    → In q (db f.parent)
    → q.row_id ≡ f.key
    → q.tenant_id ≡ r.tenant_id

module _ (tenant : TenantContext) (start : Database) where
  -- Rows of the start, with every row of another organisation.
  pub record Between (db : Database) : Type 0 where
    pub subset : (name : String) (r : TenantRow) → In r (db name) → In r (start name)
    pub keeps :
        (name : String) (r : TenantRow)
        → In r (start name)
        → is_owned tenant r ≡ false
        → In r (db name)

  -- Rows of the organisation that a table of the start has.
  pub Own : String → List TenantRow → Type 0
  Own table gone = (g : TenantRow) → In g gone → In g (start table) × (is_owned tenant g ≡ true)

  pub refers_owned :
      (table name : String) (gone : List TenantRow) (r : TenantRow)
      → Within start
      → Own table gone
      → In r (start name)
      → refers_to table gone r ≡ true
      → is_owned tenant r ≡ true
  unfolding refers_to Own is_owned
  refers_owned table name gone r within own at h =
      let (f, listed, named) =
        any_found
          (λ (f : Reference).
            str_eq f.parent table && any (λ (g : TenantRow). g.row_id == f.key) gone)
          r.refers h in
      let parent = (str_eq_iff f.parent table).0 (ground arith) in
      let (g, held, keyed) = any_found (λ (g : TenantRow). g.row_id == f.key) gone (ground arith) in
      let (there, owned) = own g held in
      let same =
        within name r f g at listed (subst (λ n. In g (start n)) (sym parent) there)
          ((==_iff g.row_id f.key).0 keyed) in
      subst (λ id. is_owned tenant (record g { tenant_id = id }) ≡ true) same owned

  delete-In :
      (table name : String) (doomed : TenantRow → Bool) (db : Database) (r : TenantRow)
      → In r (delete_rows table doomed db name)
      → In r (db name)
  unfolding delete_rows
  delete-In table name doomed db r at = elim (Bool-cases (str_eq name table)) [
    | inl e ↦ (select-In (λ r. not (doomed r)) r (db name) (rw (e, if◌then◌else◌) at at)).0
    | inr e ↦ rw (e, if◌then◌else◌) at at
  ]

  pub delete-spares :
      (table : String) (doomed : TenantRow → Bool) (db : Database) (r : TenantRow)
      → In r (delete_rows table doomed db table)
      → doomed r ≡ false
  unfolding delete_rows
  delete-spares table doomed db r at =
      let passed =
        (select-In (λ r. not (doomed r)) r (db table)
          (rw ((str_eq_iff table table).1 refl, if◌then◌else◌) at at)).1 in
      ground arith

  delete-Between :
      (table : String) (doomed : TenantRow → Bool) (db : Database)
      → Between db
      → ((r : TenantRow) → In r (start table) → doomed r ≡ true → is_owned tenant r ≡ true)
      → Between (delete_rows table doomed db)
  unfolding delete_rows
  delete-Between table doomed db b only = record {
    subset = λ name r at. b.subset name r (delete-In table name doomed db r at);
    keeps = λ name r at foreign. elim (Bool-cases (str_eq name table)) [
      | inl e ↦
          let here = subst (λ n. In r (start n)) ((str_eq_iff name table).0 e) at in
          let kept = b.keeps name r at foreign in
          rw (e, if◌then◌else◌)
            (In-select (λ r. not (doomed r)) r (db name)
              (elim (Bool-cases (doomed r)) [
                | inl gone ↦ let owned = only r here gone in absurd (ground arith)
                | inr stays ↦ rw stays refl
              ])
              kept)
      | inr e ↦ rw (e, if◌then◌else◌) (b.keeps name r at foreign)
    ];
  }

  module _ (within : Within start) where
    pub Own-select :
        (table : String) (doomed : TenantRow → Bool) (db : Database)
        → Between db
        → ((r : TenantRow) → In r (start table) → doomed r ≡ true → is_owned tenant r ≡ true)
        → Own table (select doomed (db table))
    unfolding Own
    Own-select table doomed db b only g held =
        let (at, gone) = select-In doomed g (db table) held in
        (b.subset table g at, only g (b.subset table g at) gone)

    cascade-Between :
        (depth : ℕ) (table : String) (gone : List TenantRow) (keys : List ForeignKey)
        (db : Database)
        → ((child : String) (doomed : TenantRow → Bool) (db : Database)
            → Between db
            → ((r : TenantRow) → In r (start child) → doomed r ≡ true → is_owned tenant r ≡ true)
            → Between (remove_rows depth child doomed db))
        → Own table gone
        → Between db
        → Between (cascade_keys (remove_rows depth) table gone keys db)
    unfolding cascade_keys
    cascade-Between depth table gone [] db kept own b = b
    cascade-Between depth table gone (k ∷ keys) db kept own b =
        elim (Bool-cases (k.cascades && str_eq k.parent table)) [
          | inl e ↦
              rw (e, if◌then◌else◌)
                (cascade-Between depth table gone keys _ kept own (
                  kept k.child (refers_to table gone) db b
                    (λ r at h. refers_owned table k.child gone r within own at h)))
          | inr e ↦ rw (e, if◌then◌else◌) (cascade-Between depth table gone keys db kept own b)
        ]

    pub remove-Between :
        (depth : ℕ) (table : String) (doomed : TenantRow → Bool) (db : Database)
        → Between db
        → ((r : TenantRow) → In r (start table) → doomed r ≡ true → is_owned tenant r ≡ true)
        → Between (remove_rows depth table doomed db)
    unfolding remove_rows
    remove-Between zero table doomed db b only = delete-Between table doomed db b only
    remove-Between (suc depth) table doomed db b only =
        cascade-Between depth table (select doomed (db table)) foreign_keys
          (delete_rows table doomed db)
          (λ child doomed' db' b' only'. remove-Between depth child doomed' db' b' only')
          (Own-select table doomed db b only) (delete-Between table doomed db b only)

  cascade-In :
      (depth : ℕ) (table : String) (gone : List TenantRow) (keys : List ForeignKey) (db : Database)
      (name : String) (r : TenantRow)
      → ((child : String) (doomed : TenantRow → Bool) (db : Database)
          → In r (remove_rows depth child doomed db name)
          → In r (db name))
      → In r (cascade_keys (remove_rows depth) table gone keys db name)
      → In r (db name)
  unfolding cascade_keys
  cascade-In depth table gone [] db name r kept at = at
  cascade-In depth table gone (k ∷ keys) db name r kept at =
      elim (Bool-cases (k.cascades && str_eq k.parent table)) [
        | inl e ↦
            kept k.child (refers_to table gone) db
              (cascade-In depth table gone keys _ name r kept (rw (e, if◌then◌else◌) at at))
        | inr e ↦ cascade-In depth table gone keys db name r kept (rw (e, if◌then◌else◌) at at)
      ]

  pub remove-delete :
      (depth : ℕ) (table : String) (doomed : TenantRow → Bool) (db : Database) (name : String)
      (r : TenantRow)
      → In r (remove_rows depth table doomed db name)
      → In r (delete_rows table doomed db name)
  unfolding remove_rows
  remove-delete zero table doomed db name r at = at
  remove-delete (suc depth) table doomed db name r at =
      cascade-In depth table (select doomed (db table)) foreign_keys _ name r
        (λ child doomed' db' h.
          delete-In child name doomed' db' r (remove-delete depth child doomed' db' name r h))
        at

  pub remove-In :
      (depth : ℕ) (table : String) (doomed : TenantRow → Bool) (db : Database) (name : String)
      (r : TenantRow)
      → In r (remove_rows depth table doomed db name)
      → In r (db name)
  remove-In depth table doomed db name r at =
      delete-In table name doomed db r (remove-delete depth table doomed db name r at)

  -- A key that cascades leaves no row that refers to one that is gone.
  pub cascaded :
      (depth : ℕ) (table : String) (gone : List TenantRow) (keys : List ForeignKey) (db : Database)
      (k : ForeignKey) (r : TenantRow)
      → In k keys
      → k.cascades && str_eq k.parent table ≡ true
      → In r (cascade_keys (remove_rows depth) table gone keys db k.child)
      → refers_to table gone r ≡ false
  unfolding cascade_keys
  cascaded depth table gone [] db k r listed applies at = absurd (not_in listed)
  cascaded depth table gone (j ∷ keys) db k r (inl e) applies at =
      let applies_j =
        subst (λ (x : ForeignKey). x.cascades && str_eq x.parent table ≡ true) e applies in
      let at_j =
        subst
          (λ (x : ForeignKey).
            In r (cascade_keys (remove_rows depth) table gone (j ∷ keys) db x.child))
          e at in
      delete-spares j.child (refers_to table gone) db r (
        remove-delete depth j.child (refers_to table gone) db j.child r (
          cascade-In depth table gone keys _ j.child r
            (λ child doomed db' h. remove-In depth child doomed db' j.child r h)
            (rw (applies_j, if◌then◌else◌) at at_j)))
  cascaded depth table gone (j ∷ keys) db k r (inr later) applies at =
      elim (Bool-cases (j.cascades && str_eq j.parent table)) [
        | inl e ↦ cascaded depth table gone keys _ k r later applies (rw (e, if◌then◌else◌) at at)
        | inr e ↦ cascaded depth table gone keys db k r later applies (rw (e, if◌then◌else◌) at at)
      ]

  -- No key cascades into the table.
  abbrev pub Fixed : (name : String) → List ForeignKey → Type 0
  Fixed name keys = any (λ (k : ForeignKey). k.cascades && str_eq name k.child) keys ≡ false

  cascade-Fixed :
      (depth : ℕ) (table name : String) (gone : List TenantRow) (keys : List ForeignKey)
      (db : Database)
      → ((child : String) (doomed : TenantRow → Bool) (db : Database)
          → str_eq name child ≡ false
          → remove_rows depth child doomed db name ≡ db name)
      → Fixed name keys
      → cascade_keys (remove_rows depth) table gone keys db name ≡ db name
  unfolding cascade_keys
  cascade-Fixed depth table name gone [] db same fixed = refl
  cascade-Fixed depth table name gone (k ∷ keys) db same fixed =
      let later : Fixed name keys = ground arith in
      elim (Bool-cases (k.cascades && str_eq k.parent table)) [
        | inl e ↦
            rw (e, if◌then◌else◌)
              (cascade-Fixed depth table name gone keys _ same later
                ∙ same k.child (refers_to table gone) db (ground arith))
        | inr e ↦ rw (e, if◌then◌else◌) (cascade-Fixed depth table name gone keys db same later)
      ]

  pub remove-Fixed :
      (depth : ℕ) (table name : String) (doomed : TenantRow → Bool) (db : Database)
      → Fixed name foreign_keys
      → str_eq name table ≡ false
      → remove_rows depth table doomed db name ≡ db name
  unfolding remove_rows delete_rows
  remove-Fixed zero table name doomed db fixed other = rw (other, if◌then◌else◌) refl
  remove-Fixed (suc depth) table name doomed db fixed other =
      cascade-Fixed depth table name (select doomed (db table)) foreign_keys _
        (λ child doomed' db' apart. remove-Fixed depth child name doomed' db' fixed apart) fixed
      ∙ rw (other, if◌then◌else◌) refl
