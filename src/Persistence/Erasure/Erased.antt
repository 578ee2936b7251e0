-- ===== src/Persistence/Erasure/Erased.antt =====
-- What an erasure removes and what it leaves: ragcore/src/ragcore/persistence/erasure.py.
use itsm_poc.Common.{
  Bool, true, false, not, ◌&&◌, ◌||◌, ◌==◌, ==_iff, List, [], ◌∷◌, any, String, str_eq, str_eq_iff,
  none, some, length, select, if◌then◌else◌, ◌≡◌, ◌≢◌, refl, sym, ap, ◌∙◌, subst, arith, Bool-cases,
  inl, inr, In, or_true, In-select,
}
use itsm_poc.Domain.Records.{TenantContext}
use itsm_poc.Persistence.WorkItems.{tenant_scope}
use itsm_poc.Persistence.Erasure.{
  Reference, TenantRow, Database, ForeignKey, Erasing, foreign_keys, is_owned, refers_to,
  delete_rows, remove_rows, leaves_dangling, delete_owned, counting, erase_tables, erase_tenant,
  erasure_order,
}
use itsm_poc.Persistence.Erasure.Cascades.{
  Within, Between, any_found, found_any, refers_owned, delete-spares, remove-delete, remove-In,
  remove-Between, cascaded, remove-Fixed, Own-select,
}

-- The tables that refer to one by a key that does not cascade are among those that are done.
ready : List String → (table : String) → List ForeignKey → Bool
ready done table [] = true
ready done table (k ∷ keys) =
    (k.cascades || (not (str_eq k.parent table) || any (str_eq k.child) done))
    && ready done table keys

own_lem :
    (tenant : TenantContext) (r : TenantRow)
    → r.tenant_id ≡ tenant.tenant_id.value
    → is_owned tenant r ≡ true
unfolding is_owned tenant_scope
own_lem tenant r own = ground arith

both : (a b : Bool) → a && b ≡ true → (a ≡ true) × (b ≡ true)
both true b h = (refl, h)
both false b h = cc

true_not_false : (b : Bool) → b ≡ true → b ≡ false → ⊥
true_not_false b h k = cc

ordered : List String → List String → Bool
ordered done [] = true
ordered done (table ∷ tables) = ready done table foreign_keys && ordered (table ∷ done) tables

module _ (tenant : TenantContext) (start : Database) (within : Within start) where
  -- A job that is left refers to a work item that is left, if it referred to one.
  Anchored : Database → Type 0
  Anchored db =
      (r : TenantRow) (f : Reference) (q : TenantRow)
      → In r (db "integration_job")
      → In f r.refers
      → f.parent ≡ "work_item"
      → In q (start "work_item")
      → q.row_id ≡ f.key
      → In q (db "work_item")

  -- The tables hold no row of the organisation.
  Cleared : Database → List String → Type 0
  Cleared db done =
      (name : String) (r : TenantRow)
      → any (str_eq name) done ≡ true
      → In r (db name)
      → is_owned tenant r ≡ false

  abbrev left_by : String → Database → Database
  left_by table db = remove_rows 2 table (is_owned tenant) db

  statement-Between :
      (table : String) (db : Database)
      → Between tenant start db
      → Between tenant start (left_by table db)
  statement-Between table db b =
      remove-Between tenant start within 2 table (is_owned tenant) db b (λ r at owned. owned)

  jobs_go :
      (db : Database) → Between tenant start db → Anchored db → Anchored (left_by "work_item" db)
  unfolding Anchored refers_to remove_rows
  jobs_go db b anchored r f q at listed parent there keyed =
      let q_at =
        anchored r f q
          (remove-In tenant start 2 "work_item" (is_owned tenant) db "integration_job" r at) listed
          parent there keyed in
      elim (Bool-cases (is_owned tenant q)) [
        | inr foreign ↦ (statement-Between "work_item" db b).keeps "work_item" q there foreign
        | inl owned ↦
            let gone = select (is_owned tenant) (db "work_item") in
            let held = In-select (is_owned tenant) q (db "work_item") owned q_at in
            let found =
              found_any (λ (g : TenantRow). g.row_id == f.key) q gone held
                ((==_iff q.row_id f.key).1 keyed) in
            let named = (str_eq_iff f.parent "work_item").1 parent in
            let refers =
              found_any
                (λ (f : Reference).
                  str_eq f.parent "work_item" && any (λ (g : TenantRow). g.row_id == f.key) gone)
                f r.refers listed (rw (named, found) refl) in
            let spared =
              cascaded tenant start 1 "work_item" gone foreign_keys
                (delete_rows "work_item" (is_owned tenant) db)
                (record { child = "integration_job"; parent = "work_item"; cascades = true }) r
                (inr (inr (inr (inr (inr (inr (inr (inr (inr (inr (inr (inl refl)))))))))))) refl
                at in
            absurd (true_not_false _ refers spared)
      ]

  statement-Anchored :
      (table : String) (db : Database)
      → Between tenant start db
      → Anchored db
      → Anchored (left_by table db)
  unfolding Anchored
  statement-Anchored table db b anchored = elim (Bool-cases (str_eq "work_item" table)) [
    | inl e ↦
        subst (λ t. Anchored (left_by t db)) ((str_eq_iff "work_item" table).0 e)
          (jobs_go db b anchored)
    | inr e ↦ λ r f q at listed parent there keyed.
        subst (λ rows. In q rows)
          (sym (remove-Fixed tenant start 2 table "work_item" (is_owned tenant) db refl e))
          (anchored r f q
            (remove-In tenant start 2 table (is_owned tenant) db "integration_job" r at) listed
            parent there keyed)
  ]

  statement-Cleared :
      (table : String) (done : List String) (db : Database)
      → Cleared db done
      → Cleared (left_by table db) (table ∷ done)
  unfolding Cleared
  statement-Cleared table done db cleared name r h at = elim (Bool-cases (str_eq name table)) [
    | inl e ↦ delete-spares tenant start table (is_owned tenant) db r (
        remove-delete tenant start 2 table (is_owned tenant) db table r
          (subst (λ n. In r (left_by table db n)) ((str_eq_iff name table).0 e) at))
    | inr e ↦
        cleared name r (ground arith)
          (remove-In tenant start 2 table (is_owned tenant) db name r at)
  ]

  allowed :
      (table : String) (done : List String) (db : Database) (keys : List ForeignKey)
      → Between tenant start db
      → Cleared db done
      → ready done table keys ≡ true
      → leaves_dangling table (select (is_owned tenant) (db table)) keys (left_by table db) ≡ false
  unfolding leaves_dangling ready Cleared
  allowed table done db [] b cleared h = refl
  allowed table done db (k ∷ keys) b cleared h =
      let gone = select (is_owned tenant) (db table) in
      let later = allowed table done db keys b cleared (ground arith) in
      elim (Bool-cases (
        not k.cascades
        && (str_eq k.parent table && any (refers_to table gone) (left_by table db k.child)))) [
          | inr e ↦ rw e later
          | inl e ↦
              let (r, at, refers) =
                any_found (refers_to table gone) (left_by table db k.child) (ground arith) in
              let owned =
                refers_owned tenant start table k.child gone r within
                  (Own-select tenant start within table (is_owned tenant) db b
                    (λ r at owned. owned))
                  ((statement-Between table db b).subset k.child r at) refers in
              let foreign =
                cleared k.child r (ground arith)
                  (remove-In tenant start 2 table (is_owned tenant) db k.child r at) in
              absurd (true_not_false _ owned foreign)
        ]

  passes :
      (table : String) (db : Database)
      → leaves_dangling table (select (is_owned tenant) (db table)) foreign_keys (left_by table db)
        ≡ false
      → delete_owned tenant table db ≡ some (left_by table db)
  unfolding delete_owned
  passes table db free = ap (λ b. if b then none else some (left_by table db)) free

  -- What the statements leave, from a database in which some tables are cleared.
  record Left (tables done : List String) (e : Erasing) : Type 0 where
    between : Between tenant start e.database
    anchored : Anchored e.database
    still : Cleared e.database done
    cleared : Cleared e.database tables

  tables_lem :
      (tables done : List String) (db : Database)
      → Between tenant start db
      → Anchored db
      → Cleared db done
      → ordered done tables ≡ true
      → (e : Erasing) × (erase_tables tenant tables (some db) ≡ some e) × Left tables done e
  unfolding erase_tables ordered counting Cleared
  tables_lem [] done db b anchored cleared h = (
    _,
    refl,
    record { between = b; anchored = anchored; still = cleared; cleared = λ name r none at. cc },
  )
  tables_lem (table ∷ tables) done db b anchored cleared h =
      let (now, later) = both (ready done table foreign_keys) (ordered (table ∷ done) tables) h in
      let rows = length (select (is_owned tenant) (db table)) in
      let free = allowed table done db foreign_keys b cleared now in
      let (e, same, left) =
        tables_lem tables (table ∷ done) (left_by table db) (statement-Between table db b)
          (statement-Anchored table db b anchored) (statement-Cleared table done db cleared)
          later in
      (
        record {
          database = e.database;
          removed = record { table = table; rows = rows } ∷ e.removed;
        },
        ap (λ o. counting table rows (erase_tables tenant tables o)) (passes table db free)
            ∙ ap (counting table rows) same,
        record {
          between = left.between;
          anchored = left.anchored;
          still = λ name r there at. left.still name r (rw there (or_true _)) at;
          cleared = λ name r there at. elim (Bool-cases (str_eq name table)) [
            | inl here ↦ left.still name r (rw here refl) at
            | inr other ↦ left.cleared name r (rw other at there) at
          ];
        },
      )

-- In a database without references between organisations, in which each job refers to a work item, an erasure
-- raises nothing. It leaves in each table rows that were there, and among them every row of the other
-- organisations. A table of the order is left with no row of the organisation, and so are the jobs, which are
-- in no list and go with the work items.
pub erase_tenant_erases :
    (tenant : TenantContext) (db : Database)
    → Within db
    → ((r : TenantRow)
        → In r (db "integration_job")
        → (f : Reference) × (q : TenantRow) × In f r.refers
          × (f.parent ≡ "work_item")
          × In q (db "work_item")
          × (q.row_id ≡ f.key))
    → (e : Erasing) × (erase_tenant tenant db ≡ some e)
      × ((name : String) (r : TenantRow) → In r (e.database name) → In r (db name))
      × ((name : String) (r : TenantRow)
          → In r (db name)
          → is_owned tenant r ≡ false
          → In r (e.database name))
      × ((name : String) (r : TenantRow)
          → any (str_eq name) ("integration_job" ∷ erasure_order) ≡ true
          → In r (e.database name)
          → r.tenant_id ≢ tenant.tenant_id.value)
unfolding erase_tenant Anchored Cleared ordered ready
erase_tenant_erases tenant db within anchors =
    let (e, same, left) =
      tables_lem tenant db within erasure_order [] db
        (record { subset = λ name r at. at; keeps = λ name r at foreign. at })
        (λ r f q at listed parent there keyed. there) (λ name r h at. cc) refl in
    (
      e,
      same,
      left.between.subset,
      left.between.keeps,
      λ name r h at own.
          let owned = own_lem tenant r own in
          elim (Bool-cases (str_eq name "integration_job")) [
            | inr other ↦ absurd (true_not_false _ owned (left.cleared name r (ground arith) at))
            | inl jobs ↦
                let at_jobs =
                  subst (λ n. In r (e.database n)) ((str_eq_iff name "integration_job").0 jobs)
                    at in
                let was = left.between.subset "integration_job" r at_jobs in
                let (f, q, listed, parent, there, keyed) = anchors r was in
                let q_left = left.anchored r f q at_jobs listed parent there keyed in
                let foreign = left.cleared "work_item" q refl q_left in
                let q_there = subst (λ n. In q (db n)) (sym parent) there in
                let shared = within "integration_job" r f q was listed q_there keyed in
                absurd (true_not_false _ (own_lem tenant q (shared ∙ own)) foreign)
          ],
    )
