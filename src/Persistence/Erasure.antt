-- ===== src/Persistence/Erasure.antt =====
-- The erasure of an organisation's rows: ragcore/src/ragcore/persistence/erasure.py, with the foreign keys
-- that ragcore/src/ragcore/persistence/models.py declares on what it deletes. A key that cascades takes the
-- rows that refer to a deleted one with it; one that does not makes the statement raise where such a row is left.
pub mod Cascades
pub mod Erased
use itsm_poc.Common.{
  ℕ, zero, suc, Bool, true, false, not, ◌&&◌, ◌||◌, ◌==◌, List, [], ◌∷◌, any, String, str_eq,
  Option, none, some, length, select, if◌then◌else◌,
}
use itsm_poc.Domain.Records.{Uuid, TenantContext}
use itsm_poc.Persistence.WorkItems.{tenant_scope}

-- The row of another table that a foreign key names.
pub record Reference : Type 0 where
  pub parent : String
  pub key : Uuid

-- A row by its organisation, its primary key and its foreign keys.
pub record TenantRow : Type 0 where
  pub tenant_id : Uuid
  pub row_id : Uuid
  pub refers : List Reference

abbrev pub Database : Type 0
Database = String → List TenantRow

abbrev pub erasure_order : List String
erasure_order =
    "feedback" ∷ "session_step" ∷ "message" ∷ "idempotency_record" ∷ "operation" ∷ "approval"
    ∷ "consent" ∷ "work_item" ∷ "chat_session" ∷ "outbox_message" ∷ "ingestion_run"
    ∷ "tenant_entitlement" ∷ "tenant_mapping" ∷ []

pub record ForeignKey : Type 0 where
  pub child : String
  pub parent : String
  pub cascades : Bool

abbrev cascading : (child parent : String) → ForeignKey
cascading child parent = record { child = child; parent = parent; cascades = true }

abbrev refusing : (child parent : String) → ForeignKey
refusing child parent = record { child = child; parent = parent; cascades = false }

abbrev pub foreign_keys : List ForeignKey
foreign_keys =
    refusing "chat_session" "tenant_mapping"
    ∷ cascading "message" "chat_session"
    ∷ cascading "session_step" "chat_session"
    ∷ cascading "feedback" "message"
    ∷ cascading "feedback" "chat_session"
    ∷ refusing "work_item" "tenant_mapping"
    ∷ cascading "tenant_entitlement" "tenant_mapping"
    ∷ refusing "operation" "work_item"
    ∷ refusing "approval" "work_item"
    ∷ refusing "consent" "work_item"
    ∷ refusing "idempotency_record" "operation"
    ∷ cascading "integration_job" "work_item"
    ∷ cascading "ingestion_run" "tenant_mapping"
    ∷ []

-- The number of rows that a statement removed from its table.
pub record Removed : Type 0 where
  pub table : String
  pub rows : ℕ

pub record Erasing : Type 0 where
  pub database : Database
  pub removed : List Removed

unfoldable pub is_owned : TenantContext → TenantRow → Bool
unfolding tenant_scope
is_owned tenant r = tenant_scope tenant r.tenant_id

-- The row refers to one of the rows of a table.
unfoldable pub refers_to : (table : String) → List TenantRow → TenantRow → Bool
refers_to table gone r =
    any
      (λ (f : Reference). str_eq f.parent table && any (λ (g : TenantRow). g.row_id == f.key) gone)
      r.refers

unfoldable pub delete_rows : (table : String) → (TenantRow → Bool) → Database → Database
delete_rows table doomed db name =
    if str_eq name table then select (λ r. not (doomed r)) (db name) else db name

-- The deletions that the keys cascade from rows that are gone.
unfoldable pub cascade_keys :
    (remove : String → (TenantRow → Bool) → Database → Database)
    → (table : String) → List TenantRow
    → List ForeignKey
    → Database
    → Database
unfolding refers_to
cascade_keys remove table gone [] db = db
cascade_keys remove table gone (k ∷ keys) db =
    let rest = cascade_keys remove table gone keys in
    if k.cascades && str_eq k.parent table
    then rest (remove k.child (refers_to table gone) db)
    else rest db

-- A deletion with what it cascades to; the declared keys cascade twice in a row at most.
unfoldable pub remove_rows :
    (depth : ℕ) → (table : String) → (TenantRow → Bool) → Database → Database
unfolding delete_rows cascade_keys
remove_rows zero table doomed db = delete_rows table doomed db
remove_rows (suc depth) table doomed db =
    cascade_keys (remove_rows depth) table (select doomed (db table)) foreign_keys
      (delete_rows table doomed db)

-- A row is left that refers, by a key that does not cascade, to a row that is gone.
unfoldable pub leaves_dangling :
    (table : String) → List TenantRow → List ForeignKey → Database → Bool
unfolding refers_to
leaves_dangling table gone keys db =
    any
      (λ (k : ForeignKey).
        not k.cascades && (str_eq k.parent table && any (refers_to table gone) (db k.child)))
      keys

-- `DELETE FROM … WHERE tenant_id = …`, none where it raises.
unfoldable pub delete_owned : TenantContext → (table : String) → Database → Option Database
unfolding is_owned remove_rows leaves_dangling
delete_owned tenant table db =
    let left = remove_rows 2 table (is_owned tenant) db in
    if leaves_dangling table (select (is_owned tenant) (db table)) foreign_keys left
    then none
    else some left

unfoldable pub counting : (table : String) → (rows : ℕ) → Option Erasing → Option Erasing
counting table rows none = none
counting table rows (some e) =
    some (record {
      database = e.database;
      removed = record { table = table; rows = rows } ∷ e.removed;
    })

unfoldable pub erase_tables : TenantContext → List String → Option Database → Option Erasing
unfolding delete_owned is_owned counting
erase_tables tenant tables none = none
erase_tables tenant [] (some db) = some (record { database = db; removed = [] })
erase_tables tenant (table ∷ tables) (some db) =
    counting table (length (select (is_owned tenant) (db table)))
      (erase_tables tenant tables (delete_owned tenant table db))

-- The statements of one transaction; none where one of them raises.
unfoldable pub erase_tenant : TenantContext → Database → Option Erasing
unfolding erase_tables
erase_tenant tenant db = erase_tables tenant erasure_order (some db)
