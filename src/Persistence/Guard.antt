-- ===== src/Persistence/Guard.antt =====
-- Writes under optimistic concurrency: ragcore/src/ragcore/persistence/concurrency.py. A statement sees
-- the rows as they stand and leaves the rows that follow; the database's clock is an argument.
use itsm_poc.Common.{
  ℕ, Bool, false, ◌&&◌, ◌||◌, List, String, str_eq, Option, none, some, Result, err, ok, any,
  if◌then◌else◌, ◌==◌, ◌+◌, ◌>>=◌, ◌≡◌,
}
use itsm_poc.Domain.Records.{Instant}
use itsm_poc.Persistence.Rows.{matching, rewrite}

-- `ValueError`, in the two places that raise it, and `ConcurrencyConflictError`.
pub data WriteError : Type 0 where
  managed_columns unversioned_table : WriteError
  concurrency_conflict : (table_name : String) → (expected_version : ℕ) → WriteError

module _ {ℓ} (Row : Type ℓ) where
  pub record VersionColumn : Type ℓ where
    pub version_of : Row → ℕ
    pub with_version : ℕ → Row → Row

  -- What the helpers read of a table: its name, its `version` column if it has one, and `updated_at`.
  pub record Table : Type ℓ where
    pub table_name : String
    pub version_column : Option VersionColumn
    pub with_updated_at : Instant → Row → Row

  -- Keyword arguments: the columns they name, and what they do to a row.
  pub record Changes : Type ℓ where
    pub columns : List String
    pub assign : Row → Row

  pub record VersionedRow : Type ℓ where
    pub identity : Row → Bool
    pub expected_version : ℕ

  -- What a write left, and what it answered.
  pub record Written : Type ℓ where
    pub rows : List Row
    pub answer : Bool

unfoldable pub is_managed : String → Bool
is_managed column = str_eq column "version" || str_eq column "updated_at"

module _ {ℓ} {Row : Type ℓ} where
  unfoldable pub reject_managed_columns : Changes Row → Result {0, 0} WriteError Unit
  unfolding is_managed
  reject_managed_columns changes =
      if any is_managed changes.columns then err managed_columns else ok tt

  -- `result.rowcount == 1` of one UPDATE.
  unfoldable pub execute_update : (Row → Bool) → (Row → Row) → List Row → Written Row
  execute_update where_ set before = record {
    rows = rewrite where_ set before;
    answer = matching where_ before == 1;
  }

  unfoldable pub bump : Table Row → Instant → VersionColumn Row → Row → Row
  bump table clock column r =
      table.with_updated_at clock (column.with_version (column.version_of r + 1) r)

  guard_with :
      Table Row
      → Instant
      → VersionedRow Row
      → Changes Row
      → List Row
      → Option (VersionColumn Row)
      → Result WriteError (Written Row)
  unfolding execute_update bump
  guard_with table clock row changes before none = err unversioned_table
  guard_with table clock row changes before (some column) = ok (
      execute_update (λ r. row.identity r && column.version_of r == row.expected_version)
        (λ r. bump table clock column (changes.assign r)) before)

  unfoldable pub guarded_update :
      Table Row
      → Instant
      → VersionedRow Row
      → Changes Row
      → List Row
      → Result WriteError (Written Row)
  unfolding reject_managed_columns guard_with
  guarded_update table clock row changes before = reject_managed_columns changes >>= λ _.
      guard_with table clock row changes before table.version_column

  unfoldable pub require_guarded_update :
      Table Row → Instant → VersionedRow Row → Changes Row → List Row → Result WriteError (List Row)
  unfolding guarded_update
  require_guarded_update table clock row changes before =
      guarded_update table clock row changes before >>= λ w.
      if w.answer
      then ok w.rows
      else err (concurrency_conflict table.table_name row.expected_version)

  managed : Table Row → Instant → Option (VersionColumn Row) → Row → Row
  unfolding bump
  managed table clock none r = table.with_updated_at clock r
  managed table clock (some column) r = bump table clock column r

  unfoldable pub claim_once :
      Table Row
      → Instant
      → (identity : Row → Bool) → Changes Row
      → List Row
      → Result WriteError (Written Row)
  unfolding reject_managed_columns execute_update managed
  claim_once table clock identity changes before = reject_managed_columns changes >>= λ _. ok (
      execute_update identity (λ r. managed table clock table.version_column (changes.assign r))
        before)

  -- Without a managed column, and with a version to count, each write is one UPDATE.
  module _ (table : Table Row) (clock : Instant) (changes : Changes Row) (before : List Row)
      (column : VersionColumn Row) (versioned : table.version_column ≡ some column)
      (unmanaged : any is_managed changes.columns ≡ false) where
    pub guarded_update_lem :
        (row : VersionedRow Row)
        → guarded_update table clock row changes before
          ≡ ok (
              execute_update
                (λ r. row.identity r && column.version_of r == row.expected_version)
                (λ r. bump table clock column (changes.assign r))
                before)
    unfolding guarded_update reject_managed_columns guard_with
    guarded_update_lem row = rw (unmanaged, versioned)

    pub claim_once_lem :
        (identity : Row → Bool)
        → claim_once table clock identity changes before
          ≡ ok (execute_update identity (λ r. bump table clock column (changes.assign r)) before)
    unfolding claim_once reject_managed_columns managed
    claim_once_lem identity = rw (unmanaged, versioned)
