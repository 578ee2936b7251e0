-- ===== src/Execution/Idempotency.antt =====
-- The key of an effect and the record of its outcome: ragcore/src/ragcore/execution/idempotency.py, and
-- `IdempotencyRecord` and `IdempotencyStore` of persistence/{models,repositories}.py.
use itsm_poc.Common.{
  Bool, true, false, ◌&&◌, not, List, [], ◌∷◌, String, str_eq, Option, none, some, ◌==◌, ◌≡◌, refl,
  ap, ◌∙◌, arith, if◌then◌else◌,
}
use itsm_poc.Domain.Records.{Uuid, Instant, JsonObject, TenantContext, WorkItemId, OperationId}
use itsm_poc.Persistence.Rows.{
  rewrite, row_at, matching, rewrite_none, unmatched, row_at-rewrite, row_at_key, updated,
}
use itsm_poc.Persistence.WorkItems.{tenant_scope}

pub record IdempotencyRow : Type 0 where
  pub idempotency_key : String
  pub tenant_id : Uuid
  pub operation_id : Uuid
  pub outcome : Option JsonObject
  pub created_at : Instant
  pub updated_at : Instant

-- `str` of a UUID, formatting, and the digest of the standard library.
pub record KeyText : Type 0 where
  pub uuid_text : Uuid → String
  pub format : (parts : List String) → String
  pub sha256_hex : String → String

-- `derive_key`.
unfoldable pub effect_key : KeyText → TenantContext → WorkItemId → OperationId → String
effect_key k tenant work operation = k.format (
    "synthia-v1"
    ∷ ":"
    ∷ k.sha256_hex (
        k.format (
          k.uuid_text tenant.tenant_id.value
          ∷ ":"
          ∷ k.uuid_text work.value
          ∷ ":"
          ∷ k.uuid_text operation.value
          ∷ []))
    ∷ [])

unfoldable pub remembers : TenantContext → (key : String) → OperationId → IdempotencyRow → Bool
unfolding tenant_scope
remembers tenant key operation r =
    tenant_scope tenant r.tenant_id
    && (str_eq r.idempotency_key key && operation.value == r.operation_id)

unfoldable pub remember :
    (clock : Instant)
    → TenantContext
    → (key : String) → OperationId
    → JsonObject
    → List IdempotencyRow
    → List IdempotencyRow
unfolding remembers
remember clock tenant key operation outcome =
    rewrite (remembers tenant key operation)
      (λ (r : IdempotencyRow). record r { outcome = some outcome; updated_at = clock })

unfoldable pub replay_key : TenantContext → (key : String) → IdempotencyRow → Bool
unfolding tenant_scope
replay_key tenant key r = tenant_scope tenant r.tenant_id && str_eq r.idempotency_key key

abbrev outcome_of : Option IdempotencyRow → Option JsonObject
outcome_of none = none
outcome_of (some r) = r.outcome

-- The primary key is the key, so that one row at most is found.
unfoldable pub replay : TenantContext → (key : String) → List IdempotencyRow → Option JsonObject
unfolding replay_key
replay tenant key rows = outcome_of (row_at (replay_key tenant key) rows)

pub record ReplayDecision : Type 0 where
  pub key : String
  pub replayed : Bool
  pub outcome : Option JsonObject

unfoldable pub should_execute : ReplayDecision → Bool
should_execute d = not d.replayed

decision_from : String → Option JsonObject → ReplayDecision
decision_from key none = record { key = key; replayed = false; outcome = none }
decision_from key (some previous) = record { key = key; replayed = true; outcome = some previous }

unfoldable pub begin_effect : TenantContext → (key : String) → List IdempotencyRow → ReplayDecision
unfolding replay decision_from
begin_effect tenant key rows = decision_from key (replay tenant key rows)

unfoldable pub complete_effect :
    (clock : Instant)
    → TenantContext
    → (key : String) → OperationId
    → JsonObject
    → List IdempotencyRow
    → List IdempotencyRow
unfolding remember
complete_effect clock tenant key operation outcome = remember clock tenant key operation outcome

remembered_key :
    (tenant : TenantContext) (key : String) (operation : OperationId) (r : IdempotencyRow)
    → remembers tenant key operation r ≡ true
    → replay_key tenant key r ≡ true
unfolding remembers replay_key
remembered_key tenant key operation r found = ground arith

remembered :
    (tenant : TenantContext) (key : String) (operation : OperationId) (r : IdempotencyRow)
    → replay_key tenant key r ≡ true
    → r.operation_id ≡ operation.value
    → remembers tenant key operation r ≡ true
unfolding remembers replay_key
remembered tenant key operation r found same = ground arith

-- Where the key has a row, of the same tenant and operation, completing the effect makes the next
-- attempt of the same key a replay with the outcome that was completed.
pub begin_effect-complete_effect :
    (clock : Instant) (tenant : TenantContext) (key : String) (operation : OperationId)
    (outcome : JsonObject) (rows : List IdempotencyRow) (r : IdempotencyRow)
    → row_at (replay_key tenant key) rows ≡ some r
    → r.operation_id ≡ operation.value
    → begin_effect tenant key (complete_effect clock tenant key operation outcome rows)
      ≡ record { key = key; replayed = true; outcome = some outcome }
unfolding begin_effect complete_effect remember replay replay_key
begin_effect-complete_effect clock tenant key operation outcome rows r found same =
    let set : IdempotencyRow → IdempotencyRow =
      λ x. record x { outcome = some outcome; updated_at = clock } in
    let hit =
      remembered tenant key operation r (row_at_key (replay_key tenant key) rows found) same in
    ap (λ o. decision_from key (outcome_of o))
      (row_at-rewrite (remembers tenant key operation) set (replay_key tenant key) (λ x. refl) rows
        ∙ ap (updated (remembers tenant key operation) set) found
        ∙ ap (λ b. some (if b then set r else r)) hit)

-- Where the key has no row, completing an effect writes nothing, and the next attempt of the same key
-- executes again.
pub complete_effect_unrecorded :
    (clock : Instant) (tenant : TenantContext) (key : String) (operation : OperationId)
    (outcome : JsonObject) (rows : List IdempotencyRow)
    → matching (replay_key tenant key) rows ≡ 0
    → (complete_effect clock tenant key operation outcome rows ≡ rows)
      × (should_execute (begin_effect tenant key rows) ≡ true)
unfolding begin_effect complete_effect remember should_execute replay decision_from
complete_effect_unrecorded clock tenant key operation outcome rows absent =
    let (nobody, untouched) =
      unmatched (replay_key tenant key) (remembers tenant key operation)
        (remembered_key tenant key operation) rows absent in
    (rewrite_none (remembers tenant key operation) _ rows untouched, rw nobody refl)
