-- ===== src/Examples/Contracts.antt =====
-- Two documents compared and a run of the gate, and the theorems about them applied to those; with the
-- erasure of an organisation.
use itsm_poc.Common.{
  ℕ, ◌==◌, true, false, List, [], ◌∷◌, any, Option, none, some, String, In, not_in, Bool-cases, inl,
  inr, subst, sym, ◌∙◌, str_eq, ◌≡◌, ◌≢◌, ◌↔◌, refl, All, if◌then◌else◌,
}
use itsm_poc.Domain.Records.{
  Json, json_str, json_list, json_object, JsonObject, no_members, member, JsonList, no_items, item,
}
use itsm_poc.Contracts.Documents.{DocumentText, OperationKey, operations, operation_at}
use itsm_poc.Contracts.Compare.{
  compare, sorted_keys, has_operation, operation_removed, field_now_required,
}
use itsm_poc.Contracts.Compare.Compatible.{OperationKept, kept_operations, compare-Kept}
use itsm_poc.Contracts.Approved.{Approval, GeneratedDocument, GateText, main}
use itsm_poc.Contracts.Approved.Clean.{all_clean, main_clean_iff}
use itsm_poc.Persistence.Erasure.{
  Reference, TenantRow, Database, Erasing, erase_tenant, is_owned, erasure_order,
}
use itsm_poc.Persistence.Erasure.Cascades.{Within}
use itsm_poc.Persistence.Erasure.Erased.{erase_tenant_erases}
use itsm_poc.Examples.Inputs.{tenant}

abbrev text_of_json : Json → String
text_of_json (json_str s) = s
text_of_json _ = ""

abbrev document_text : DocumentText
document_text = record {
  lower = λ name. name;
  before = λ a b. false;
  text_of = text_of_json;
  after_prefix = λ prefix text. text;
  parameter_key = λ place name. "query:page";
  combined_text = λ key parts. key;
}

abbrev typed : String → Json
typed name = json_object (member "type" (json_str name) no_members)

-- A body with a summary, and the names that it requires.
abbrev body : JsonList → JsonObject
body names =
    member "content"
      (json_object (
        member "application/json"
          (json_object (
            member "schema"
              (json_object (
                member "required" (json_list names) (
                  member "properties" (json_object (member "summary" (typed "string") no_members))
                    no_members)))
              no_members))
          no_members))
      no_members

abbrev document : JsonList → JsonObject
document names =
    member "paths"
      (json_object (
        member "/work"
          (json_object (
            member "post" (json_object (member "requestBody" (json_object (body names)) no_members))
              no_members))
          no_members))
      no_members

abbrev loose : JsonObject
loose = document no_items

abbrev strict : JsonObject
strict = document (item (json_str "summary") no_items)

abbrev post_work : OperationKey
post_work = record { path = "/work"; method = "post" }

required_field_is_breaking :
    compare document_text loose strict
    ≡ record { breaking = field_now_required "summary" post_work ∷ []; additive = [] }
unfolding compare
required_field_is_breaking = refl

removed_operation_is_breaking :
    compare document_text loose no_members
    ≡ record { breaking = operation_removed post_work ∷ []; additive = [] }
unfolding compare
removed_operation_is_breaking = refl

relaxed_is_not_breaking : (compare document_text strict loose).breaking ≡ []
unfolding compare
relaxed_is_not_breaking = refl

compare-Kept_example :
    All
      (λ key. has_operation (operations document_text loose) key ≡ true)
      (sorted_keys document_text (operations document_text strict))
    × All
        (λ key.
          OperationKept document_text strict loose
            (operation_at key (operations document_text strict))
            (operation_at key (operations document_text loose)))
        (kept_operations document_text strict loose)
compare-Kept_example = compare-Kept document_text strict loose relaxed_is_not_breaking

abbrev gate_text : GateText
gate_text = record {
  finding_text = λ f. "finding";
  is_from = λ date today. str_eq date "2026-12-31";
}

abbrev approval : Approval
approval = record {
  document = some "ragcore/staff.openapi.json";
  finding = some "finding";
  expires_on = "2026-12-31";
}

abbrev generated : GeneratedDocument
generated = record { path = "ragcore/staff.openapi.json"; baseline = some loose; current = strict }

approved_run_is_clean :
    main document_text gate_text "2026-11-01" (approval ∷ []) (generated ∷ [])
    ≡ record { status = 0; used = 0 ∷ [] }
unfolding main
approved_run_is_clean = refl

expired_approval_does_not_cover :
    (main document_text gate_text "2026-11-01"
      (record approval { expires_on = "2025-01-01" } ∷ [])
      (generated ∷ [])).status
    ≡ 1
unfolding main
expired_approval_does_not_cover = refl

-- A document without a baseline, and then an unapproved change: the status of the first is gone.
missing_baseline_is_forgotten :
    (main document_text gate_text "2026-11-01" []
      (record generated { baseline = none } ∷ generated ∷ [])).status
    ≡ 1
unfolding main
missing_baseline_is_forgotten = refl

main_clean_iff_example :
    ((main document_text gate_text "2026-11-01" (approval ∷ []) (generated ∷ [])).status ≡ 0) ↔ (
      (generated ∷ [] ≢ [])
      × (all_clean document_text gate_text "2026-11-01" (approval ∷ []) (generated ∷ []) ≡ true))
main_clean_iff_example =
    main_clean_iff document_text gate_text "2026-11-01" (approval ∷ []) (generated ∷ [])

-- A row of the organisation and one of another in every table, and their jobs.
abbrev plain_rows : List TenantRow
plain_rows =
    record { tenant_id = 11; row_id = 1; refers = [] }
    ∷ record { tenant_id = 99; row_id = 2; refers = [] }
    ∷ []

abbrev item_reference : (key : ℕ) → Reference
item_reference key = record { parent = "work_item"; key = key }

abbrev job_rows : List TenantRow
job_rows =
    record { tenant_id = 11; row_id = 1; refers = item_reference 1 ∷ [] }
    ∷ record { tenant_id = 99; row_id = 2; refers = item_reference 2 ∷ [] }
    ∷ []

abbrev database : Database
database name = if str_eq name "integration_job" then job_rows else plain_rows

plain_refers : (r : TenantRow) (f : Reference) → In r plain_rows → In f r.refers → ⊥
plain_refers r f (inl e) at = absurd (not_in (subst (λ (x : TenantRow). In f x.refers) e at))
plain_refers r f (inr (inl e)) at = absurd (not_in (subst (λ (x : TenantRow). In f x.refers) e at))
plain_refers r f (inr (inr h)) at = absurd (not_in h)

-- The work item that a job refers to.
job_owner : ℕ → ℕ
job_owner key = if key == 1 then 11 else 99

plain_owner :
    (q : TenantRow) (key : ℕ) → In q plain_rows → q.row_id ≡ key → q.tenant_id ≡ job_owner key
unfolding job_owner
plain_owner q key (inl e) keyed = rw (sym keyed, e) refl
plain_owner q key (inr (inl e)) keyed = rw (sym keyed, e) refl
plain_owner q key (inr (inr h)) keyed = absurd (not_in h)

job_refers :
    (r : TenantRow) (f : Reference)
    → In r job_rows
    → In f r.refers
    → (f.parent ≡ "work_item") × (r.tenant_id ≡ job_owner f.key)
unfolding job_owner
job_refers r f (inl e) at = elim (subst (λ (x : TenantRow). In f x.refers) e at) [
  | inl same ↦ (rw same refl, rw (e, same) refl)
  | inr h ↦ absurd (not_in h)
]
job_refers r f (inr (inl e)) at = elim (subst (λ (x : TenantRow). In f x.refers) e at) [
  | inl same ↦ (rw same refl, rw (e, same) refl)
  | inr h ↦ absurd (not_in h)
]
job_refers r f (inr (inr h)) at = absurd (not_in h)

database-Within : Within database
database-Within name r f q at listed there keyed =
    elim (Bool-cases (str_eq name "integration_job")) [
      | inl e ↦
          let (parent, owner) = job_refers r f (rw (e, if◌then◌else◌) at at) listed in
          let plain = subst (λ n. In q (database n)) parent there in
          plain_owner q f.key plain keyed ∙ sym owner
      | inr e ↦ absurd (plain_refers r f (rw (e, if◌then◌else◌) at at) listed)
    ]

jobs_anchored :
    (r : TenantRow)
    → In r job_rows
    → (f : Reference) × (q : TenantRow) × In f r.refers
      × (f.parent ≡ "work_item")
      × In q plain_rows
      × (q.row_id ≡ f.key)
jobs_anchored r (inl e) = (
  item_reference 1,
  record { tenant_id = 11; row_id = 1; refers = [] },
  rw e (inl refl),
  refl,
  inl refl,
  refl,
)
jobs_anchored r (inr (inl e)) = (
  item_reference 2,
  record { tenant_id = 99; row_id = 2; refers = [] },
  rw e (inl refl),
  refl,
  inr (inl refl),
  refl,
)
jobs_anchored r (inr (inr h)) = absurd (not_in h)

erase_tenant_erases_example :
    (e : Erasing) × (erase_tenant tenant database ≡ some e)
    × ((name : String) (r : TenantRow) → In r (e.database name) → In r (database name))
    × ((name : String) (r : TenantRow)
        → In r (database name)
        → is_owned tenant r ≡ false
        → In r (e.database name))
    × ((name : String) (r : TenantRow)
        → any (str_eq name) ("integration_job" ∷ erasure_order) ≡ true
        → In r (e.database name)
        → r.tenant_id ≢ tenant.tenant_id.value)
erase_tenant_erases_example = erase_tenant_erases tenant database database-Within jobs_anchored

-- The audit trail stays, and the jobs of the organisation go with its work items.
left_in : Option Erasing → String → List TenantRow
left_in none name = []
left_in (some e) name = e.database name

audit_stays : left_in (erase_tenant tenant database) "audit_event" ≡ plain_rows
unfolding left_in erase_tenant
audit_stays = refl

jobs_of_other_stay :
    left_in (erase_tenant tenant database) "integration_job"
    ≡ record { tenant_id = 99; row_id = 2; refers = item_reference 2 ∷ [] } ∷ []
unfolding left_in erase_tenant
jobs_of_other_stay = refl
