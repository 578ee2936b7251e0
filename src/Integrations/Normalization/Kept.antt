-- ===== src/Integrations/Normalization/Kept.antt =====
-- Which fields of an answer are kept: integrations/src/integrations/execution/normalization.py.
use itsm_poc.Common.{
  ◌≤◌, Bool, true, false, not, String, str_eq, Option, none, some, ok, if◌then◌else◌, ◌≡◌, refl, ap,
  sym, ◌∙◌, arith, Bool-cases, inl, inr, str_eq_iff, ok-injective, >>=-eq-ok,
}
use itsm_poc.Domain.Records.{JsonObject, no_members, member}
use itsm_poc.Integrations.Normalization.{
  Provider, NormalizedResult, keep_fields, value_of, first_reference, reference_keys, is_case_field,
  normalize_case_result, normalize_tool_result, within_boundary, case_result, max_payload_bytes,
}

value_of-keep_fields :
    (keeps : String → Bool) (name : String) (o : JsonObject)
    → value_of name (keep_fields keeps o) ≡ (if keeps name then value_of name o else none)
unfolding value_of keep_fields
value_of-keep_fields keeps name no_members = ground arith
value_of-keep_fields keeps name (member key value rest) =
    let later = value_of-keep_fields keeps name rest in
    elim (Bool-cases (str_eq key name)) [
      | inl e ↦
          let same : keeps key ≡ keeps name = ap keeps ((str_eq_iff key name).0 e) in ground arith
      | inr e ↦ ground arith
    ]

if_not {ℓ} : {A : Type ℓ} (b : Bool) (x y : A) → (if not b then x else y) ≡ (if b then y else x)
if_not true x y = refl
if_not false x y = refl

case_result_lem :
    (o : Option String) (payload : JsonObject) {out : NormalizedResult}
    → case_result o payload ≡ ok out
    → (out.payload ≡ payload)
      × (out.external_reference ≡ o)
      × ((reference : String) × (out.external_reference ≡ some reference))
unfolding case_result
case_result_lem none payload h = cc
case_result_lem (some reference) payload h =
    let made = ok-injective h in
    (
      ap (λ (r : NormalizedResult). r.payload) (sym made),
      ap (λ (r : NormalizedResult). r.external_reference) (sym made),
      (reference, ap (λ (r : NormalizedResult). r.external_reference) (sym made)),
    )

module _ (p : Provider) where
  within_lem :
      (raw : JsonObject) {body : JsonObject}
      → within_boundary p raw ≡ ok body
      → (p.size raw ≤ max_payload_bytes) × (body ≡ raw)
  unfolding within_boundary
  within_lem raw h = ground arith

  -- A tool's answer that comes inward is within the bound. A field whose key is forbidden has no value in
  -- it, and every other field has the value that the provider gave. Its reference is looked for among
  -- what was kept.
  pub tool_result_keeps :
      (raw : JsonObject) {out : NormalizedResult} (name : String)
      → normalize_tool_result p raw ≡ ok out
      → (p.size raw ≤ max_payload_bytes)
        × (value_of name out.payload
            ≡ (if p.is_forbidden_key name then none else value_of name raw))
        × (out.external_reference ≡ first_reference p (reference_keys p) out.payload)
  unfolding normalize_tool_result
  tool_result_keeps raw {out} name ran =
      let (body, bounded, made) = >>=-eq-ok (within_boundary p raw) _ ran in
      let (small, whole) = within_lem raw bounded in
      let keeps : String → Bool = λ key. not (p.is_forbidden_key key) in
      let payload_is : out.payload ≡ keep_fields keeps raw =
        ap (λ (r : NormalizedResult). r.payload) (sym (ok-injective made))
        ∙ ap (keep_fields keeps) whole in
      (
        small,
        ap (value_of name) payload_is
            ∙ value_of-keep_fields keeps name raw
            ∙ if_not (p.is_forbidden_key name) (value_of name raw) none,
        ap (λ (r : NormalizedResult). r.external_reference) (sym (ok-injective made))
            ∙ ap (λ o. first_reference p (reference_keys p) (keep_fields keeps o)) whole
            ∙ ap (first_reference p (reference_keys p)) (sym payload_is),
      )

  -- A case's answer that comes inward is within the bound and has a reference. It has the values of the
  -- five fields of a case, and none of any other field.
  pub case_result_keeps :
      (raw : JsonObject) {out : NormalizedResult} (name : String)
      → normalize_case_result p raw ≡ ok out
      → (p.size raw ≤ max_payload_bytes)
        × (value_of name out.payload ≡ (if is_case_field p name then value_of name raw else none))
        × (out.external_reference ≡ first_reference p (reference_keys p) out.payload)
        × ((reference : String) × (out.external_reference ≡ some reference))
  unfolding normalize_case_result
  case_result_keeps raw {out} name ran =
      let (body, bounded, made) = >>=-eq-ok (within_boundary p raw) _ ran in
      let (small, whole) = within_lem raw bounded in
      let keeps = is_case_field p in
      let found = first_reference p (reference_keys p) (keep_fields keeps body) in
      let (payload_was, reference_is, some_reference) =
        case_result_lem found (keep_fields keeps body) {out = out} made in
      let payload_is = payload_was ∙ ap (keep_fields keeps) whole in
      (
        small,
        ap (value_of name) payload_is ∙ value_of-keep_fields keeps name raw,
        reference_is ∙ ap (first_reference p (reference_keys p)) (sym payload_was),
        some_reference,
      )
