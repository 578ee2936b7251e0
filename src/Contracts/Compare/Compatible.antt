-- ===== src/Contracts/Compare/Compatible.antt =====
-- What a comparison without breaking findings promises a client: build/scripts/openapi_diff.py.
use itsm_poc.Common.{
  Bool, true, false, not, ◌&&◌, List, [], ◌∷◌, select, String, str_eq, ◌≡◌, refl, arith, All,
  All-weaken, append_none, select_nothing, map_none, sort_by_none, All_sorted, Bool-cases, inl, inr,
  str_eq_iff,
}
use itsm_poc.Domain.Records.{JsonObject}
use itsm_poc.Contracts.Documents.{
  DocumentText, OperationKey, operations, operation_at, object_at, keys, request_schema,
  response_schema, required,
}
use itsm_poc.Contracts.Compare.{
  Finding, is_in, minus, common, has_operation, flat_map, requires, parameter_keys, sorted,
  sorted_keys, indexed, property_type, field_findings, compare_request, compare_response,
  compare_parameters, compare_operation, compare,
}

flat_none {ℓ κ} :
    {A : Type ℓ} {B : Type κ} (f : A → List B) (xs : List A)
    → flat_map f xs ≡ []
    → All (λ x. f x ≡ []) xs
flat_none f [] h = tt
flat_none f (x ∷ xs) h =
    let (here, rest) = append_none (f x) (flat_map f xs) h in (here, flat_none f xs rest)

was_true : (b : Bool) → not b ≡ false → b ≡ true
was_true true h = refl
was_true false h = cc

module _ (t : DocumentText) where
  -- Every name of the first list is in the second.
  abbrev pub Within : List String → List String → Type 0
  Within xs ys = All (λ x. is_in ys x ≡ true) xs

  minus_none : (xs ys : List String) → sorted t (minus xs ys) ≡ [] → Within xs ys
  unfolding sorted
  minus_none xs ys h =
      All-weaken (λ x. not (is_in ys x) ≡ false) (λ x. is_in ys x ≡ true)
        (λ x away. was_true (is_in ys x) away) xs
        (select_nothing (λ x. not (is_in ys x)) xs (sort_by_none t.before (minus xs ys) h))

  unsorted {κ} : (P : String → Type κ) (xs : List String) → All P (sorted t xs) → All P xs
  unfolding sorted
  unsorted P xs h = All_sorted t.before P xs h

  same_type : (f : Finding) (old new : String) → field_findings t f old new ≡ [] → old ≡ new
  unfolding field_findings
  same_type f old new h = elim (Bool-cases (str_eq old new)) [
    | inl e ↦ (str_eq_iff old new).0 e
    | inr e ↦ ground arith
  ]

  module _ (baseline current : JsonObject) where
    -- What a client of the old operation sends is still accepted.
    pub record RequestKept (old new : JsonObject) : Type 0 where
      pub nothing_newly_required :
          Within
            (required t (request_schema t current new))
            (required t (request_schema t baseline old))
      pub fields_kept :
          Within
            (keys (object_at "properties" (request_schema t baseline old)))
            (keys (object_at "properties" (request_schema t current new)))
      pub types_kept :
          All
            (λ field.
              property_type t baseline
                (object_at "properties" (request_schema t baseline old))
                field
              ≡ property_type t current
                  (object_at "properties" (request_schema t current new))
                  field)
            (common
              (keys (object_at "properties" (request_schema t baseline old)))
              (keys (object_at "properties" (request_schema t current new))))

    -- What a client of the old operation reads of one response is still there.
    pub record ResponseKept (old new : JsonObject) (code : String) : Type 0 where
      pub fields_kept :
          Within
            (keys (object_at "properties" (response_schema t baseline old code)))
            (keys (object_at "properties" (response_schema t current new code)))
      pub types_kept :
          All
            (λ field.
              property_type t baseline
                (object_at "properties" (response_schema t baseline old code))
                field
              ≡ property_type t current
                  (object_at "properties" (response_schema t current new code))
                  field)
            (common
              (keys (object_at "properties" (response_schema t baseline old code)))
              (keys (object_at "properties" (response_schema t current new code))))

    request_kept :
        (where_ : OperationKey) (old new : JsonObject)
        → (compare_request t baseline current where_ old new).breaking ≡ []
        → RequestKept old new
    unfolding compare_request
    request_kept where_ old new h =
        let (now_required, h1) = append_none _ _ h in
        let (removed, changed) = append_none _ _ h1 in
        let old_props = object_at "properties" (request_schema t baseline old) in
        let new_props = object_at "properties" (request_schema t current new) in
        record {
          nothing_newly_required = minus_none _ _ (map_none _ _ now_required);
          fields_kept = minus_none _ _ (map_none _ _ removed);
          types_kept = unsorted _ _ (
              All-weaken _ _ (λ field none_found. same_type _ _ _ (append_none _ _ none_found).0) _
                (flat_none _ _ changed));
        }

    response_kept :
        (where_ : OperationKey) (old new : JsonObject) (code : String)
        → (compare_response t baseline current where_ old new code).breaking ≡ []
        → ResponseKept old new code
    unfolding compare_response
    response_kept where_ old new code h =
        let (removed, changed) = append_none _ _ h in
        record {
          fields_kept = minus_none _ _ (map_none _ _ removed);
          types_kept = unsorted _ _ (
              All-weaken _ _ (λ field none_found. same_type _ _ _ none_found) _
                (flat_none _ _ changed));
        }

    -- The parameters are still there, and none is required that was not.
    pub record ParametersKept (old new : JsonObject) : Type 0 where
      pub parameters_kept : Within (parameter_keys (indexed t old)) (parameter_keys (indexed t new))
      pub none_added :
          All
            (λ key. requires (indexed t new) key ≡ false)
            (minus (parameter_keys (indexed t new)) (parameter_keys (indexed t old)))
      pub none_tightened :
          All
            (λ key. requires (indexed t new) key && not (requires (indexed t old) key) ≡ false)
            (common (parameter_keys (indexed t old)) (parameter_keys (indexed t new)))

    parameters_kept :
        (where_ : OperationKey) (old new : JsonObject)
        → (compare_parameters t baseline current where_ old new).breaking ≡ []
        → ParametersKept old new
    unfolding compare_parameters
    parameters_kept where_ old new h =
        let (removed, h1) = append_none _ _ h in
        let (added, tightened) = append_none _ _ h1 in
        record {
          parameters_kept = minus_none _ _ (map_none _ _ removed);
          none_added = unsorted _ _ (select_nothing _ _ (map_none _ _ added));
          none_tightened = unsorted _ _ (select_nothing _ _ (map_none _ _ tightened));
        }

    -- What a client of the old operation relies on is in the new one.
    pub record OperationKept (old new : JsonObject) : Type 0 where
      pub codes_kept : Within (keys (object_at "responses" old)) (keys (object_at "responses" new))
      pub request : RequestKept old new
      pub responses :
          All
            (ResponseKept old new)
            (common (keys (object_at "responses" old)) (keys (object_at "responses" new)))
      pub parameters : ParametersKept old new

    operation_kept :
        (where_ : OperationKey) (old new : JsonObject)
        → (compare_operation t baseline current where_ old new).breaking ≡ []
        → OperationKept old new
    unfolding compare_operation
    operation_kept where_ old new h =
        let (codes, h1) = append_none _ _ h in
        let (of_request, h2) = append_none _ _ h1 in
        let (of_responses, of_parameters) = append_none _ _ h2 in
        record {
          codes_kept = minus_none _ _ (map_none _ _ codes);
          request = request_kept where_ old new of_request;
          responses = unsorted _ _ (
              All-weaken _ _ (λ code none_found. response_kept where_ old new code none_found) _
                (flat_none _ _ of_responses));
          parameters = parameters_kept where_ old new of_parameters;
        }

    -- The old operations that the new document has.
    abbrev pub kept_operations : List OperationKey
    kept_operations =
        select (has_operation (operations t current)) (sorted_keys t (operations t baseline))

    -- A comparison that finds nothing breaking found every operation of the old document in the new one, and
    -- in each of them every response code, every request field and response field with the type that it had,
    -- and every parameter; and it found no request field and no parameter that is required and was not.
    pub compare-Kept :
        (compare t baseline current).breaking ≡ []
        → All
            (λ key. has_operation (operations t current) key ≡ true)
            (sorted_keys t (operations t baseline))
          × All
              (λ key.
                OperationKept
                  (operation_at key (operations t baseline))
                  (operation_at key (operations t current)))
              kept_operations
    unfolding compare
    compare-Kept h =
        let (removed, changed) = append_none _ _ h in
        (
          All-weaken _ _ (λ key away. was_true _ away) _
              (select_nothing _ _ (map_none _ _ removed)),
          All-weaken _ _ (λ key none_found. operation_kept key _ _ none_found) _
              (flat_none _ _ changed),
        )
