-- ===== src/Contracts/Compare.antt =====
-- The comparison of two documents: `compare` of build/scripts/openapi_diff.py. A finding is what its text
-- names; the texts themselves are rendered from it.
pub mod Compatible
use itsm_poc.Common.{
  Bool, true, false, not, ◌&&◌, List, [], ◌∷◌, ◌++◌, map, any, select, sort_by, Option, none, some,
  String, str_eq, if◌then◌else◌,
}
use itsm_poc.Domain.Records.{
  Json, json_object, JsonObject, no_members, JsonList, no_items, item, member,
}
use itsm_poc.Contracts.Documents.{
  DocumentText, OperationKey, same_key, Operation, operations, operation_at, at_key, object_at,
  object_or_none, items_or_none, keys, is_true, request_schema, response_schema, required, resolved,
  type_of, enum_of,
}

pub data Finding : Type 0 where
  operation_removed operation_added : OperationKey → Finding
  response_removed response_added : (code : String) → OperationKey → Finding
  field_now_required optional_field_added request_field_removed request_type_changed :
      (field : String) → OperationKey → Finding
  enum_value_removed : (field : String) → List String → OperationKey → Finding
  response_field_removed response_field_added response_type_changed :
      (field code : String) → OperationKey → Finding
  parameter_removed required_parameter_added optional_parameter_added parameter_now_required :
      (parameter : String) → OperationKey → Finding

pub record Comparison : Type 0 where
  pub breaking : List Finding
  pub additive : List Finding

abbrev pub is_in : List String → String → Bool
is_in ys x = any (str_eq x) ys

-- The difference and the intersection of two sets of texts.
abbrev pub minus : List String → List String → List String
minus xs ys = select (λ x. not (is_in ys x)) xs

abbrev pub common : List String → List String → List String
common xs ys = select (is_in ys) xs

abbrev pub has_operation : List Operation → OperationKey → Bool
has_operation ops key = any (λ (o : Operation). same_key o.key key) ops

abbrev pub flat_map {ℓ κ} : {A : Type ℓ} {B : Type κ} → (A → List B) → List A → List B
flat_map f [] = []
flat_map f (x ∷ xs) = f x ++ flat_map f xs

-- The mapping of parameters by their place and name.
pub record Parameter : Type 0 where
  pub key : String
  pub is_required : Bool

unfoldable pub put_parameter : Parameter → List Parameter → List Parameter
put_parameter p [] = p ∷ []
put_parameter p (x ∷ found) =
    let rest = put_parameter p found in if str_eq x.key p.key then p ∷ found else x ∷ rest

unfoldable pub requires : List Parameter → String → Bool
requires [] key = false
requires (x ∷ found) key = if str_eq x.key key then x.is_required else requires found key

abbrev pub parameter_keys : List Parameter → List String
parameter_keys found = map (λ (p : Parameter). p.key) found

module _ (t : DocumentText) where
  open t use {before, parameter_key}

  unfoldable pub sorted : List String → List String
  sorted names = sort_by before names

  key_before : Operation → Operation → Bool
  key_before a b =
      if str_eq a.key.path b.key.path
      then before a.key.method b.key.method
      else before a.key.path b.key.path

  unfoldable pub sorted_keys : List Operation → List OperationKey
  unfolding key_before
  sorted_keys ops = map (λ (o : Operation). o.key) (sort_by key_before ops)

  unfoldable pub indexed_from : JsonList → List Parameter → List Parameter
  unfolding put_parameter is_true at_key
  indexed_from no_items found = found
  indexed_from (item (json_object p) rest) found = indexed_from rest (
      put_parameter
        (record {
          key = parameter_key (at_key "in" p) (at_key "name" p);
          is_required = is_true (at_key "required" p);
        })
        found)
  indexed_from (item _ rest) found = indexed_from rest found

  unfoldable pub indexed : JsonObject → List Parameter
  unfolding indexed_from items_or_none at_key
  indexed operation = indexed_from (items_or_none (at_key "parameters" operation)) []

  -- The type of a property of a schema of a document.
  unfoldable pub property_type : JsonObject → (properties : JsonObject) → String → String
  unfolding type_of resolved object_at
  property_type document properties field =
      type_of t (resolved t document (object_at field properties))

  unfoldable pub field_findings :
      (type_changed : Finding) → (old_type new_type : String) → List Finding
  field_findings type_changed old_type new_type =
      if str_eq old_type new_type then [] else type_changed ∷ []

  unfoldable pub enum_findings :
      (field : String) → OperationKey → (removed : List String) → List Finding
  enum_findings field where_ [] = []
  enum_findings field where_ (value ∷ removed) =
      enum_value_removed field (value ∷ removed) where_ ∷ []

  module _ (baseline current : JsonObject) (where_ : OperationKey) where
    unfoldable pub compare_request : JsonObject → JsonObject → Comparison
    unfolding request_schema required sorted keys property_type field_findings enum_of enum_findings
    compare_request old new =
        let old_schema = request_schema t baseline old in
        let new_schema = request_schema t current new in
        let old_required = required t old_schema in
        let new_required = required t new_schema in
        let old_props = object_at "properties" old_schema in
        let new_props = object_at "properties" new_schema in
        record {
          breaking =
              map (λ field. field_now_required field where_)
                (sorted (minus new_required old_required))
              ++ (map (λ field. request_field_removed field where_)
                    (sorted (minus (keys old_props) (keys new_props)))
                  ++ flat_map
                      (λ field.
                        field_findings (request_type_changed field where_)
                          (property_type baseline old_props field)
                          (property_type current new_props field)
                        ++ enum_findings field where_ (
                            sorted (
                              minus (enum_of t (object_at field old_props))
                                (enum_of t (object_at field new_props)))))
                      (sorted (common (keys old_props) (keys new_props))));
          additive =
              map (λ field. optional_field_added field where_)
                (sorted (minus (minus (keys new_props) (keys old_props)) new_required));
        }

    unfoldable pub compare_response : JsonObject → JsonObject → (code : String) → Comparison
    unfolding response_schema sorted keys property_type field_findings
    compare_response old new code =
        let old_props = object_at "properties" (response_schema t baseline old code) in
        let new_props = object_at "properties" (response_schema t current new code) in
        record {
          breaking =
              map (λ field. response_field_removed field code where_)
                (sorted (minus (keys old_props) (keys new_props)))
              ++ flat_map
                  (λ field.
                    field_findings (response_type_changed field code where_)
                      (property_type baseline old_props field)
                      (property_type current new_props field))
                  (sorted (common (keys old_props) (keys new_props)));
          additive =
              map (λ field. response_field_added field code where_)
                (sorted (minus (keys new_props) (keys old_props)));
        }

    unfoldable pub compare_parameters : JsonObject → JsonObject → Comparison
    unfolding indexed requires sorted
    compare_parameters old new =
        let olds = indexed old in
        let news = indexed new in
        let added = sorted (minus (parameter_keys news) (parameter_keys olds)) in
        record {
          breaking =
              map (λ key. parameter_removed key where_)
                (sorted (minus (parameter_keys olds) (parameter_keys news)))
              ++ (map (λ key. required_parameter_added key where_) (select (requires news) added)
                  ++ map (λ key. parameter_now_required key where_)
                      (select (λ key. requires news key && not (requires olds key))
                        (sorted (common (parameter_keys olds) (parameter_keys news)))));
          additive =
              map (λ key. optional_parameter_added key where_)
                (select (λ key. not (requires news key)) added);
        }

    unfoldable pub compare_operation : JsonObject → JsonObject → Comparison
    unfolding compare_request compare_response compare_parameters sorted keys object_at
    compare_operation old new =
        let old_codes = keys (object_at "responses" old) in
        let new_codes = keys (object_at "responses" new) in
        let request = compare_request old new in
        let codes = sorted (common old_codes new_codes) in
        let parameters = compare_parameters old new in
        record {
          breaking =
              map (λ code. response_removed code where_) (sorted (minus old_codes new_codes))
              ++ (request.breaking
                  ++ (flat_map (λ code. (compare_response old new code).breaking) codes
                      ++ parameters.breaking));
          additive =
              map (λ code. response_added code where_) (sorted (minus new_codes old_codes))
              ++ (request.additive
                  ++ (flat_map (λ code. (compare_response old new code).additive) codes
                      ++ parameters.additive));
        }

  unfoldable pub compare : (baseline current : JsonObject) → Comparison
  unfolding operations operation_at sorted_keys compare_operation
  compare baseline current =
      let old_ops = operations t baseline in
      let new_ops = operations t current in
      let kept = select (has_operation new_ops) (sorted_keys old_ops) in
      let compared : OperationKey → Comparison = λ key.
        compare_operation baseline current key (operation_at key old_ops)
          (operation_at key new_ops) in
      record {
        breaking =
            map operation_removed
              (select (λ key. not (has_operation new_ops key)) (sorted_keys old_ops))
            ++ flat_map (λ key. (compared key).breaking) kept;
        additive =
            map operation_added
              (select (λ key. not (has_operation old_ops key)) (sorted_keys new_ops))
            ++ flat_map (λ key. (compared key).additive) kept;
      }
