-- ===== src/Api/Positions/Parts.antt =====
-- What a part of a document gives, the document gives: the loops of `authority_findings` of
-- ragcore/src/ragcore/api/openapi.py.
use itsm_poc.Common.{
  ◌+◌, Bool, true, false, List, [], ◌++◌, any, map, String, str_eq, str_eq_iff, Option, some,
  some_injective, if◌then◌else◌, length, ◌≡◌, ◌⊎◌, refl, sym, subst, arith, In, In-left, In-right,
  Bool-cases, inl, inr,
}
use itsm_poc.Domain.Records.{
  Json, json_object, JsonObject, no_members, member, JsonList, no_items, item,
}
use itsm_poc.Api.Components.{references, schema_named}
use itsm_poc.Api.Authority.{NamePolicy, join_frontier, weight, authority_in_request}
use itsm_poc.Api.Authority.Walks.{walk_ends}
use itsm_poc.Api.Positions.{
  Positions, PositionText, Channelled, parameter_channel, field_channel, http_methods, and_then,
  as_fields, text_at, is_asserting, on_parameters, on_body, on_operation, on_methods, on_paths,
}

abbrev pub InItems : Json → JsonList → Type 0
InItems v no_items = ⊥
InItems v (item w rest) = (v ≡ w) ⊎ InItems v rest

-- The walks of a part end.
unfoldable pub Ends : Option (List Channelled) → Type 0
Ends o = (found : List Channelled) × (o ≡ some found)

-- They end, and what they found has the channel in it.
unfoldable pub Gives : Channelled → Option (List Channelled) → Type 0
Gives c o = (found : List Channelled) × (o ≡ some found) × In c found

pub and_then-Ends : (a b : Option (List Channelled)) → Ends a → Ends b → Ends (and_then a b)
unfolding Ends and_then
and_then-Ends a b (xs, ea) (ys, eb) = (xs ++ ys, rw (ea, eb) refl)

pub if_Ends :
    (b : Bool) (x y : Option (List Channelled)) → Ends x → Ends y → Ends (if b then x else y)
if_Ends true x y h k = h
if_Ends false x y h k = k

pub Gives-left :
    (c : Channelled) (a b : Option (List Channelled)) → Gives c a → Ends b → Gives c (and_then a b)
unfolding Ends Gives and_then
Gives-left c a b (xs, ea, at) (ys, eb) = (xs ++ ys, rw (ea, eb) refl, In-left c xs ys at)

pub Gives-right :
    (c : Channelled) (a b : Option (List Channelled)) → Ends a → Gives c b → Gives c (and_then a b)
unfolding Ends Gives and_then
Gives-right c a b (xs, ea) (ys, eb, at) = (xs ++ ys, rw (ea, eb) refl, In-right c xs ys at)

module _ (t : PositionText) (policy : NamePolicy) (p : Positions) (audience : String) where
  pub on_parameters_reports :
      (path method : String) (parameter : JsonObject) (items : JsonList)
      → InItems (json_object parameter) items
      → is_asserting t policy p audience parameter ≡ true
      → In
          (parameter_channel
            (text_at t policy p "in" parameter)
            (text_at t policy p "name" parameter)
            method
            path)
          (on_parameters t policy p audience path method items)
  unfolding on_parameters
  on_parameters_reports path method parameter no_items at asserts = absurd at
  on_parameters_reports path method parameter (item value rest) (inl e) asserts =
      subst
        (λ v.
          In
            (parameter_channel (text_at t policy p "in" parameter)
              (text_at t policy p "name" parameter) method path)
            (on_parameters t policy p audience path method (item v rest)))
        e (rw (asserts, if◌then◌else◌) (inl refl))
  on_parameters_reports path method parameter (item (json_object other) rest) (inr at) asserts =
      let later = on_parameters_reports path method parameter rest at asserts in
      elim (Bool-cases (is_asserting t policy p audience other)) [
        | inl e ↦ rw (e, if◌then◌else◌) (inr later)
        | inr e ↦ rw (e, if◌then◌else◌) later
      ]
  on_parameters_reports path method parameter (item _ rest) (inr at) asserts =
      on_parameters_reports path method parameter rest at asserts

  module _ (schemas : JsonObject) where
    pub on_body-Ends : (body : Option Json) → Ends (on_body t policy p audience schemas body)
    unfolding Ends on_body as_fields authority_in_request
    on_body-Ends (some (json_object body)) =
        let frontier = join_frontier [] (references (json_object body)) [] in
        let (all, ended) =
          walk_ends policy schemas (length frontier + weight schemas []) frontier [] []
            (omega arith) in
        (map field_channel all, rw ended refl)
    on_body-Ends _ = ([], refl)

    on_operation-Ends :
        (path method : String) (operation : JsonObject)
        → Ends (on_operation t policy p audience schemas path method operation)
    unfolding on_operation Ends
    on_operation-Ends path method operation =
        and_then-Ends _ _ (if_Ends _ _ _ (_, refl) ([], refl))
          (if_Ends _ _ _ (on_body-Ends (schema_named "requestBody" operation)) ([], refl))

    on_methods-Ends :
        (path : String) (item_ : JsonObject)
        → Ends (on_methods t policy p audience schemas path item_)
    unfolding on_methods Ends
    on_methods-Ends path no_members = ([], refl)
    on_methods-Ends path (member method (json_object operation) rest) =
        let later = on_methods-Ends path rest in
        elim (Bool-cases (any (str_eq (t.lower method)) http_methods)) [
          | inl e ↦
              rw (e, if◌then◌else◌)
                (and_then-Ends _ _ (on_operation-Ends path method operation) later)
          | inr e ↦ rw (e, if◌then◌else◌) later
        ]
    on_methods-Ends path (member method _ rest) = on_methods-Ends path rest

    pub on_paths-Ends : (paths : JsonObject) → Ends (on_paths t policy p audience schemas paths)
    unfolding on_paths Ends
    on_paths-Ends no_members = ([], refl)
    on_paths-Ends (member path (json_object operations) rest) =
        and_then-Ends _ _ (on_methods-Ends path operations) (on_paths-Ends rest)
    on_paths-Ends (member path _ rest) = on_paths-Ends rest

    module _ (c : Channelled) where
      on_methods-later :
          (path method : String) (value : Json) (rest : JsonObject)
          → Gives c (on_methods t policy p audience schemas path rest)
          → Gives c (on_methods t policy p audience schemas path (member method value rest))
      unfolding on_methods Gives
      on_methods-later path method (json_object operation) rest gives =
          elim (Bool-cases (any (str_eq (t.lower method)) http_methods)) [
            | inl e ↦
                rw (e, if◌then◌else◌)
                  (Gives-right c _ _ (on_operation-Ends path method operation) gives)
            | inr e ↦ rw (e, if◌then◌else◌) gives
          ]
      on_methods-later path method _ rest gives = gives

      on_paths-later :
          (path : String) (value : Json) (rest : JsonObject)
          → Gives c (on_paths t policy p audience schemas rest)
          → Gives c (on_paths t policy p audience schemas (member path value rest))
      unfolding on_paths Gives
      on_paths-later path (json_object operations) rest gives =
          Gives-right c _ _ (on_methods-Ends path operations) gives
      on_paths-later path _ rest gives = gives

      -- What an operation gives, the path item that has it gives.
      pub on_methods-Gives :
          (path method : String) (operation item_ : JsonObject)
          → schema_named method item_ ≡ some (json_object operation)
          → any (str_eq (t.lower method)) http_methods ≡ true
          → Gives c (on_operation t policy p audience schemas path method operation)
          → Gives c (on_methods t policy p audience schemas path item_)
      unfolding on_methods schema_named Gives
      on_methods-Gives path method operation no_members named known gives = cc
      on_methods-Gives path method operation (member key value rest) named known gives =
          elim (Bool-cases (str_eq key method)) [
            | inl e ↦
                let same = (str_eq_iff key method).0 e in
                let this = some_injective (
                  subst
                    (λ b.
                      (if b then some value else schema_named method rest)
                      ≡ some (json_object operation))
                    e named) in
                subst
                  (λ k. Gives c (on_methods t policy p audience schemas path (member k value rest)))
                  (sym same)
                  (subst
                    (λ v.
                      Gives c (on_methods t policy p audience schemas path (member method v rest)))
                    (sym this)
                    (rw (known, if◌then◌else◌)
                      (Gives-left c _ _ gives (on_methods-Ends path rest))))
            | inr e ↦ on_methods-later path key value rest (
                on_methods-Gives path method operation rest
                  (subst
                    (λ b.
                      (if b then some value else schema_named method rest)
                      ≡ some (json_object operation))
                    e named)
                  known gives)
          ]

      -- What a path item gives, the paths that have it give.
      pub on_paths-Gives :
          (path : String) (operations paths : JsonObject)
          → schema_named path paths ≡ some (json_object operations)
          → Gives c (on_methods t policy p audience schemas path operations)
          → Gives c (on_paths t policy p audience schemas paths)
      unfolding on_paths schema_named Gives
      on_paths-Gives path operations no_members named gives = cc
      on_paths-Gives path operations (member key value rest) named gives =
          elim (Bool-cases (str_eq key path)) [
            | inl e ↦
                let same = (str_eq_iff key path).0 e in
                let this = some_injective (
                  subst
                    (λ b.
                      (if b then some value else schema_named path rest)
                      ≡ some (json_object operations))
                    e named) in
                subst (λ k. Gives c (on_paths t policy p audience schemas (member k value rest)))
                  (sym same)
                  (subst (λ v. Gives c (on_paths t policy p audience schemas (member path v rest)))
                    (sym this) (Gives-left c _ _ gives (on_paths-Ends rest)))
            | inr e ↦ on_paths-later key value rest (
                on_paths-Gives path operations rest
                  (subst
                    (λ b.
                      (if b then some value else schema_named path rest)
                      ≡ some (json_object operations))
                    e named)
                  gives)
          ]
