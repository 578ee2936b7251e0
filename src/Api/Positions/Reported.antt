-- ===== src/Api/Positions/Reported.antt =====
-- Every way to assert authority that a document offers is reported: `authority_findings` of
-- ragcore/src/ragcore/api/openapi.py.
use itsm_poc.Common.{
  counted-In, any-matching, matching-any, not_in, or_true, some_injective, ◌∙◌, ◌&&◌, In-counted,
  true, false, List, [], ◌∷◌, any, map, String, str_eq, str_eq_iff, Option, some, if◌then◌else◌,
  sort_by, matching, matching-sort_by, ◌≡◌, ◌≤◌, refl, sym, subst, arith, In, In-map, Bool-cases,
  inl, inr,
}
use itsm_poc.Domain.Records.{Json, json_object, JsonObject, no_members, member}
use itsm_poc.Api.Components.{schema_named, is_wanted}
use itsm_poc.Api.Components.Reach.{Reachable}
use itsm_poc.Api.Authority.{NamePolicy, dict_or_none, authority_fields, properties_of}
use itsm_poc.Api.Authority.Channels.{channel_reported}
use itsm_poc.Api.Disclosure.{distinct}
use itsm_poc.Api.Positions.{
  NameException, Positions, PositionText, Channelled, parameter_channel, field_channel,
  http_methods, list_or_none, schemas_of, as_fields, text_at, is_permitted, is_asserting, on_body,
  on_operation, on_paths, finding_texts, authority_findings,
}
use itsm_poc.Api.Positions.Parts.{
  InItems, Ends, Gives, if_Ends, Gives-left, Gives-right, on_parameters_reports, on_body-Ends,
  on_methods-Gives, on_paths-Gives, on_paths-Ends,
}

distinct_counts :
    (text : String) (texts : List String)
    → 1 ≤ matching (str_eq text) texts
    → 1 ≤ matching (str_eq text) (distinct texts)
unfolding distinct
distinct_counts text [] h = h
distinct_counts text (first ∷ texts) h =
    let rest = distinct_counts text texts in
    elim (Bool-cases (any (str_eq first) (distinct texts))) [
      | inl e ↦
          rw (e, if◌then◌else◌)
            (elim (Bool-cases (str_eq text first)) [
              | inl same ↦
                  subst (λ x. 1 ≤ matching (str_eq x) (distinct texts))
                    (sym ((str_eq_iff text first).0 same))
                    (any-matching (str_eq first) (distinct texts) e)
              | inr apart ↦ rest (ground arith)
            ])
      | inr e ↦ rw (e, if◌then◌else◌) (ground arith)
    ]

-- The properties of a schema: the fields of a mapping.
pub data HasField (field : String) : JsonObject → Type 0 where
  first_field : {v : Json} {rest : JsonObject} → HasField field (member field v rest)
  later_field :
      {other : String} {v : Json} {rest : JsonObject}
      → HasField field rest
      → HasField field (member other v rest)

In-any : (text : String) (texts : List String) → In text texts → any (str_eq text) texts ≡ true
In-any text texts h =
    matching-any (str_eq text) texts
      (counted-In (str_eq text) text texts ((str_eq_iff text text).1 refl) h)

any-In : (text : String) (texts : List String) → any (str_eq text) texts ≡ true → In text texts
any-In text texts h =
    In-counted (str_eq text) text texts (λ other same. (str_eq_iff text other).0 same)
      (any-matching (str_eq text) texts h)

In-is_wanted : (name : String) (names : List String) → In name names → is_wanted name names ≡ true
unfolding is_wanted
In-is_wanted name [] h = absurd (not_in h)
In-is_wanted name (x ∷ xs) (inl e) = let same = (str_eq_iff x name).1 (sym e) in rw same refl
In-is_wanted name (x ∷ xs) (inr h) = rw (In-is_wanted name xs h) (or_true _)

In-authority_fields :
    (policy : NamePolicy) (field : String) (fields : JsonObject)
    → HasField field fields
    → In (policy.normalise field) policy.names
    → In field (authority_fields policy fields)
unfolding authority_fields
In-authority_fields policy field no_members h named = elim h [ ]
In-authority_fields policy field (member _ v rest) first_field named =
    rw (In-is_wanted (policy.normalise field) policy.names named, if◌then◌else◌) (inl refl)
In-authority_fields policy field (member other v rest) (later_field h) named =
    let later = In-authority_fields policy field rest h named in
    elim (Bool-cases (is_wanted (policy.normalise other) policy.names)) [
      | inl e ↦ rw (e, if◌then◌else◌) (inr later)
      | inr e ↦ rw (e, if◌then◌else◌) later
    ]

module _ (t : PositionText) (policy : NamePolicy) (p : Positions) (audience : String) where
  finding_texts_holds :
      (c : Channelled) (o : Option (List Channelled))
      → Gives c o
      → (texts : List String) × (finding_texts t policy p audience o ≡ some texts)
        × In (t.finding_text c) texts
  unfolding finding_texts Gives
  finding_texts_holds c o (found, e, at) =
      let text = t.finding_text c in
      let texts = map t.finding_text found in
      let counted =
        counted-In (str_eq text) text texts ((str_eq_iff text text).1 refl)
          (In-map t.finding_text c found at) in
      let kept = distinct_counts text texts counted in
      let size = matching-sort_by t.is_before (str_eq text) (distinct texts) in
      (
        sort_by t.is_before (distinct texts),
        rw e refl,
        In-counted (str_eq text) text _ (λ other same. (str_eq_iff text other).0 same)
            (omega arith),
      )

  -- An exception of the policy for a name at a place, in the documents of the audience.
  pub record Excepted (name place : String) (e : NameException) : Type 0 where
    pub listed : In e p.exceptions
    pub same_name : policy.normalise e.name ≡ policy.normalise name
    pub same_place : e.place ≡ place
    pub for_audience : In audience e.audiences

  found_exception :
      (name place : String) (es : List NameException)
      → any
          (λ (e : NameException).
            str_eq (policy.normalise e.name) (policy.normalise name)
            && (str_eq e.place place && any (str_eq audience) e.audiences))
          es
        ≡ true
      → (e : NameException) × In e es
        × (policy.normalise e.name ≡ policy.normalise name)
        × (e.place ≡ place)
        × In audience e.audiences
  found_exception name place [] h = cc
  found_exception name place (x ∷ xs) h =
      elim (Bool-cases (
        str_eq (policy.normalise x.name) (policy.normalise name)
        && (str_eq x.place place && any (str_eq audience) x.audiences))) [
          | inl here ↦
              let named : str_eq (policy.normalise x.name) (policy.normalise name) ≡ true =
                ground arith in
              let placed : str_eq x.place place ≡ true = ground arith in
              let audited : any (str_eq audience) x.audiences ≡ true = ground arith in
              (
                x,
                inl refl,
                (str_eq_iff (policy.normalise x.name) (policy.normalise name)).0 named,
                (str_eq_iff x.place place).0 placed,
                any-In audience x.audiences audited,
              )
          | inr other ↦
              let (e, at, named, placed, audited) = found_exception name place xs (ground arith) in
              (e, inr at, named, placed, audited)
        ]

  unexcepted :
      (name place : String)
      → ((e : NameException) → ¬ Excepted name place e)
      → is_permitted t policy p audience name place ≡ false
  unfolding is_permitted
  unexcepted name place none = elim (Bool-cases (is_permitted t policy p audience name place)) [
    | inl permitted ↦
        let (e, at, named, placed, audited) = found_exception name place p.exceptions permitted in
        absurd (
          none e (record {
            listed = at;
            same_name = named;
            same_place = placed;
            for_audience = audited;
          }))
    | inr refused ↦ refused
  ]

  -- The ways in which a client could assert authority: a parameter of an operation that has a name of authority
  -- and no exception, and a property with such a name of a schema that an operation's body reaches.
  pub data Channel (document : JsonObject) : Channelled → Type 0 where
    as_parameter :
        (parameter : JsonObject) {path method : String} {operations operation : JsonObject}
        → schema_named path (dict_or_none (schema_named "paths" document))
          ≡ some (json_object operations)
        → schema_named method operations ≡ some (json_object operation)
        → In (t.lower method) http_methods
        → In "parameter" p.forbidden_in
        → InItems (json_object parameter) (list_or_none (schema_named "parameters" operation))
        → In (policy.normalise (text_at t policy p "name" parameter)) policy.names
        → ((e : NameException)
            → ¬ Excepted
                (text_at t policy p "name" parameter)
                (text_at t policy p "in" parameter)
                e)
        → Channel document (
            parameter_channel
              (text_at t policy p "in" parameter)
              (text_at t policy p "name" parameter)
              method
              path)
    as_field :
        (path method : String) {name field : String} {operations operation body : JsonObject}
        {schema : Json}
        → schema_named path (dict_or_none (schema_named "paths" document))
          ≡ some (json_object operations)
        → schema_named method operations ≡ some (json_object operation)
        → In (t.lower method) http_methods
        → In "requestBody" p.forbidden_in
        → schema_named "requestBody" operation ≡ some (json_object body)
        → Reachable (schemas_of document) (json_object body) name
        → schema_named name (schemas_of document) ≡ some schema
        → HasField field (properties_of schema)
        → In (policy.normalise field) policy.names
        → Channel document (field_channel (record { field = field; schema_name = name }))

  Channel-Gives :
      (document : JsonObject) (c : Channelled)
      → Channel document c
      → Gives c (
          on_paths t policy p audience
            (schemas_of document)
            (dict_or_none (schema_named "paths" document)))
  unfolding on_operation Gives is_asserting on_body as_fields Ends
  Channel-Gives document c
        (as_parameter parameter {path = path} {method = method} {operations = operations}
          {operation = operation} at_path at_method known forbidden listed named apart) =
      let schemas = schemas_of document in
      on_paths-Gives t policy p audience schemas c path operations _ at_path (
        on_methods-Gives t policy p audience schemas c path method operation operations at_method
          (In-any (t.lower method) http_methods known)
          (Gives-left c _ _
            (
              _,
              rw (In-any _ _ forbidden, if◌then◌else◌) refl,
              on_parameters_reports t policy p audience path method parameter _ listed
                  (rw (In-is_wanted _ _ named, unexcepted _ _ apart) refl),
            )
            (if_Ends _ _ _
              (on_body-Ends t policy p audience schemas (schema_named "requestBody" operation))
              ([], refl))))
  Channel-Gives document c
        (as_field path method {name = name} {field = field} {operations = operations}
          {operation = operation} {body = body} {schema = schema} at_path at_method known forbidden
          at_body reached named has offends) =
      let schemas = schemas_of document in
      let (all, ended, at) =
        channel_reported policy schemas (json_object body) name field schema reached named (
          In-is_wanted _ _ (In-authority_fields policy field (properties_of schema) has offends)) in
      on_paths-Gives t policy p audience schemas c path operations _ at_path (
        on_methods-Gives t policy p audience schemas c path method operation operations at_method
          (In-any (t.lower method) http_methods known)
          (Gives-right c _ _ (if_Ends _ _ _ (_, refl) ([], refl)) (
            map field_channel all,
            rw (In-any _ _ forbidden, if◌then◌else◌, at_body, ended) refl,
            In-map field_channel _ all at,
          )))

  -- For every document and audience the walks end, and of the findings that they give one names each way in which
  -- a client could assert authority: a parameter of an operation whose normalised name is one of authority and
  -- has no exception for its place and the audience, and a property with such a name of a schema that the body
  -- of an operation reaches through any number of references.
  pub channels_reported :
      (document : JsonObject)
      → (texts : List String) × (authority_findings t policy p audience document ≡ some texts)
        × ((c : Channelled) → Channel document c → In (t.finding_text c) texts)
  unfolding authority_findings finding_texts Ends
  channels_reported document =
      let paths = dict_or_none (schema_named "paths" document) in
      let (found, ended) = on_paths-Ends t policy p audience (schemas_of document) paths in
      let texts = sort_by t.is_before (distinct (map t.finding_text found)) in
      (
        texts,
        rw ended refl,
        λ c channel.
            let (given, same, at) = finding_texts_holds c _ (Channel-Gives document c channel) in
            let equal = some_injective (sym same ∙ rw ended refl) in
            subst (λ ts. In (t.finding_text c) ts) equal at,
      )
