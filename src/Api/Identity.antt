-- ===== src/Api/Identity.antt =====
-- The refusal of requests that assert an authority of their own: ragcore/src/ragcore/api/middleware/identity.py.
-- The methods of texts are the language's. The path of a request is not read.
pub mod Asserted
use itsm_poc.Common.{
  Bool, true, false, ◌||◌, List, [], ◌∷◌, any, String, str_eq, Option, none, some, if◌then◌else◌,
}

pub record HeaderText : Type 0 where
  pub lower : String → String
  pub without : (mark : String) → String → String
  pub without_prefix : (prefix : String) → String → String
  pub split : (mark : String) → String → List String
  -- What stands before the first mark, or the whole text.
  pub before_mark : (mark : String) → String → String

abbrev pub forbidden_client_fields : List String
forbidden_client_fields =
    "tenant" ∷ "tenantid" ∷ "tenant_id" ∷ "tenant-id" ∷ "organisation" ∷ "organization" ∷ "orgid"
    ∷ "org_id" ∷ "org-id" ∷ "role" ∷ "roles" ∷ "staffrole" ∷ "staff_role" ∷ "staff-role"
    ∷ "audience" ∷ "aud" ∷ "principal" ∷ "principalid" ∷ "principal_id" ∷ "oid" ∷ "actas" ∷ "act_as"
    ∷ "act-as" ∷ "onbehalfof" ∷ "on_behalf_of" ∷ "impersonate" ∷ []

pub record Scope : Type 0 where
  pub is_http : Bool
  pub path : String
  pub headers : List String
  pub query_string : String

module _ (t : HeaderText) (gateway_headers : List String) where
  open t use {lower, without, without_prefix, split, before_mark}

  unfoldable pub folded : String → String
  folded name = without "_" (without "-" (lower name))

  unfoldable pub is_forbidden : String → Bool
  unfolding folded
  is_forbidden name =
      any (str_eq (folded name)) forbidden_client_fields
      || any (str_eq (without_prefix "x" (folded name))) forbidden_client_fields

  unfoldable pub is_gateway_header : String → Bool
  is_gateway_header name = any (str_eq (lower name)) gateway_headers

  unfoldable pub asserted_parameter : List String → Option String
  unfolding is_forbidden
  asserted_parameter [] = none
  asserted_parameter (pair ∷ pairs) =
      let rest = asserted_parameter pairs in
      if str_eq pair ""
      then rest
      else if is_forbidden (before_mark "=" pair)
      then some (before_mark "=" pair)
      else rest

  -- The headers first, and then the parameters of the query.
  unfoldable pub asserted_in : List String → (query : String) → Option String
  unfolding is_forbidden is_gateway_header asserted_parameter
  asserted_in [] query = asserted_parameter (split "&" query)
  asserted_in (name ∷ names) query =
      let rest = asserted_in names query in
      if is_gateway_header name then rest else if is_forbidden name then some name else rest

  unfoldable pub self_asserted_field : Scope → Option String
  unfolding asserted_in
  self_asserted_field s = asserted_in s.headers s.query_string

  -- What the middleware does: hand the request to the application, or reject it for a field.
  pub data Handled : Type 0 where
    handed_on : Handled
    rejected_for : String → Handled

  unfoldable pub by_offender : Option String → Handled
  by_offender none = handed_on
  by_offender (some offender) = rejected_for offender

  unfoldable pub handle_scope : Scope → Handled
  unfolding self_asserted_field by_offender
  handle_scope s = if s.is_http then by_offender (self_asserted_field s) else handed_on
