-- ===== src/Api/Disclosure.antt =====
-- The names that a published document must not carry: `_walk_names` and `disclosure_findings` of
-- ragcore/src/ragcore/api/openapi.py. The terms are those of build/policy/openapi-disclosure.json, which the
-- module reads. A place in a document is the steps that its text names.
pub mod Clean
use itsm_poc.Common.{
  ℕ, suc, Bool, true, false, List, [], ◌∷◌, ◌++◌, any, map, String, str_eq, Option, none, some,
  if◌then◌else◌, sort_by,
}
use itsm_poc.Domain.Records.{
  Json, json_list, json_object, JsonObject, no_members, member, JsonList, no_items, item,
}

pub data Step : Type 0 where
  at_name : (key : String) → Step
  at_index : (index : ℕ) → Step

pub record Named : Type 0 where
  pub place : List Step
  pub name : String

pub data Disclosed : Type 0 where
  secret_name internal_name : Named → Disclosed

-- `_normalise`, the test for a part of a text, the text of a finding and the order of texts.
pub record DisclosureText : Type 0 where
  pub normalise : String → String
  pub contains : (text term : String) → Bool
  pub finding_text : Disclosed → String
  pub is_before : String → String → Bool

pub record DisclosurePolicy : Type 0 where
  pub secrets : List String
  pub internals : List String
  pub structural : List String

unfoldable mutual
  pub walk_names : (place : List Step) → Json → List Named
  walk_names place (json_object fields) = walk_members place fields
  walk_names place (json_list items) = walk_items place 0 items
  walk_names place _ = []

  walk_members : (place : List Step) → JsonObject → List Named
  walk_members place no_members = []
  walk_members place (member key value rest) =
      record { place = place ++ (at_name key ∷ []); name = key }
      ∷ (walk_names (place ++ (at_name key ∷ [])) value ++ walk_members place rest)

  walk_items : (place : List Step) → (index : ℕ) → JsonList → List Named
  walk_items place index no_items = []
  walk_items place index (item value rest) =
      walk_names (place ++ (at_index index ∷ [])) value ++ walk_items place (suc index) rest

-- `set`, of texts.
unfoldable pub distinct : List String → List String
distinct [] = []
distinct (text ∷ texts) =
    let rest = distinct texts in if any (str_eq text) rest then rest else text ∷ rest

module _ (t : DisclosureText) (p : DisclosurePolicy) where
  open t use {normalise, contains, finding_text, is_before}
  open p use {secrets, internals, structural}

  unfoldable pub disclosed : Named → Option Disclosed
  disclosed n =
      if any (str_eq n.name) structural
      then none
      else if any (contains (normalise n.name)) secrets
      then some (secret_name n)
      else if any (str_eq (normalise n.name)) internals
      then some (internal_name n)
      else none

  unfoldable pub add_disclosed : Option Disclosed → List Disclosed → List Disclosed
  add_disclosed none found = found
  add_disclosed (some d) found = d ∷ found

  unfoldable pub all_disclosed : List Named → List Disclosed
  unfolding disclosed add_disclosed
  all_disclosed [] = []
  all_disclosed (n ∷ names) = add_disclosed (disclosed n) (all_disclosed names)

  unfoldable pub disclosure_findings : (document : JsonObject) → List String
  unfolding distinct all_disclosed
  disclosure_findings document =
      sort_by is_before
        (distinct (map finding_text (all_disclosed (walk_names [] (json_object document)))))
