-- ===== src/Api/Problems/Relabelled.antt =====
-- What the relabelling of problem responses leaves: ragcore/src/ragcore/api/openapi.py.
use itsm_poc.Common.{
  true, false, not, ◌&&◌, String, str_eq, Option, none, some, if◌then◌else◌, ◌≡◌, refl, sym, ap,
  subst, arith, Bool-cases, inl, inr,
}
use itsm_poc.Domain.Records.{
  Json, json_none, json_bool, json_int, json_str, json_list, json_object, JsonObject, no_members,
  member,
}
use itsm_poc.Api.Components.{schema_named}
use itsm_poc.Api.Problems.{
  default_media_type, problem_media_type, is_problem, has_member, without_member, with_member,
  relabel_entry, relabel_content, inside, at_member, each_member, relabel_response,
  relabel_operation, relabel_item, relabel_problem_media_type,
}

-- No problem stands under the default media type alone.
abbrev pub IsPublished : JsonObject → Type 0
IsPublished content =
    is_problem (schema_named default_media_type content)
      && not (has_member problem_media_type content)
    ≡ false

module _ (P : JsonObject → Type 0) where
  abbrev pub Inside : Json → Type 0
  Inside (json_object fields) = P fields
  Inside _ = Unit

  pub inside-Inside :
      (f : JsonObject → JsonObject)
      → ((o : JsonObject) → P (f o))
      → (v : Json) → Inside (inside f v)
  unfolding inside
  inside-Inside f h (json_object fields) = h fields
  inside-Inside f h _ = tt

module _ (Q : Json → Type 0) where
  abbrev pub AtMember : String → JsonObject → Type 0
  AtMember name no_members = Unit
  AtMember name (member key value rest) = (str_eq key name ≡ true → Q value) × AtMember name rest

  abbrev pub EachMember : JsonObject → Type 0
  EachMember no_members = Unit
  EachMember (member key value rest) = Q value × EachMember rest

  at_member-AtMember :
      (name : String) (f : Json → Json)
      → ((v : Json) → Q (f v))
      → (o : JsonObject) → AtMember name (at_member name f o)
  unfolding at_member
  at_member-AtMember name f h no_members = tt
  at_member-AtMember name f h (member key value rest) = (
    (λ same. subst (λ b. Q (if b then f value else value)) (sym same) (h value)),
    at_member-AtMember name f h rest,
  )

  each_member-EachMember :
      (f : Json → Json) → ((v : Json) → Q (f v)) → (o : JsonObject) → EachMember (each_member f o)
  unfolding each_member
  each_member-EachMember f h no_members = tt
  each_member-EachMember f h (member key value rest) = (h value, each_member-EachMember f h rest)

-- A change that is made once and for all.
abbrev Settles {ℓ} : {A : Type ℓ} → (A → A) → Type ℓ
Settles {A = A} f = (a : A) → f (f a) ≡ f a

inside-Settles : (f : JsonObject → JsonObject) → Settles f → Settles (inside f)
unfolding inside
inside-Settles f h (json_object fields) = ap json_object (h fields)
inside-Settles f h json_none = refl
inside-Settles f h (json_bool b) = refl
inside-Settles f h (json_int n) = refl
inside-Settles f h (json_str s) = refl
inside-Settles f h (json_list l) = refl

at_member-Settles : (name : String) (f : Json → Json) → Settles f → Settles (at_member name f)
unfolding at_member
at_member-Settles name f h no_members = refl
at_member-Settles name f h (member key value rest) =
    let later = at_member-Settles name f h rest in
    elim (Bool-cases (str_eq key name)) [
      | inl e ↦ rw (e, if◌then◌else◌, h value, later) refl
      | inr e ↦ rw (e, if◌then◌else◌, later) refl
    ]

each_member-Settles : (f : Json → Json) → Settles f → Settles (each_member f)
unfolding each_member
each_member-Settles f h no_members = refl
each_member-Settles f h (member key value rest) = rw (h value, each_member-Settles f h rest) refl

removed :
    (content : JsonObject) (entry : Json)
    → schema_named default_media_type
        (with_member problem_media_type entry (without_member default_media_type content))
      ≡ none
unfolding schema_named with_member without_member
removed no_members entry = refl
removed (member key value rest) entry = let later = removed rest entry in ground arith

relabel_entry-IsPublished :
    (o : Option Json) (content : JsonObject)
    → schema_named default_media_type content ≡ o
    → IsPublished (relabel_entry o content)
unfolding relabel_entry is_problem
relabel_entry-IsPublished none content e = rw e refl
relabel_entry-IsPublished (some entry) content e =
    elim (Bool-cases (is_problem (some entry) && not (has_member problem_media_type content))) [
      | inl move ↦ rw (move, if◌then◌else◌, removed content entry) refl
      | inr stay ↦ rw (stay, if◌then◌else◌, e) stay
    ]

relabel_content-IsPublished : (content : JsonObject) → IsPublished (relabel_content content)
unfolding relabel_content
relabel_content-IsPublished content = relabel_entry-IsPublished _ content refl

published_stays :
    (o : Option Json) (content : JsonObject)
    → schema_named default_media_type content ≡ o
    → IsPublished content
    → relabel_entry o content ≡ content
unfolding relabel_entry
published_stays none content e published = refl
published_stays (some entry) content e published =
    let stay : is_problem (some entry) && not (has_member problem_media_type content) ≡ false =
      subst (λ o. is_problem o && not (has_member problem_media_type content) ≡ false) e
        published in
    rw (stay, if◌then◌else◌) refl

relabel_content-Settles : Settles relabel_content
unfolding relabel_content
relabel_content-Settles content =
    published_stays _ (relabel_content content) refl (relabel_content-IsPublished content)

-- What holds of the content of a response, of the responses of an operation, of the operations of a path, and of
-- the paths of a document.
abbrev pub OfResponse : (JsonObject → Type 0) → Json → Type 0
OfResponse P = Inside (AtMember (Inside P) "content")

abbrev pub OfOperation : (JsonObject → Type 0) → Json → Type 0
OfOperation P = Inside (AtMember (Inside (EachMember (OfResponse P))) "responses")

abbrev pub OfItem : (JsonObject → Type 0) → Json → Type 0
OfItem P = Inside (EachMember (OfOperation P))

abbrev pub EachContent : (JsonObject → Type 0) → JsonObject → Type 0
EachContent P = AtMember (Inside (EachMember (OfItem P))) "paths"

response-IsPublished : (v : Json) → OfResponse IsPublished (relabel_response v)
unfolding relabel_response
response-IsPublished = inside-Inside _ _ (
    at_member-AtMember (Inside IsPublished) "content" (inside relabel_content)
      (inside-Inside IsPublished relabel_content relabel_content-IsPublished))

operation-IsPublished : (v : Json) → OfOperation IsPublished (relabel_operation v)
unfolding relabel_operation
operation-IsPublished = inside-Inside _ _ (
    at_member-AtMember (Inside (EachMember (OfResponse IsPublished))) "responses" _ (
      inside-Inside _ _
        (each_member-EachMember (OfResponse IsPublished) relabel_response response-IsPublished)))

item-IsPublished : (v : Json) → OfItem IsPublished (relabel_item v)
unfolding relabel_item
item-IsPublished =
    inside-Inside _ _
      (each_member-EachMember (OfOperation IsPublished) relabel_operation operation-IsPublished)

response-Settles : Settles relabel_response
unfolding relabel_response
response-Settles =
    inside-Settles _
      (at_member-Settles "content" _ (inside-Settles relabel_content relabel_content-Settles))

operation-Settles : Settles relabel_operation
unfolding relabel_operation
operation-Settles = inside-Settles _ (
    at_member-Settles "responses" _
      (inside-Settles _ (each_member-Settles relabel_response response-Settles)))

item-Settles : Settles relabel_item
unfolding relabel_item
item-Settles = inside-Settles _ (each_member-Settles relabel_operation operation-Settles)

-- After a relabelling no response of the document has a problem under the default media type alone, and another
-- relabelling changes nothing.
pub relabel_publishes :
    (document : JsonObject)
    → EachContent IsPublished (relabel_problem_media_type document)
      × (relabel_problem_media_type (relabel_problem_media_type document)
          ≡ relabel_problem_media_type document)
unfolding relabel_problem_media_type
relabel_publishes document = (
  at_member-AtMember (Inside (EachMember (OfItem IsPublished))) "paths" _
      (inside-Inside _ _
        (each_member-EachMember (OfItem IsPublished) relabel_item item-IsPublished))
      document,
  at_member-Settles "paths" _ (inside-Settles _ (each_member-Settles relabel_item item-Settles))
      document,
)
