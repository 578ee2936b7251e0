-- ===== src/Api/Disclosure/Clean.antt =====
-- A document without findings: ragcore/src/ragcore/api/openapi.py.
use itsm_poc.Common.{
  ℕ, true, false, List, [], ◌∷◌, ◌++◌, any, String, str_eq, none, some, if◌then◌else◌, ◌≡◌, ◌⊎◌,
  ◌↔◌, ◌∙◌, refl, sym, ap, subst, arith, All, All-append, sort_by_none, map_none, Bool-cases,
  Option-cases, inl, inr,
}
use itsm_poc.Domain.Records.{
  Json, json_list, json_object, JsonObject, no_members, member, JsonList, no_items, item,
}
use itsm_poc.Api.Disclosure.{
  Step, Named, DisclosureText, DisclosurePolicy, walk_names, walk_members, walk_items, distinct,
  disclosed, add_disclosed, all_disclosed, disclosure_findings,
}

-- A key at any depth of a document.
mutual
  pub data Occurs : String → Json → Type 0 where
    in_object :
        {name : String} {fields : JsonObject}
        → OccursIn name fields
        → Occurs name (json_object fields)
    in_list :
        {name : String} {items : JsonList} → OccursOf name items → Occurs name (json_list items)

  pub data OccursIn : String → JsonObject → Type 0 where
    here :
        {name : String} {value : Json} {rest : JsonObject} → OccursIn name (member name value rest)
    under :
        {name key : String} {value : Json} {rest : JsonObject}
        → Occurs name value
        → OccursIn name (member key value rest)
    later :
        {name key : String} {value : Json} {rest : JsonObject}
        → OccursIn name rest
        → OccursIn name (member key value rest)

  pub data OccursOf : String → JsonList → Type 0 where
    in_item :
        {name : String} {value : Json} {rest : JsonList}
        → Occurs name value
        → OccursOf name (item value rest)
    in_rest :
        {name : String} {value : Json} {rest : JsonList}
        → OccursOf name rest
        → OccursOf name (item value rest)

module _ {κ} (P : String → Type κ) where
  OfName : Named → Type κ
  OfName n = P n.name

  All_split : (xs ys : List Named) → All OfName (xs ++ ys) → All OfName xs × All OfName ys
  All_split [] ys h = (tt, h)
  All_split (x ∷ xs) ys (first, h) = let (left, right) = All_split xs ys h in ((first, left), right)

  -- What holds of every key of a document holds of every name that the walk yields.
  mutual
    unfolding walk_names OfName

    walked :
        (place : List Step) (document : Json)
        → ((name : String) → Occurs name document → P name)
        → All OfName (walk_names place document)
    walked place (json_object fields) h = walked_in place fields (λ name at. h name (in_object at))
    walked place (json_list items) h = walked_of place _ items (λ name at. h name (in_list at))
    walked place _ h = tt

    walked_in :
        (place : List Step) (fields : JsonObject)
        → ((name : String) → OccursIn name fields → P name)
        → All OfName (walk_members place fields)
    walked_in place no_members h = tt
    walked_in place (member key value rest) h = (
      h key here,
      All-append OfName _ _ (walked _ value (λ name at. h name (under at)))
          (walked_in place rest (λ name at. h name (later at))),
    )

    walked_of :
        (place : List Step) (index : ℕ) (items : JsonList)
        → ((name : String) → OccursOf name items → P name)
        → All OfName (walk_items place index items)
    walked_of place index no_items h = tt
    walked_of place index (item value rest) h =
        All-append OfName _ _ (walked _ value (λ name at. h name (in_item at)))
          (walked_of place _ rest (λ name at. h name (in_rest at)))

  -- The walk yields every key of a document.
  mutual
    unfolding walk_names OfName

    occurring :
        {name : String} (place : List Step) {document : Json}
        → Occurs name document
        → All OfName (walk_names place document)
        → P name
    occurring place (in_object at) h = occurring_in place at h
    occurring place (in_list at) h = occurring_of place _ at h

    occurring_in :
        {name : String} (place : List Step) {fields : JsonObject}
        → OccursIn name fields
        → All OfName (walk_members place fields)
        → P name
    occurring_in place here (first, h) = first
    occurring_in place (under at) (first, h) = occurring _ at (All_split _ _ h).0
    occurring_in place (later at) (first, h) = occurring_in place at (All_split _ _ h).1

    occurring_of :
        {name : String} (place : List Step) (index : ℕ) {items : JsonList}
        → OccursOf name items
        → All OfName (walk_items place index items)
        → P name
    occurring_of place index (in_item at) h = occurring _ at (All_split _ _ h).0
    occurring_of place index (in_rest at) h = occurring_of place _ at (All_split _ _ h).1

distinct_none : (texts : List String) → distinct texts ≡ [] → texts ≡ []
unfolding distinct
distinct_none [] h = refl
distinct_none (text ∷ texts) h =
    let rest = distinct_none texts in
    elim (Bool-cases (any (str_eq text) (distinct texts))) [
      | inl e ↦
          let gone : distinct texts ≡ [] =
            subst (λ b. (if b then distinct texts else text ∷ distinct texts) ≡ []) e h in
          let off : true ≡ false = sym e ∙ ap (any (str_eq text)) gone in cc
      | inr e ↦
          let off : text ∷ distinct texts ≡ [] =
            subst (λ b. (if b then distinct texts else text ∷ distinct texts) ≡ []) e h in
          cc
    ]

module _ (t : DisclosureText) (p : DisclosurePolicy) where
  -- A key of the format, or a name that is no internal one and has no secret term in it.
  abbrev pub IsPublishable : String → Type 0
  IsPublishable name =
      (any (str_eq name) p.structural ≡ true)
      ⊎ ((any (t.contains (t.normalise name)) p.secrets ≡ false)
          × (any (str_eq (t.normalise name)) p.internals ≡ false))

  disclosed-none_iff : (n : Named) → (disclosed t p n ≡ none) ↔ IsPublishable n.name
  unfolding disclosed
  disclosed-none_iff n = ((λ h. ground arith), (λ h. ground arith))

  all_disclosed_none :
      (names : List Named) → (all_disclosed t p names ≡ []) ↔ All (λ n. IsPublishable n.name) names
  unfolding all_disclosed add_disclosed
  all_disclosed_none [] = ((λ h. tt), (λ h. refl))
  all_disclosed_none (n ∷ names) =
      let (out, into) = all_disclosed_none names in
      let (clean, made) = disclosed-none_iff n in
      elim (Option-cases (disclosed t p n)) [
        | inl e ↦ (
          (λ h.
              (clean e, out (subst (λ d. add_disclosed t p d (all_disclosed t p names) ≡ []) e h))),
          (λ (first, rest). rw e (into rest)),
        )
        | inr (d, e) ↦ (
          (λ h.
              let off : d ∷ all_disclosed t p names ≡ [] =
                subst (λ d. add_disclosed t p d (all_disclosed t p names) ≡ []) e h in
              absurd cc),
          (λ (first, rest). let off : some d ≡ none = sym e ∙ made first in cc),
        )
      ]

  -- A document has no finding exactly where each key in it, at any depth, is a key of the format, or no
  -- internal name and without a secret term in it.
  pub disclosure_findings_none_iff :
      (document : JsonObject)
      → (disclosure_findings t p document ≡ [])
        ↔ ((name : String) → Occurs name (json_object document) → IsPublishable name)
  unfolding disclosure_findings OfName
  disclosure_findings_none_iff document =
      let names = walk_names [] (json_object document) in
      let (out, into) = all_disclosed_none names in
      (
        (λ h name at.
            occurring IsPublishable [] at
              (out (map_none t.finding_text _ (distinct_none _ (sort_by_none t.is_before _ h))))),
        (λ h. rw (into (walked IsPublishable [] (json_object document) h)) refl),
      )
