-- ===== src/Api/Authority/Walks.antt =====
-- The walk over the schemas of a request ends and misses no field: ragcore/src/ragcore/api/openapi.py.
use itsm_poc.Common.{
  In, ℕ, zero, suc, ◌+◌, ◌≤◌, true, false, List, [], ◌∷◌, String, str_eq, str_eq_iff, some,
  if◌then◌else◌, length, ◌≡◌, ◌⊎◌, refl, sym, ap, subst, arith, Bool-cases, Option-cases, inl, inr,
  some_injective,
}
use itsm_poc.Domain.Records.{Json, JsonObject, no_members, member}
use itsm_poc.Api.Components.{references, schema_named, is_wanted}
use itsm_poc.Api.Components.Turns.{wanted_rest, head_or_rest, wanted_head, nothing_wanted}
use itsm_poc.Api.Authority.{
  Finding, NamePolicy, findings_on, join_frontier, Walk, enter_schema, visit, walk, weight,
}

lighter :
    (schemas : JsonObject) (name : String) (reached : List String)
    → weight schemas (name ∷ reached) ≤ weight schemas reached
unfolding weight is_wanted
lighter no_members name reached = omega arith
lighter (member key schema rest) name reached =
    let later = lighter rest name reached in ground arith

weight_drops :
    (schemas : JsonObject) (name : String) (reached : List String) (found : Json)
    → schema_named name schemas ≡ some found
    → is_wanted name reached ≡ false
    → 1 + length (references found) + weight schemas (name ∷ reached) ≤ weight schemas reached
unfolding weight schema_named is_wanted
weight_drops no_members name reached found named new = cc
weight_drops (member key schema rest) name reached found named new =
    elim (Bool-cases (str_eq key name)) [
      | inl e ↦
          let same = (str_eq_iff key name).0 e in
          let back = (str_eq_iff name key).1 (sym same) in
          let old = subst (λ k. is_wanted k reached ≡ false) (sym same) new in
          let this = some_injective (
            subst (λ b. (if b then some schema else schema_named name rest) ≡ some found) e
              named) in
          let fewer = lighter rest name reached in
          subst
            (λ x.
              1 + length (references x) + weight (member key schema rest) (name ∷ reached)
              ≤ weight (member key schema rest) reached)
            this (ground arith)
      | inr e ↦
          let later =
            weight_drops rest name reached found
              (subst (λ b. (if b then some schema else schema_named name rest) ≡ some found) e
                named)
              new in
          ground arith
    ]

length-join_frontier :
    (reached names frontier : List String)
    → length (join_frontier reached names frontier) ≤ length names + length frontier
unfolding join_frontier
length-join_frontier reached [] frontier = omega arith
length-join_frontier reached (name ∷ names) frontier =
    let rest = length-join_frontier reached names frontier in ground arith

joined_first :
    (reached : List String) (first : String) (names frontier : List String)
    → (is_wanted first reached ≡ true)
      ⊎ (is_wanted first (join_frontier reached (first ∷ names) frontier) ≡ true)
unfolding join_frontier
joined_first reached first names frontier =
    let rest = join_frontier reached names frontier in
    elim (Bool-cases (is_wanted first reached)) [
      | inl e ↦ inl e
      | inr e ↦ elim (Bool-cases (is_wanted first rest)) [
        | inl f ↦ inr (rw (e, if◌then◌else◌, f) f)
        | inr f ↦ inr (rw (e, if◌then◌else◌, f) (wanted_head first rest))
      ]
    ]

joined_later :
    (reached : List String) (first : String) (names frontier : List String) (name : String)
    → is_wanted name (join_frontier reached names frontier) ≡ true
    → is_wanted name (join_frontier reached (first ∷ names) frontier) ≡ true
unfolding join_frontier
joined_later reached first names frontier name h =
    let rest = join_frontier reached names frontier in
    elim (Bool-cases (is_wanted first reached)) [
      | inl e ↦ rw (e, if◌then◌else◌) h
      | inr e ↦ elim (Bool-cases (is_wanted first rest)) [
        | inl f ↦ rw (e, if◌then◌else◌, f) h
        | inr f ↦ rw (e, if◌then◌else◌, f) (wanted_rest name first rest h)
      ]
    ]

pub join_keeps :
    (reached names frontier : List String) (name : String)
    → is_wanted name frontier ≡ true
    → is_wanted name (join_frontier reached names frontier) ≡ true
unfolding join_frontier
join_keeps reached [] frontier name h = h
join_keeps reached (first ∷ names) frontier name h =
    joined_later reached first names frontier name (join_keeps reached names frontier name h)

-- Each name that is joined was reached or is in the frontier.
pub join_covers :
    (reached names frontier : List String) (name : String)
    → is_wanted name names ≡ true
    → (is_wanted name reached ≡ true)
      ⊎ (is_wanted name (join_frontier reached names frontier) ≡ true)
join_covers reached [] frontier name h = absurd (nothing_wanted name h)
join_covers reached (first ∷ names) frontier name h = elim (head_or_rest name first names h) [
  | inl e ↦
      subst
        (λ n.
          (is_wanted n reached ≡ true)
          ⊎ (is_wanted n (join_frontier reached (first ∷ names) frontier) ≡ true))
        e (joined_first reached first names frontier)
  | inr later ↦ elim (join_covers reached names frontier name later) [
    | inl old ↦ inl old
    | inr joined ↦ inr (joined_later reached first names frontier name joined)
  ]
]

pub In-findings_on :
    (schema_name field : String) (fields : List String)
    → is_wanted field fields ≡ true
    → In (record { field = field; schema_name = schema_name }) (findings_on schema_name fields)
unfolding findings_on
In-findings_on schema_name field [] h = absurd (nothing_wanted field h)
In-findings_on schema_name field (first ∷ fields) h = elim (head_or_rest field first fields h) [
  | inl e ↦ inl (ap (λ f. record { field = f; schema_name = schema_name }) (sym e))
  | inr later ↦ inr (In-findings_on schema_name field fields later)
]

module _ (policy : NamePolicy) (schemas : JsonObject) where
  visit_lighter :
      (name : String) (w : Walk)
      → length (visit policy schemas name w).frontier
          + weight schemas (visit policy schemas name w).reached
        ≤ length w.frontier + weight schemas w.reached
  unfolding visit enter_schema
  visit_lighter name w = elim (Bool-cases (is_wanted name w.reached)) [
    | inl e ↦ rw (e, if◌then◌else◌) (omega arith)
    | inr e ↦ elim (Option-cases (schema_named name schemas)) [
      | inl unnamed ↦ rw (e, if◌then◌else◌, unnamed) (omega arith)
      | inr (schema, named) ↦
          let drops = weight_drops schemas name w.reached schema named e in
          let joined = length-join_frontier (name ∷ w.reached) (references schema) w.frontier in
          rw (e, if◌then◌else◌, named) (omega (arith, drops, joined))
    ]
  ]

  pub walk_ends :
      (fuel : ℕ) (frontier reached : List String) (findings : List Finding)
      → length frontier + weight schemas reached ≤ fuel
      → (all : List Finding) × (walk policy schemas fuel frontier reached findings ≡ some all)
  unfolding walk
  walk_ends zero [] reached findings enough = (findings, refl)
  walk_ends zero (name ∷ rest) reached findings enough = absurd (omega (arith, enough))
  walk_ends (suc fuel) [] reached findings enough = (findings, refl)
  walk_ends (suc fuel) (name ∷ rest) reached findings enough =
      let less =
        visit_lighter name (record { frontier = rest; reached = reached; findings = findings }) in
      walk_ends fuel _ _ _ (omega (arith, enough, less))
