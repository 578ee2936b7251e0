-- ===== src/Api/Components/Loops.antt =====
-- The search for component schemas ends: each turn takes a node off the frontier, and a node is put
-- on it only with a schema that was not wanted before. ragcore/src/ragcore/api/openapi.py.
use itsm_poc.Common.{
  ℕ, zero, suc, ◌+◌, ◌≤◌, false, List, [], ◌∷◌, String, str_eq, str_eq_iff, some, if◌then◌else◌,
  length, ◌≡◌, refl, arith, Bool-cases, Option-cases, inl, inr, ap, sym, subst,
}
use itsm_poc.Domain.Records.{Json, JsonObject, no_members, member}
use itsm_poc.Api.Components.{
  references, schema_named, Search, is_wanted, note, note_schema, note_all, explore, size,
}

-- How many schemas are not wanted yet.
unfoldable pub unwanted : JsonObject → List String → ℕ
unwanted no_members wanted = 0
unwanted (member name schema rest) wanted =
    if is_wanted name wanted then unwanted rest wanted else 1 + unwanted rest wanted

unwanted_fewer :
    (schemas : JsonObject) (name : String) (wanted : List String)
    → unwanted schemas (name ∷ wanted) ≤ unwanted schemas wanted
unfolding unwanted is_wanted
unwanted_fewer no_members name wanted = omega arith
unwanted_fewer (member key schema rest) name wanted =
    let fewer = unwanted_fewer rest name wanted in ground arith

-- One fewer with a schema that was not wanted.
unwanted_drops :
    (schemas : JsonObject) (name : String) (wanted : List String) (found : Json)
    → schema_named name schemas ≡ some found
    → is_wanted name wanted ≡ false
    → 1 + unwanted schemas (name ∷ wanted) ≤ unwanted schemas wanted
unfolding unwanted schema_named is_wanted
unwanted_drops no_members name wanted found named new = cc
unwanted_drops (member key schema rest) name wanted found named new =
    elim (Bool-cases (str_eq key name)) [
      | inl e ↦
          let same = (str_eq_iff key name).0 e in
          let back = (str_eq_iff name key).1 (sym same) in
          let old = subst (λ k. is_wanted k wanted ≡ false) (sym same) new in
          let fewer = unwanted_fewer rest name wanted in ground arith
      | inr e ↦
          let later =
            unwanted_drops rest name wanted found
              (subst (λ b. (if b then some schema else schema_named name rest) ≡ some found) e
                named)
              new in
          ground arith
    ]

pub size-unwanted : (schemas : JsonObject) → unwanted schemas [] ≡ size schemas
unfolding unwanted is_wanted
size-unwanted no_members = refl
size-unwanted (member key schema rest) = ap (λ n. 1 + n) (size-unwanted rest)

note_measure :
    (schemas : JsonObject) (name : String) (s : Search)
    → length (note schemas name s).frontier + unwanted schemas (note schemas name s).wanted
      ≤ length s.frontier + unwanted schemas s.wanted
unfolding note note_schema
note_measure schemas name s = elim (Bool-cases (is_wanted name s.wanted)) [
  | inl e ↦ rw (e, if◌then◌else◌) (omega arith)
  | inr e ↦ elim (Option-cases (schema_named name schemas)) [
    | inl none_named ↦ rw (e, if◌then◌else◌, none_named) (omega arith)
    | inr (found, named) ↦
        let drops = unwanted_drops schemas name s.wanted found named e in
        rw (e, if◌then◌else◌, named) (omega (arith, drops))
  ]
]

note_all_measure :
    (schemas : JsonObject) (names : List String) (s : Search)
    → length (note_all schemas names s).frontier
        + unwanted schemas (note_all schemas names s).wanted
      ≤ length s.frontier + unwanted schemas s.wanted
unfolding note_all
note_all_measure schemas [] s = omega arith
note_all_measure schemas (name ∷ names) s =
    let one = note_measure schemas name s in
    let rest = note_all_measure schemas names (note schemas name s) in omega (arith, one, rest)

-- Fuel for the frontier's nodes and for each schema that is not wanted yet is enough.
pub explore_ends :
    (schemas : JsonObject) (fuel : ℕ) (wanted : List String) (frontier : List Json)
    → length frontier + unwanted schemas wanted ≤ fuel
    → (found : List String) × (explore schemas fuel wanted frontier ≡ some found)
unfolding explore
explore_ends schemas zero wanted [] enough = (wanted, refl)
explore_ends schemas zero wanted (node ∷ rest) enough = absurd (omega (arith, enough))
explore_ends schemas (suc fuel) wanted [] enough = (wanted, refl)
explore_ends schemas (suc fuel) wanted (node ∷ rest) enough =
    let less =
      note_all_measure schemas (references node) (record { wanted = wanted; frontier = rest }) in
    explore_ends schemas fuel _ _ (omega (arith, enough, less))
