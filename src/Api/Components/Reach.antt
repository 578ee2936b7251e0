-- ===== src/Api/Components/Reach.antt =====
-- What the search for component schemas finds is what the document's paths reach, through any number
-- of references: ragcore/src/ragcore/api/openapi.py.
use itsm_poc.Common.{
  not_in, In, ℕ, zero, suc, ◌+◌, true, List, [], ◌∷◌, String, str_eq, str_eq_iff, none, some,
  if◌then◌else◌, ◌≡◌, ◌⊎◌, ◌↔◌, refl, arith, Bool-cases, inl, inr, ap, sym, subst, some_injective,
  ◌∙◌,
}
use itsm_poc.Domain.Records.{Json, JsonObject, no_members, member}
use itsm_poc.Api.Components.{
  references, schema_named, Search, is_wanted, note_all, explore, size, keep, reachable_components,
  kept_from,
}
use itsm_poc.Api.Components.Loops.{explore_ends, size-unwanted}
use itsm_poc.Api.Components.Turns.{advances, nothing_wanted}

-- The schemas that a node reaches: it refers to their names, or a schema that it reaches does.
pub data Reachable (schemas : JsonObject) (root : Json) : String → Type 0 where
  direct :
      {name : String} {schema : Json}
      → is_wanted name (references root) ≡ true
      → schema_named name schemas ≡ some schema
      → Reachable schemas root name
  through :
      {name other : String} {schema between : Json}
      → Reachable schemas root other
      → schema_named other schemas ≡ some between
      → is_wanted name (references between) ≡ true
      → schema_named name schemas ≡ some schema
      → Reachable schemas root name

module _ (schemas : JsonObject) where
  module _ (root : Json) where
    Closed : List String → Json → Type 0
    Closed wanted node =
        (name : String) (schema : Json)
        → is_wanted name (references node) ≡ true
        → schema_named name schemas ≡ some schema
        → is_wanted name wanted ≡ true

    -- What a node of the frontier is.
    Known : Json → Type 0
    Known node =
        (node ≡ root)
        ⊎ ((other : String) × Reachable schemas root other
            × (schema_named other schemas ≡ some node))

    Due : List String → List Json → Json → Type 0
    Due wanted frontier node = In node frontier ⊎ Closed wanted node

    -- What holds before each turn.
    record Explored (wanted : List String) (frontier : List Json) : Type 0 where
      sound : (name : String) → is_wanted name wanted ≡ true → Reachable schemas root name
      known : (node : Json) → In node frontier → Known node
      root_due : Due wanted frontier root
      wanted_due :
          (name : String) (schema : Json)
          → is_wanted name wanted ≡ true
          → schema_named name schemas ≡ some schema
          → Due wanted frontier schema

    Known-Reachable :
        (node : Json) (name : String) (schema : Json)
        → Known node
        → is_wanted name (references node) ≡ true
        → schema_named name schemas ≡ some schema
        → Reachable schemas root name
    unfolding Known
    Known-Reachable node name schema (inl e) h named =
        direct (subst (λ x. is_wanted name (references x) ≡ true) e h) named
    Known-Reachable node name schema (inr (other, reached, at)) h named = through reached at h named

    module _ (wanted : List String) (node : Json) (rest : List Json) where
      abbrev after_turn : Search
      after_turn = note_all schemas (references node) (record { wanted = wanted; frontier = rest })

      turn-Due :
          (x : Json) → Due wanted (node ∷ rest) x → Due after_turn.wanted after_turn.frontier x
      unfolding Due Closed
      turn-Due x due =
          let a =
            advances schemas (references node) (record { wanted = wanted; frontier = rest }) in
          elim due [
            | inl (inl e) ↦ inr (λ name schema h named.
                a.wants name schema (subst (λ y. is_wanted name (references y) ≡ true) e h) named)
            | inl (inr held) ↦ inl (a.holds x held)
            | inr closed ↦ inr (λ name schema h named. a.keeps name (closed name schema h named))
          ]

      turn-Explored : Explored wanted (node ∷ rest) → Explored after_turn.wanted after_turn.frontier
      unfolding Due Known
      turn-Explored old =
          let a =
            advances schemas (references node) (record { wanted = wanted; frontier = rest }) in
          let here_known = old.known node (inl refl) in
          record {
            sound = λ name h. elim (a.fresh name h) [
              | inl before ↦ old.sound name before
              | inr (schema, here, named, held) ↦
                  Known-Reachable node name schema here_known here named
            ];
            known = λ x h. elim (a.origin x h) [
              | inl before ↦ old.known x (inr before)
              | inr (name, here, named) ↦
                  inr (name, Known-Reachable node name x here_known here named, named)
            ];
            root_due = turn-Due root old.root_due;
            wanted_due = λ name schema h named. elim (a.fresh name h) [
              | inl before ↦ turn-Due schema (old.wanted_due name schema before named)
              | inr (other, here, named_other, held) ↦ inl (
                  subst (λ x. In x after_turn.frontier) (some_injective (sym named_other ∙ named))
                    held)
            ];
          }

    explore-Explored :
        (fuel : ℕ) (wanted found : List String) (frontier : List Json)
        → Explored wanted frontier
        → explore schemas fuel wanted frontier ≡ some found
        → Explored found []
    unfolding explore
    explore-Explored zero wanted found [] e done =
        subst (λ w. Explored w []) (some_injective done) e
    explore-Explored zero wanted found (node ∷ rest) e done = cc
    explore-Explored (suc fuel) wanted found [] e done =
        subst (λ w. Explored w []) (some_injective done) e
    explore-Explored (suc fuel) wanted found (node ∷ rest) e done =
        explore-Explored fuel _ found _ (turn-Explored wanted node rest e) done

    Explored-is_wanted :
        (found : List String) (name : String)
        → Explored found []
        → Reachable schemas root name
        → is_wanted name found ≡ true
    unfolding Due Closed
    Explored-is_wanted found name e (direct {schema = schema} h named) = elim e.root_due [
      | inl h ↦ absurd (not_in h)
      | inr closed ↦ closed name schema h named
    ]
    Explored-is_wanted found name e
          (through {other = other} {schema = schema} {between = between} reached at h named) =
        elim (e.wanted_due other between (Explored-is_wanted found other e reached) at) [
          | inl h ↦ absurd (not_in h)
          | inr closed ↦ closed name schema h named
        ]

    start-Explored : Explored [] (root ∷ [])
    unfolding Due Known
    start-Explored = record {
      sound = λ name h. absurd (nothing_wanted name h);
      known = λ node h. elim h [ inl e ↦ inl e | inr rest ↦ absurd (not_in rest) ];
      root_due = inl (inl refl);
      wanted_due = λ name schema h named. absurd (nothing_wanted name h);
    }

-- Without a schema there is nothing to explore.
empty-Explored : (paths : Json) → Explored no_members paths [] []
unfolding Due Closed schema_named
empty-Explored paths = record {
  sound = λ name h. absurd (nothing_wanted name h);
  known = λ node h. absurd (not_in h);
  root_due = inr (λ name schema h named. cc);
  wanted_due = λ name schema h named. cc;
}

same_wanted :
    (key name : String) (wanted : List String)
    → str_eq key name ≡ true
    → is_wanted key wanted ≡ is_wanted name wanted
same_wanted key name wanted h = ap (λ n. is_wanted n wanted) ((str_eq_iff key name).0 h)

kept_named :
    (wanted : List String) (schemas : JsonObject) (name : String)
    → schema_named name (keep wanted schemas)
      ≡ (if is_wanted name wanted then schema_named name schemas else none)
unfolding keep schema_named
kept_named wanted no_members name = ground arith
kept_named wanted (member key schema rest) name =
    let later = kept_named wanted rest name in
    let same = same_wanted key name wanted in
    elim (Bool-cases (is_wanted key wanted)) [
      | inl e ↦ rw (e, if◌then◌else◌) (ground arith)
      | inr e ↦ rw (e, if◌then◌else◌) (ground arith)
    ]

-- What the search keeps, once it has ended.
kept_iff :
    (schemas : JsonObject) (paths : Json) (found : List String)
    → Explored schemas paths found []
    → (name : String) (schema : Json)
    → (schema_named name (keep found schemas) ≡ some schema)
      ↔ ((schema_named name schemas ≡ some schema) × Reachable schemas paths name)
kept_iff schemas paths found e name schema =
    let kept = kept_named found schemas name in
    (
      (λ h. elim (Bool-cases (is_wanted name found)) [
        | inl wanted ↦ (
          subst (λ b. (if b then schema_named name schemas else none) ≡ some schema) wanted
              (sym kept ∙ h),
          e.sound name wanted,
        )
        | inr other ↦
            let nothing =
              subst (λ b. (if b then schema_named name schemas else none) ≡ some schema) other
                (sym kept ∙ h) in
            cc
      ]),
      (λ (named, reached).
          kept
          ∙ ap (λ b. if b then schema_named name schemas else none)
              (Explored-is_wanted schemas paths found name e reached)
          ∙ named),
    )

-- For every component section and paths, the search ends, and the schemas that it keeps are, under
-- their names, those of the section that the paths reach through any number of references, and no
-- other.
pub reachable_components_iff :
    (schemas : JsonObject) (paths : Json)
    → (kept : JsonObject) × (reachable_components schemas paths ≡ some kept)
      × ((name : String) (schema : Json)
          → (schema_named name kept ≡ some schema)
            ↔ ((schema_named name schemas ≡ some schema) × Reachable schemas paths name))
unfolding reachable_components kept_from keep
reachable_components_iff no_members paths =
    (no_members, refl, kept_iff no_members paths [] (empty-Explored paths))
reachable_components_iff (member key first rest) paths =
    let schemas = member key first rest in
    let fuel = 1 + size schemas in
    let whole = size-unwanted schemas in
    let (found, ended) = explore_ends schemas fuel [] (paths ∷ []) (omega (arith, whole)) in
    let explored =
      explore-Explored schemas paths fuel [] found (paths ∷ []) (start-Explored schemas paths)
        ended in
    (keep found schemas, ap (kept_from schemas) ended, kept_iff schemas paths found explored)
