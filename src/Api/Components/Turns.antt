-- ===== src/Api/Components/Turns.antt =====
-- What one turn of the search for component schemas does to the wanted names and to the frontier:
-- ragcore/src/ragcore/api/openapi.py.
use itsm_poc.Common.{
  In, true, ◌||◌, List, [], ◌∷◌, String, str_eq, str_eq_iff, some, if◌then◌else◌, ◌≡◌, ◌⊎◌, refl,
  Bool-cases, Option-cases, inl, inr, sym, subst, or_true,
}
use itsm_poc.Domain.Records.{Json, JsonObject}
use itsm_poc.Api.Components.{schema_named, Search, is_wanted, note, note_schema, note_all}

pub head_or_rest :
    (name first : String) (names : List String)
    → is_wanted name (first ∷ names) ≡ true
    → (first ≡ name) ⊎ (is_wanted name names ≡ true)
unfolding is_wanted
head_or_rest name first names h = elim (Bool-cases (str_eq first name)) [
  | inl e ↦ inl ((str_eq_iff first name).0 e)
  | inr e ↦ inr (subst (λ b. b || is_wanted name names ≡ true) e h)
]

pub wanted_rest :
    (name first : String) (names : List String)
    → is_wanted name names ≡ true
    → is_wanted name (first ∷ names) ≡ true
unfolding is_wanted
wanted_rest name first names h =
    subst (λ b. str_eq first name || b ≡ true) (sym h) (or_true (str_eq first name))

pub wanted_head : (name : String) (names : List String) → is_wanted name (name ∷ names) ≡ true
unfolding is_wanted
wanted_head name names = rw ((str_eq_iff name name).1 refl) refl

pub nothing_wanted : (name : String) → ¬ (is_wanted name [] ≡ true)
unfolding is_wanted
nothing_wanted name h = cc

wanted_equal :
    (name first : String) (names : List String)
    → first ≡ name
    → is_wanted name (first ∷ names) ≡ true
wanted_equal name first names e =
    subst (λ n. is_wanted n (first ∷ names) ≡ true) e (wanted_head first names)

-- The only name of a list of one.
only_name : (name first : String) → is_wanted name (first ∷ []) ≡ true → first ≡ name
only_name name first h = elim (head_or_rest name first [] h) [
  | inl e ↦ e
  | inr none_left ↦ absurd (nothing_wanted name none_left)
]

-- What a turn does: it keeps what was wanted and the nodes of the frontier, wants the names that are
-- schemas, and puts the schema of each new name on the frontier.
pub record Advances (schemas : JsonObject) (names : List String) (s next : Search) : Type 0 where
  pub keeps : (name : String) → is_wanted name s.wanted ≡ true → is_wanted name next.wanted ≡ true
  pub holds : (node : Json) → In node s.frontier → In node next.frontier
  pub wants :
      (name : String) (schema : Json)
      → is_wanted name names ≡ true
      → schema_named name schemas ≡ some schema
      → is_wanted name next.wanted ≡ true
  pub fresh :
      (name : String)
      → is_wanted name next.wanted ≡ true
      → (is_wanted name s.wanted ≡ true)
        ⊎ ((schema : Json) × (is_wanted name names ≡ true)
            × (schema_named name schemas ≡ some schema)
            × In schema next.frontier)
  pub origin :
      (node : Json)
      → In node next.frontier
      → In node s.frontier
        ⊎ ((name : String) × (is_wanted name names ≡ true)
            × (schema_named name schemas ≡ some node))

module _ (schemas : JsonObject) where
  nothing-Advances : (s : Search) → Advances schemas [] s s
  nothing-Advances s = record {
    keeps = λ name h. h;
    holds = λ node h. h;
    wants = λ name schema h named. absurd (nothing_wanted name h);
    fresh = λ name h. inl h;
    origin = λ node h. inl h;
  }

  note_cases :
      (name : String) (s : Search)
      → ((note schemas name s ≡ s)
          × ((schema : Json)
              → schema_named name schemas ≡ some schema
              → is_wanted name s.wanted ≡ true))
        ⊎ ((schema : Json) × (schema_named name schemas ≡ some schema)
            × (note schemas name s
                ≡ record { wanted = name ∷ s.wanted; frontier = schema ∷ s.frontier }))
  unfolding note note_schema
  note_cases name s = elim (Bool-cases (is_wanted name s.wanted)) [
    | inl e ↦ inl (rw (e, if◌then◌else◌) refl, λ schema named. e)
    | inr e ↦ elim (Option-cases (schema_named name schemas)) [
      | inl unnamed ↦ inl (rw (e, if◌then◌else◌, unnamed) refl, λ schema named. cc)
      | inr (schema, named) ↦ inr (schema, named, rw (e, if◌then◌else◌, named) refl)
    ]
  ]

  note-Advances :
      (name : String) (s : Search) → Advances schemas (name ∷ []) s (note schemas name s)
  note-Advances name s = elim (note_cases name s) [
    | inl (same, covered) ↦ subst (Advances schemas (name ∷ []) s) (sym same) (record {
      keeps = λ n h. h;
      holds = λ node h. h;
      wants = λ n schema h named.
          let e = only_name n name h in
          subst (λ x. is_wanted x s.wanted ≡ true) e
            (covered schema (subst (λ x. schema_named x schemas ≡ some schema) (sym e) named));
      fresh = λ n h. inl h;
      origin = λ node h. inl h;
    })
    | inr (found, named_found, same) ↦ subst (Advances schemas (name ∷ []) s) (sym same) (record {
      keeps = λ n h. wanted_rest n name s.wanted h;
      holds = λ node h. inr h;
      wants = λ n schema h named. wanted_equal n name s.wanted (only_name n name h);
      fresh = λ n h. elim (head_or_rest n name s.wanted h) [
        | inl e ↦ inr (
          found,
          wanted_equal n name [] e,
          subst (λ x. schema_named x schemas ≡ some found) e named_found,
          inl refl,
        )
        | inr before ↦ inl before
      ];
      origin = λ node h. elim h [
        | inl e ↦ inr (
          name,
          wanted_head name [],
          subst (λ x. schema_named name schemas ≡ some x) (sym e) named_found,
        )
        | inr before ↦ inl before
      ];
    })
  ]

  joined :
      (name : String) (names : List String) (s m t : Search)
      → Advances schemas (name ∷ []) s m
      → Advances schemas names m t
      → Advances schemas (name ∷ names) s t
  joined name names s m t a b = record {
    keeps = λ n h. b.keeps n (a.keeps n h);
    holds = λ node h. b.holds node (a.holds node h);
    wants = λ n schema h named. elim (head_or_rest n name names h) [
      | inl e ↦ b.keeps n (a.wants n schema (wanted_equal n name [] e) named)
      | inr later ↦ b.wants n schema later named
    ];
    fresh = λ n h. elim (b.fresh n h) [
      | inl before ↦ elim (a.fresh n before) [
        | inl old ↦ inl old
        | inr (schema, here, named, held) ↦
            inr (
              schema,
              wanted_equal n name names (only_name n name here),
              named,
              b.holds schema held,
            )
      ]
      | inr (schema, later, named, held) ↦ inr (schema, wanted_rest n name names later, named, held)
    ];
    origin = λ node h. elim (b.origin node h) [
      | inl before ↦ elim (a.origin node before) [
        | inl old ↦ inl old
        | inr (n, here, named) ↦ inr (n, wanted_equal n name names (only_name n name here), named)
      ]
      | inr (n, later, named) ↦ inr (n, wanted_rest n name names later, named)
    ];
  }

  pub advances :
      (names : List String) (s : Search) → Advances schemas names s (note_all schemas names s)
  unfolding note_all
  advances [] s = nothing-Advances s
  advances (name ∷ names) s =
      joined name names s _ _ (note-Advances name s) (advances names (note schemas name s))
