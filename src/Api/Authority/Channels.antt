-- ===== src/Api/Authority/Channels.antt =====
-- No field by which a client could assert authority is missed, however deep in the request's schemas it
-- stands: ragcore/src/ragcore/api/openapi.py.
use itsm_poc.Common.{
  In, In-left, In-right, ℕ, zero, suc, ◌+◌, true, List, [], ◌∷◌, String, some, if◌then◌else◌,
  length, ◌≡◌, ◌⊎◌, refl, sym, subst, arith, Bool-cases, Option-cases, inl, inr, some_injective,
  ◌∙◌,
}
use itsm_poc.Domain.Records.{Json, JsonObject}
use itsm_poc.Api.Components.{references, schema_named, is_wanted}
use itsm_poc.Api.Components.Turns.{wanted_rest, head_or_rest, wanted_head, nothing_wanted}
use itsm_poc.Api.Components.Reach.{Reachable, direct, through}
use itsm_poc.Api.Authority.{
  Finding, NamePolicy, properties_of, authority_fields, join_frontier, Walk, enter_schema, visit,
  walk, weight, authority_in_request,
}
use itsm_poc.Api.Authority.Walks.{In-findings_on, join_keeps, join_covers, walk_ends}

module _ (policy : NamePolicy) (schemas : JsonObject) where
  -- A name that was reached or waits.
  Seen : String → Walk → Type 0
  Seen name w = (is_wanted name w.reached ≡ true) ⊎ (is_wanted name w.frontier ≡ true)

  -- A schema whose references are seen and whose fields are reported.
  record Handled (name : String) (schema : Json) (w : Walk) : Type 0 where
    sees :
        (other : String) (found : Json)
        → is_wanted other (references schema) ≡ true
        → schema_named other schemas ≡ some found
        → Seen other w
    reports :
        (field : String)
        → is_wanted field (authority_fields policy (properties_of schema)) ≡ true
        → In (record { field = field; schema_name = name }) w.findings

  -- What a turn leaves.
  record Turned (name : String) (w next : Walk) : Type 0 where
    keeps :
        (other : String) → is_wanted other w.reached ≡ true → is_wanted other next.reached ≡ true
    waits :
        (other : String) → is_wanted other w.frontier ≡ true → is_wanted other next.frontier ≡ true
    stays : (x : Finding) → In x w.findings → In x next.findings
    enters :
        (schema : Json)
        → schema_named name schemas ≡ some schema
        → is_wanted name next.reached ≡ true
    handles :
        (other : String) (schema : Json)
        → is_wanted other next.reached ≡ true
        → schema_named other schemas ≡ some schema
        → (is_wanted other w.reached ≡ true) ⊎ Handled other schema next

  unmoved_turn :
      (name : String) (w : Walk)
      → ((schema : Json)
          → schema_named name schemas ≡ some schema
          → is_wanted name w.reached ≡ true)
      → Turned name w w
  unmoved_turn name w enters = record {
    keeps = λ other h. h;
    waits = λ other h. h;
    stays = λ x h. h;
    enters = enters;
    handles = λ other schema h named. inl h;
  }

  entered_turn :
      (name : String) (schema : Json) (w : Walk)
      → schema_named name schemas ≡ some schema
      → Turned name w (enter_schema policy schemas name (some schema) w)
  unfolding enter_schema Seen
  entered_turn name schema w named =
      let reached = name ∷ w.reached in
      let next = enter_schema policy schemas name (some schema) w in
      record {
        keeps = λ other h. wanted_rest other name w.reached h;
        waits = λ other h. join_keeps reached (references schema) w.frontier other h;
        stays = λ x h. In-left x w.findings _ h;
        enters = λ found named_found. wanted_head name w.reached;
        handles = λ other found h named_found. elim (head_or_rest other name w.reached h) [
          | inr before ↦ inl before
          | inl e ↦
              let same = some_injective (
                sym named ∙ subst (λ n. schema_named n schemas ≡ some found) (sym e) named_found) in
              inr (
                subst (λ n. Handled n found next) e
                  (subst (λ s. Handled name s next) same
                    (record {
                      sees =
                          λ n x held at. join_covers reached (references schema) w.frontier n held;
                      reports = λ field held. In-right _ w.findings _ (
                          In-findings_on name field (authority_fields policy (properties_of schema))
                            held);
                    })))
        ];
      }

  visit_turn : (name : String) (w : Walk) → Turned name w (visit policy schemas name w)
  unfolding visit
  visit_turn name w = elim (Bool-cases (is_wanted name w.reached)) [
    | inl e ↦ rw (e, if◌then◌else◌) (unmoved_turn name w (λ schema named. e))
    | inr e ↦ elim (Option-cases (schema_named name schemas)) [
      | inl unnamed ↦ rw (e, if◌then◌else◌, unnamed) (unmoved_turn name w (λ schema named. cc))
      | inr (schema, named) ↦ rw (e, if◌then◌else◌, named) (entered_turn name schema w named)
    ]
  ]

  -- What holds before each turn.
  record Covers (body : Json) (w : Walk) : Type 0 where
    from_body :
        (other : String) (schema : Json)
        → is_wanted other (references body) ≡ true
        → schema_named other schemas ≡ some schema
        → Seen other w
    handled :
        (other : String) (schema : Json)
        → is_wanted other w.reached ≡ true
        → schema_named other schemas ≡ some schema
        → Handled other schema w

  module _ (name : String) (rest reached : List String) (findings : List Finding) where
    abbrev popped : Walk
    popped = record { frontier = rest; reached = reached; findings = findings }

    abbrev before_turn : Walk
    before_turn = record { frontier = name ∷ rest; reached = reached; findings = findings }

    turn-Seen :
        (other : String) (schema : Json)
        → schema_named other schemas ≡ some schema
        → Seen other before_turn
        → Seen other (visit policy schemas name popped)
    unfolding Seen
    turn-Seen other schema named seen =
        let t = visit_turn name popped in
        elim seen [
          | inl held ↦ inl (t.keeps other held)
          | inr waiting ↦ elim (head_or_rest other name rest waiting) [
            | inl e ↦ inl (
                subst (λ n. is_wanted n (visit policy schemas name popped).reached ≡ true) e
                  (t.enters schema
                    (subst (λ n. schema_named n schemas ≡ some schema) (sym e) named)))
            | inr later ↦ inr (t.waits other later)
          ]
        ]

    turn-Covers :
        (body : Json) → Covers body before_turn → Covers body (visit policy schemas name popped)
    turn-Covers body old =
        let t = visit_turn name popped in
        record {
          from_body = λ other schema h named.
              turn-Seen other schema named (old.from_body other schema h named);
          handled = λ other schema h named. elim (t.handles other schema h named) [
            | inr done ↦ done
            | inl held ↦
                let before = old.handled other schema held named in
                record {
                  sees = λ n x refers at. turn-Seen n x at (before.sees n x refers at);
                  reports = λ field offends. t.stays _ (before.reports field offends);
                }
          ];
        }

  walk-Covers :
      (body : Json) (fuel : ℕ) (frontier reached : List String) (findings all : List Finding)
      → Covers body (record { frontier = frontier; reached = reached; findings = findings })
      → walk policy schemas fuel frontier reached findings ≡ some all
      → (last : List String) × Covers body
          (record { frontier = []; reached = last; findings = all })
  unfolding walk
  walk-Covers body zero [] reached findings all c done = (
    reached,
    subst (λ x. Covers body (record { frontier = []; reached = reached; findings = x }))
        (some_injective done) c,
  )
  walk-Covers body zero (name ∷ rest) reached findings all c done = cc
  walk-Covers body (suc fuel) [] reached findings all c done = (
    reached,
    subst (λ x. Covers body (record { frontier = []; reached = reached; findings = x }))
        (some_injective done) c,
  )
  walk-Covers body (suc fuel) (name ∷ rest) reached findings all c done =
      walk-Covers body fuel _ _ _ all (turn-Covers name rest reached findings body c) done

  was_reached :
      (other : String) (w : Walk)
      → w.frontier ≡ []
      → Seen other w
      → is_wanted other w.reached ≡ true
  unfolding Seen
  was_reached other w none_left (inl h) = h
  was_reached other w none_left (inr h) =
      absurd (nothing_wanted other (subst (λ f. is_wanted other f ≡ true) none_left h))

  Reachable-Covers :
      (body : Json) (w : Walk) (other : String)
      → w.frontier ≡ []
      → Covers body w
      → Reachable schemas body other
      → is_wanted other w.reached ≡ true
  Reachable-Covers body w other none_left c (direct {schema = schema} h named) =
      was_reached other w none_left (c.from_body other schema h named)
  Reachable-Covers body w other none_left c
        (through {other = middle} {schema = schema} {between = between} reached at h named) =
      let held = Reachable-Covers body w middle none_left c reached in
      was_reached other w none_left ((c.handled middle between held at).sees other schema h named)

  start-Covers :
      (body : Json)
      → Covers body
          (record { frontier = join_frontier [] (references body) []; reached = []; findings = [] })
  unfolding Seen
  start-Covers body = record {
    from_body = λ other schema h named. join_covers [] (references body) [] other h;
    handled = λ other schema h named. absurd (nothing_wanted other h);
  }

  -- For every component section and request body, the walk ends, and a property whose normalised name is
  -- one of authority is reported with its schema, if the body reaches that schema through any number of
  -- references.
  pub channel_reported :
      (body : Json) (name field : String) (schema : Json)
      → Reachable schemas body name
      → schema_named name schemas ≡ some schema
      → is_wanted field (authority_fields policy (properties_of schema)) ≡ true
      → (all : List Finding) × (authority_in_request policy schemas body ≡ some all)
        × In (record { field = field; schema_name = name }) all
  unfolding authority_in_request
  channel_reported body name field schema reachable named offends =
      let frontier = join_frontier [] (references body) [] in
      let fuel = length frontier + weight schemas [] in
      let (all, ended) = walk_ends policy schemas fuel frontier [] [] (omega arith) in
      let (last, covers) = walk-Covers body fuel frontier [] [] all (start-Covers body) ended in
      let held = Reachable-Covers body _ name refl covers reachable in
      (all, ended, (covers.handled name schema held named).reports field offends)
