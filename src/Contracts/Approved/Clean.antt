-- ===== src/Contracts/Approved/Clean.antt =====
-- When a run of the gate is clean: build/scripts/openapi_diff.py.
use itsm_poc.Common.{
  ℕ, zero, suc, max, ◌≤◌, Bool, true, false, ◌&&◌, List, [], ◌∷◌, any, Option, none, some, String,
  ◌≡◌, ◌≢◌, ◌↔◌, refl, sym, ap, ◌∙◌, arith,
}
use itsm_poc.Domain.Records.{JsonObject}
use itsm_poc.Contracts.Documents.{DocumentText}
use itsm_poc.Contracts.Compare.{Finding, compare}
use itsm_poc.Contracts.Approved.{
  Approval, GeneratedDocument, GateText, GateRun, is_covering, covers, weigh, weighed_with, Weighed,
  compare_document, compare_documents, main, missing_baseline, status_of,
}

and_assoc : (a b c : Bool) → (a && b) && c ≡ a && (b && c)
and_assoc true b c = refl
and_assoc false b c = refl

and_one : (a : Bool) → a ≡ a && true
and_one true = refl
and_one false = refl

module _ (t : DocumentText) (g : GateText) (today : String) (entries : List Approval) where
  -- An entry of the register covers the finding, on the day of the run.
  unfoldable pub is_approved : (document : String) → Finding → Bool
  is_approved document f = any (is_covering t g today document (g.finding_text f)) entries

  is_index : Option ℕ → Bool
  is_index none = false
  is_index (some i) = true

  covers_lem :
      (document finding : String) (index : ℕ) (xs : List Approval)
      → is_index (covers t g today document finding index xs)
        ≡ any (is_covering t g today document finding) xs
  unfolding covers is_index
  covers_lem document finding index [] = refl
  covers_lem document finding index (a ∷ xs) =
      let rest = covers_lem document finding (suc index) xs in ground arith

  all_approved : (document : String) → List Finding → Bool
  all_approved document [] = true
  all_approved document (f ∷ findings) = is_approved document f && all_approved document findings

  is_nothing {ℓ} : {A : Type ℓ} → List A → Bool
  is_nothing [] = true
  is_nothing (_ ∷ _) = false

  weighed_lem :
      (f : Finding) (o : Option ℕ) (w : Weighed t g today)
      → is_nothing (weighed_with t g today f o w).unapproved ≡ is_index o && is_nothing w.unapproved
  unfolding weighed_with is_index is_nothing
  weighed_lem f none w = refl
  weighed_lem f (some i) w = refl

  weigh_lem :
      (document : String) (findings : List Finding)
      → is_nothing (weigh t g today document entries findings).unapproved
        ≡ all_approved document findings
  unfolding weigh all_approved is_approved is_nothing
  weigh_lem document [] = refl
  weigh_lem document (f ∷ findings) =
      weighed_lem f (covers t g today document (g.finding_text f) 0 entries)
        (weigh t g today document entries findings)
      ∙ ap (λ b. b && is_nothing (weigh t g today document entries findings).unapproved)
          (covers_lem document (g.finding_text f) 0 entries)
      ∙ ap (λ b. any (is_covering t g today document (g.finding_text f)) entries && b)
          (weigh_lem document findings)

  is_zero : ℕ → Bool
  is_zero zero = true
  is_zero (suc n) = false

  -- The document has a baseline, and each breaking finding against it is approved.
  unfoldable pub is_clean_against : GeneratedDocument → Option JsonObject → Bool
  unfolding all_approved
  is_clean_against d none = false
  is_clean_against d (some baseline) = all_approved d.path (compare t baseline d.current).breaking

  abbrev pub all_clean : List GeneratedDocument → Bool
  all_clean [] = true
  all_clean (d ∷ documents) = is_clean_against d d.baseline && all_clean documents

  zero_status :
      (status : ℕ) (unapproved : List Finding)
      → is_zero (status_of t g today status unapproved) ≡ is_zero status && is_nothing unapproved
  unfolding status_of is_zero is_nothing
  zero_status status [] = ground arith
  zero_status zero (f ∷ unapproved) = refl
  zero_status (suc n) (f ∷ unapproved) = refl

  at_least : (n : ℕ) → 1 ≤ n → is_zero n ≡ false
  unfolding is_zero
  at_least zero h = absurd (omega (arith, h))
  at_least (suc n) h = refl

  missing_not_zero : (status : ℕ) → is_zero (max status missing_baseline) ≡ is_zero status && false
  unfolding is_zero
  missing_not_zero zero = refl
  missing_not_zero (suc n) = at_least (max (suc n) 2) (omega arith)

  one_document :
      (d : GeneratedDocument) (baseline : Option JsonObject) (run : GateRun)
      → is_zero (compare_document t g today entries d baseline run).status
        ≡ is_zero run.status && is_clean_against d baseline
  unfolding compare_document is_clean_against
  one_document d none run = missing_not_zero run.status
  one_document d (some baseline) run =
      let findings = (compare t baseline d.current).breaking in
      zero_status run.status (weigh t g today d.path entries findings).unapproved
      ∙ ap (λ b. is_zero run.status && b) (weigh_lem d.path findings)

  all_documents :
      (documents : List GeneratedDocument) (run : GateRun)
      → is_zero (compare_documents t g today entries documents run).status
        ≡ is_zero run.status && all_clean documents
  unfolding compare_documents
  all_documents [] run = and_one (is_zero run.status)
  all_documents (d ∷ documents) run =
      all_documents documents (compare_document t g today entries d d.baseline run)
      ∙ ap (λ b. b && all_clean documents) (one_document d d.baseline run)
      ∙ and_assoc (is_zero run.status) (is_clean_against d d.baseline) (all_clean documents)

  zero_iff : (n : ℕ) → (n ≡ 0) ↔ (is_zero n ≡ true)
  unfolding is_zero
  zero_iff zero = ((λ h. refl), (λ h. refl))
  zero_iff (suc n) = ((λ h. absurd (omega (arith, h))), (λ h. cc))

  -- A run has the status zero exactly where documents were generated, each of them has a baseline, and each
  -- breaking finding against one is covered by an entry of the register.
  pub main_clean_iff :
      (documents : List GeneratedDocument)
      → ((main t g today entries documents).status ≡ 0)
        ↔ ((documents ≢ []) × (all_clean documents ≡ true))
  unfolding main is_clean_against is_zero
  main_clean_iff [] =
      ((λ h. absurd (omega (arith, h))), (λ (some_documents, clean). absurd (some_documents refl)))
  main_clean_iff (d ∷ documents) =
      let whole = all_documents (d ∷ documents) (record { status = 0; used = [] }) in
      let final =
        (compare_documents t g today entries (d ∷ documents)
          (record { status = 0; used = [] })).status in
      (
        (λ h. ((λ e. cc), sym whole ∙ (zero_iff final).0 h)),
        (λ (some_documents, clean). (zero_iff final).1 (whole ∙ clean)),
      )
