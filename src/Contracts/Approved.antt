-- ===== src/Contracts/Approved.antt =====
-- The register of approved changes and the status of a run: `Approvals` and `main` of
-- build/scripts/openapi_diff.py. Reading files and printing are left out: a run is over the generated documents,
-- each with its baseline where there is one.
pub mod Clean
use itsm_poc.Common.{
  ℕ, suc, max, Bool, true, false, not, ◌&&◌, List, [], ◌∷◌, ◌++◌, any, Option, none, some, String,
  str_eq, ◌==◌, if◌then◌else◌,
}
use itsm_poc.Domain.Records.{JsonObject}
use itsm_poc.Contracts.Documents.{DocumentText}
use itsm_poc.Contracts.Compare.{Finding, Comparison, compare}

-- What an entry of the register is matched by; a missing date is the empty text.
pub record Approval : Type 0 where
  pub document : Option String
  pub finding : Option String
  pub expires_on : String

pub record GeneratedDocument : Type 0 where
  pub path : String
  pub baseline : Option JsonObject
  pub current : JsonObject

-- What a finding's text is, and the order of dates as texts.
pub record GateText : Type 0 where
  pub finding_text : Finding → String
  pub is_from : (date today : String) → Bool

abbrev pub breaking_status : ℕ
breaking_status = 1

abbrev pub missing_baseline : ℕ
missing_baseline = 2

abbrev pub matches_text : Option String → String → Bool
matches_text none text = false
matches_text (some s) text = str_eq s text

pub record GateRun : Type 0 where
  pub status : ℕ
  pub used : List ℕ

module _ (t : DocumentText) (g : GateText) (today : String) where
  unfoldable pub is_covering : (document finding : String) → Approval → Bool
  is_covering document finding a =
      matches_text a.document document
      && (matches_text a.finding finding && g.is_from a.expires_on today)

  -- `covers`: the index of the first entry that covers the finding.
  unfoldable pub covers : (document finding : String) → (index : ℕ) → List Approval → Option ℕ
  unfolding is_covering
  covers document finding index [] = none
  covers document finding index (a ∷ entries) =
      let later = covers document finding (suc index) entries in
      if is_covering document finding a then some index else later

  -- The findings that no entry covers, and the indices of the entries that covered the others.
  pub record Weighed : Type 0 where
    pub unapproved : List Finding
    pub used : List ℕ

  unfoldable pub weighed_with : Finding → Option ℕ → Weighed → Weighed
  weighed_with f none w = record w { unapproved = f ∷ w.unapproved }
  weighed_with f (some index) w = record w { used = index ∷ w.used }

  unfoldable pub weigh : (document : String) → List Approval → List Finding → Weighed
  unfolding covers weighed_with
  weigh document entries [] = record { unapproved = []; used = [] }
  weigh document entries (f ∷ findings) =
      weighed_with f (covers document (g.finding_text f) 0 entries)
        (weigh document entries findings)

  unfoldable pub status_of : (status : ℕ) → List Finding → ℕ
  status_of status [] = status
  status_of status (f ∷ unapproved) = breaking_status

  unfoldable pub compare_document :
      List Approval → GeneratedDocument → Option JsonObject → GateRun → GateRun
  unfolding weigh status_of compare
  compare_document entries d none run = record run { status = max run.status missing_baseline }
  compare_document entries d (some baseline) run =
      let w = weigh d.path entries (compare t baseline d.current).breaking in
      record { status = status_of run.status w.unapproved; used = run.used ++ w.used }

  unfoldable pub compare_documents : List Approval → List GeneratedDocument → GateRun → GateRun
  unfolding compare_document
  compare_documents entries [] run = run
  compare_documents entries (d ∷ documents) run =
      compare_documents entries documents (compare_document entries d d.baseline run)

  -- `main`, by its status and the entries used.
  unfoldable pub main : List Approval → List GeneratedDocument → GateRun
  unfolding compare_documents
  main entries [] = record { status = missing_baseline; used = [] }
  main entries (d ∷ documents) =
      compare_documents entries (d ∷ documents) (record { status = 0; used = [] })

  unused_from : (index : ℕ) → List ℕ → List Approval → List Approval
  unused_from index used [] = []
  unused_from index used (a ∷ entries) =
      let rest = unused_from (suc index) used entries in
      if any (λ i. index == i) used then rest else a ∷ rest

  -- `unused`.
  unfoldable pub unused : GateRun → List Approval → List Approval
  unfolding unused_from
  unused run entries = unused_from 0 run.used entries
