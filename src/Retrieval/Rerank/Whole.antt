-- ===== src/Retrieval/Rerank/Whole.antt =====
-- A rerank keeps the candidates: ragcore/src/ragcore/retrieval/rerank.py.
use itsm_poc.Common.{
  ◌+◌, ◌≤◌, Bool, true, false, List, [], ◌∷◌, ◌++◌, map, length, take, matching, String, ◌==◌, ok,
  err, if◌then◌else◌, ◌≡◌, refl, sym, ap, ◌∙◌, arith, matching-sort_by, matching-append,
  matching-split, matching-map, ok-injective, length-take, length-map, length-select, ==_iff,
}
use itsm_poc.Retrieval.Scores.{Scores}
use itsm_poc.Retrieval.Rerank.{
  Chunks, RerankedChunk, RerankOutcome, RerankError, rerank, gated, scored, rescored, kept,
  best_first, ordered, eligible_head, eligible_tail, is_in_head, minimum_rerank_score, rerank_top_k,
}
use itsm_poc.Retrieval.Rerank.Heads.{
  ChunkEquality, refers, result_refers, OncePer, head_of, members_of_head,
}

module _ {f : Scores} (c : Chunks f) (text_before : String → String → Bool) where
  open c use {Chunk, reference_of, same}

  taken :
      (b : Bool) (x : RerankOutcome f) (e : RerankError)
      → b ≡ true
      → (out : RerankOutcome f) × ((if b then ok x else err e) ≡ ok out)
  taken true x e h = (x, refl)
  taken false x e h = cc

  gated_returns :
      (reranker : List String → List f.Score) (head tail : List Chunk)
      → ((passages : List String) → length (reranker passages) ≡ length passages)
      → (out : RerankOutcome f) × (gated c text_before reranker head tail ≡ ok out)
  unfolding gated scored
  gated_returns reranker [] tail answers = (_, refl)
  gated_returns reranker (a ∷ head) tail answers =
      let scores = reranker (map c.content_of (a ∷ head)) in
      let whole : length scores ≡ length (a ∷ head) =
        answers (map c.content_of (a ∷ head)) ∙ length-map c.content_of (a ∷ head) in
      taken (length scores == length (a ∷ head)) _ _
        ((==_iff (length scores) (length (a ∷ head))).1 whole)

  module _ (e : ChunkEquality c) where
    rescored_counts :
        (q : String) (head : List Chunk) (scores : List f.Score)
        → length scores ≡ length head
        → matching (result_refers c text_before q) (rescored c text_before head scores)
          ≡ matching (refers c text_before q) head
    unfolding rescored
    rescored_counts q [] scores same_length = refl
    rescored_counts q (a ∷ head) [] same_length = absurd (omega (arith, same_length))
    rescored_counts q (a ∷ head) (score ∷ scores) same_length =
        let rest = rescored_counts q head scores (omega (arith, same_length)) in ground arith

    kept_counts :
        (q : String) (tail : List Chunk)
        → matching (result_refers c text_before q) (map (kept c text_before) tail)
          ≡ matching (refers c text_before q) tail
    unfolding kept
    kept_counts q tail = matching-map (result_refers c text_before q) (kept c text_before) tail

    accepted :
        (reranker : List String → List f.Score) (head tail : List Chunk) {out : RerankOutcome f}
        → scored c text_before reranker head tail ≡ ok out
        → (length (reranker (map c.content_of head)) ≡ length head)
          × (out.chunks
              ≡ best_first c text_before
                  (rescored c text_before head (reranker (map c.content_of head)))
                ++ map (kept c text_before) tail)
          × (out.considered ≡ length head)
    unfolding scored
    accepted reranker head tail ran = ground arith

    best_first_counts :
        (q : String) (chunks : List (RerankedChunk f))
        → matching (result_refers c text_before q) (best_first c text_before chunks)
          ≡ matching (result_refers c text_before q) chunks
    unfolding best_first
    best_first_counts q chunks = matching-sort_by _ (result_refers c text_before q) chunks

    scored_counts :
        (reranker : List String → List f.Score) (head tail : List Chunk) {out : RerankOutcome f}
        → scored c text_before reranker head tail ≡ ok out
        → ((q : String)
            → matching (result_refers c text_before q) out.chunks
              ≡ matching (refers c text_before q) head + matching (refers c text_before q) tail)
          × (out.considered ≡ length head)
    scored_counts reranker head tail {out} ran =
        let scores = reranker (map c.content_of head) in
        let (same_length, chunks_are, considered_is) =
          accepted reranker head tail {out = out} ran in
        (
          (λ q.
              ap (matching (result_refers c text_before q)) chunks_are
              ∙ matching-append (result_refers c text_before q)
                  (best_first c text_before (rescored c text_before head scores))
                  (map (kept c text_before) tail)
              ∙ ap
                  (λ n.
                    n + matching (result_refers c text_before q) (map (kept c text_before) tail))
                  (best_first_counts q (rescored c text_before head scores)
                    ∙ rescored_counts q head scores same_length)
              ∙ ap (λ n. matching (refers c text_before q) head + n) (kept_counts q tail)),
          considered_is,
        )

    gated_counts :
        (reranker : List String → List f.Score) (head tail : List Chunk) {out : RerankOutcome f}
        → gated c text_before reranker head tail ≡ ok out
        → ((q : String)
            → matching (result_refers c text_before q) out.chunks
              ≡ matching (refers c text_before q) head + matching (refers c text_before q) tail)
          × (out.considered ≡ length head)
    unfolding gated
    gated_counts reranker [] tail {out} ran =
        let made = ok-injective ran in
        (
          (λ q.
              ap (λ (o : RerankOutcome f). matching (result_refers c text_before q) o.chunks)
                (sym made)
              ∙ kept_counts q tail
              ∙ omega arith),
          ap (λ (o : RerankOutcome f). o.considered) (sym made),
        )
    gated_counts reranker (a ∷ head) tail {out} ran =
        scored_counts reranker (a ∷ head) tail {out = out} ran

    divided :
        (q : String) (chunks : List Chunk)
        → OncePer c text_before chunks
        → matching (refers c text_before q) (eligible_head c text_before chunks)
            + matching (refers c text_before q) (eligible_tail c text_before chunks)
          ≡ matching (refers c text_before q) chunks
    unfolding eligible_head eligible_tail ordered head_of
    divided q chunks once =
        let all = ordered c text_before chunks in
        let keep : Chunk → Bool = λ a. f.le (minimum_rerank_score c text_before) (c.score_of a) in
        let head = head_of c text_before e keep rerank_top_k all in
        let count_all : (r : String)
            → matching (refers c text_before r) all ≡ matching (refers c text_before r) chunks =
          λ r. matching-sort_by _ (refers c text_before r) chunks in
        let whole =
          members_of_head c text_before e keep rerank_top_k all
            (λ r. omega (arith, once r, count_all r)) in
        let both =
          matching-split (refers c text_before q) (λ (b : Chunk). is_in_head c text_before head b)
            all in
        ap
          (λ h.
            matching (refers c text_before q) h
            + matching (refers c text_before q) (eligible_tail c text_before chunks))
          (sym whole)
        ∙ both
        ∙ count_all q

    few_considered :
        (chunks : List Chunk) → length (eligible_head c text_before chunks) ≤ rerank_top_k
    unfolding eligible_head
    few_considered chunks =
        let all = ordered c text_before chunks in
        omega (
          arith,
          length-select (λ (a : Chunk). f.le (minimum_rerank_score c text_before) (c.score_of a))
              (take rerank_top_k all),
          length-take rerank_top_k all,
        )

    -- Of candidates with distinct references a rerank loses and repeats none, whatever the reranker
    -- answers: each reference stands in the result as often as among the candidates. At most five
    -- candidates were sent to the reranker.
    pub rerank_keeps :
        (reranker : List String → List f.Score) (chunks : List Chunk) {out : RerankOutcome f}
        → OncePer c text_before chunks
        → rerank c text_before reranker chunks ≡ ok out
        → ((q : String)
            → matching (result_refers c text_before q) out.chunks
              ≡ matching (refers c text_before q) chunks)
          × (out.considered ≤ 5)
    unfolding rerank
    rerank_keeps reranker chunks {out} once ran =
        let head = eligible_head c text_before chunks in
        let tail = eligible_tail c text_before chunks in
        let (counts, size) = gated_counts reranker head tail {out = out} ran in
        ((λ q. counts q ∙ divided q chunks once), omega (arith, size, few_considered chunks))

  -- Where the reranker gives each passage a score, the rerank returns.
  pub rerank_returns :
      (reranker : List String → List f.Score) (chunks : List Chunk)
      → ((passages : List String) → length (reranker passages) ≡ length passages)
      → (out : RerankOutcome f) × (rerank c text_before reranker chunks ≡ ok out)
  unfolding rerank
  rerank_returns reranker chunks answers =
      gated_returns reranker (eligible_head c text_before chunks)
        (eligible_tail c text_before chunks) answers
