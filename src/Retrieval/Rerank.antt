-- ===== src/Retrieval/Rerank.antt =====
-- The gated rerank of fused candidates: ragcore/src/ragcore/retrieval/rerank.py.
pub mod Heads
pub mod Whole
use itsm_poc.Common.{
  ℕ, Bool, true, false, not, ◌&&◌, ◌||◌, List, [], ◌∷◌, ◌++◌, map, any, length, take, select,
  sort_by, String, str_eq, ◌==◌, Result, ok, err, ◌>>=◌, if◌then◌else◌, ◌≡◌,
}
use itsm_poc.Retrieval.Scores.{Scores}

-- `sorted` by descending score and then by reference; the order of texts is the language's.
unfoldable pub before :
    (f : Scores) → (String → String → Bool) → f.Score → String → f.Score → String → Bool
before f text_before score reference other other_reference =
    not (f.le score other)
    || (f.le score other && (f.le other score && text_before reference other_reference))

pub record RerankedChunk (f : Scores) : Type 0 where
  pub content : String
  pub score : f.Score
  pub source_reference : String
  pub was_reranked : Bool

pub record RerankOutcome (f : Scores) : Type 0 where
  pub chunks : List (RerankedChunk f)
  pub considered : ℕ

pub data RerankError : Type 0 where
  contract_broken : (passages scores : ℕ) → RerankError

-- A class of chunks: what `RetrievedChunk` reads of one, and its `==`.
pub record Chunks (f : Scores) : Type 1 where
  pub Chunk : Type 0
  pub content_of : Chunk → String
  pub score_of : Chunk → f.Score
  pub reference_of : Chunk → String
  pub same : Chunk → Chunk → Bool

abbrev pub rerank_top_k : ℕ
rerank_top_k = 5

module _ {f : Scores} (c : Chunks f) (text_before : String → String → Bool) where
  open c use {Chunk, content_of, score_of, reference_of, same}

  unfoldable pub ordered : List Chunk → List Chunk
  unfolding before
  ordered chunks =
      sort_by
        (λ (a b : Chunk).
          before f text_before (score_of a) (reference_of a) (score_of b) (reference_of b))
        chunks

  unfoldable pub minimum_rerank_score : f.Score
  minimum_rerank_score = f.hundredths 25

  unfoldable pub eligible_head : List Chunk → List Chunk
  unfolding ordered minimum_rerank_score
  eligible_head chunks =
      select (λ (a : Chunk). f.le minimum_rerank_score (score_of a))
        (take rerank_top_k (ordered chunks))

  -- `chunk in head`.
  unfoldable pub is_in_head : List Chunk → Chunk → Bool
  is_in_head head a = any (λ (b : Chunk). same a b) head

  unfoldable pub eligible_tail : List Chunk → List Chunk
  unfolding ordered eligible_head is_in_head
  eligible_tail chunks =
      select (λ (a : Chunk). not (is_in_head (eligible_head chunks) a)) (ordered chunks)

  unfoldable pub kept : Chunk → RerankedChunk f
  kept a = record {
    content = content_of a;
    score = score_of a;
    source_reference = reference_of a;
    was_reranked = false;
  }

  -- `zip`; the lengths were compared before.
  unfoldable pub rescored : List Chunk → List f.Score → List (RerankedChunk f)
  rescored [] scores = []
  rescored (a ∷ head) [] = []
  rescored (a ∷ head) (score ∷ scores) =
      record {
        content = content_of a;
        score = score;
        source_reference = reference_of a;
        was_reranked = true;
      }
      ∷ rescored head scores

  unfoldable pub best_first : List (RerankedChunk f) → List (RerankedChunk f)
  unfolding before
  best_first chunks =
      sort_by
        (λ (a b : RerankedChunk f).
          before f text_before a.score a.source_reference b.score b.source_reference)
        chunks

  unfoldable pub scored :
      (List String → List f.Score) → (head tail : List Chunk) → Result RerankError (RerankOutcome f)
  unfolding rescored kept best_first
  scored reranker head tail =
      let scores = reranker (map content_of head) in
      if length scores == length head
      then ok (record {
        chunks = best_first (rescored head scores) ++ map kept tail;
        considered = length head;
      })
      else err (contract_broken (length head) (length scores))

  -- Without a head the reranker is not called.
  unfoldable pub gated :
      (List String → List f.Score) → (head tail : List Chunk) → Result RerankError (RerankOutcome f)
  unfolding scored kept
  gated reranker [] tail = ok (record { chunks = map kept tail; considered = 0 })
  gated reranker (a ∷ head) tail = scored reranker (a ∷ head) tail

  -- The reranker is the port's answer for the organisation and the query.
  unfoldable pub rerank :
      (reranker : List String → List f.Score) → List Chunk → Result RerankError (RerankOutcome f)
  unfolding gated eligible_head eligible_tail
  rerank reranker chunks = gated reranker (eligible_head chunks) (eligible_tail chunks)
