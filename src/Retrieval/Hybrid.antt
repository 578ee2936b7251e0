-- ===== src/Retrieval/Hybrid.antt =====
-- The fusion of dense and sparse retrieval: ragcore/src/ragcore/retrieval/hybrid.py.
pub mod Merged
pub mod Fused
use itsm_poc.Common.{
  ℕ, ◌*◌, max, Bool, true, false, not, ◌||◌, List, [], ◌∷◌, ◌++◌, map, any, take, select, sort_by,
  Option, none, some, String, str_eq, if◌then◌else◌,
}
use itsm_poc.Retrieval.Scores.{Scores}
use itsm_poc.Retrieval.Rerank.{before}

-- The arithmetic of the floating-point numbers that a fusion uses.
pub record FloatArithmetic (f : Scores) : Type 0 where
  pub divide : f.Score → f.Score → f.Score
  pub times : f.Score → f.Score → f.Score
  pub plus : f.Score → f.Score → f.Score

-- The fields of a retrieved chunk that a fusion reads.
pub record RetrievedChunk (f : Scores) : Type 0 where
  pub content : String
  pub score : f.Score
  pub source_reference : String

pub record FusedChunk (f : Scores) : Type 0 where
  pub content : String
  pub score : f.Score
  pub source_reference : String
  pub from_dense : Bool
  pub from_sparse : Bool

-- An entry of the mapping from references to scores and contents.
pub record Hit (f : Scores) : Type 0 where
  pub reference : String
  pub score : f.Score
  pub content : String

abbrev pub over_fetch : ℕ
over_fetch = 2

module _ {f : Scores} (a : FloatArithmetic f) where
  open f use {Score, le, hundredths}
  open a use {divide, times, plus}

  -- An assignment of a key: its entry keeps its place, or goes last.
  unfoldable pub put_hit : Hit f → List (Hit f) → List (Hit f)
  put_hit h [] = h ∷ []
  put_hit h (x ∷ hits) =
      let rest = put_hit h hits in if str_eq x.reference h.reference then h ∷ hits else x ∷ rest

  -- A dictionary comprehension over the chunks.
  unfoldable pub put_hits : (Score → Score) → List (Hit f) → List (RetrievedChunk f) → List (Hit f)
  unfolding put_hit
  put_hits scale hits [] = hits
  put_hits scale hits (c ∷ chunks) =
      put_hits scale
        (put_hit
          (record { reference = c.source_reference; score = scale c.score; content = c.content })
          hits)
        chunks

  unfoldable pub best_of : Score → List (RetrievedChunk f) → Score
  best_of best [] = best
  best_of best (c ∷ chunks) = best_of (if le c.score best then best else c.score) chunks

  unfoldable pub scale_by : Score → Score → Score
  scale_by best score = if le best (hundredths 0) then hundredths 0 else divide score best

  unfoldable pub normalised : List (RetrievedChunk f) → List (Hit f)
  unfolding put_hits best_of scale_by
  normalised [] = []
  normalised (c ∷ chunks) = put_hits (scale_by (best_of c.score chunks)) [] (c ∷ chunks)

  unfoldable pub hit_of : String → List (Hit f) → Option (Hit f)
  hit_of reference [] = none
  hit_of reference (x ∷ hits) =
      if str_eq x.reference reference then some x else hit_of reference hits

  unfoldable pub is_hit : Option (Hit f) → Bool
  is_hit none = false
  is_hit (some _) = true

  unfoldable pub score_or_zero : Option (Hit f) → Score
  score_or_zero none = hundredths 0
  score_or_zero (some h) = h.score

  unfoldable pub content_or : Option (Hit f) → Option (Hit f) → String
  content_or (some h) sparse = h.content
  content_or none (some h) = h.content
  content_or none none = ""

  unfoldable pub fused_chunk : List (Hit f) → List (Hit f) → String → FusedChunk f
  unfolding hit_of is_hit score_or_zero content_or
  fused_chunk dense sparse reference =
      let dense_hit = hit_of reference dense in
      let sparse_hit = hit_of reference sparse in
      record {
        content = content_or dense_hit sparse_hit;
        score =
            plus (times (hundredths 60) (score_or_zero dense_hit))
              (times (hundredths 40) (score_or_zero sparse_hit));
        source_reference = reference;
        from_dense = is_hit dense_hit;
        from_sparse = is_hit sparse_hit;
      }

  unfoldable pub names : List (Hit f) → String → Bool
  names hits reference = any (λ (h : Hit f). str_eq h.reference reference) hits

  -- The union of the keys. The order of a set is open, and the sort that follows settles it: no two
  -- fused chunks have one reference.
  unfoldable pub references : List (Hit f) → List (Hit f) → List String
  unfolding names
  references dense sparse =
      map (λ (h : Hit f). h.reference) dense
      ++ select (λ r. not (names dense r)) (map (λ (h : Hit f). h.reference) sparse)

  unfoldable pub fused_all : List (RetrievedChunk f) → List (RetrievedChunk f) → List (FusedChunk f)
  unfolding normalised references fused_chunk
  fused_all dense sparse =
      map (fused_chunk (normalised dense) (normalised sparse))
        (references (normalised dense) (normalised sparse))

  module _ (text_before : String → String → Bool) where
    unfoldable pub fuse :
        List (RetrievedChunk f) → List (RetrievedChunk f) → (limit : ℕ) → List (FusedChunk f)
    unfolding fused_all before
    fuse dense sparse limit = take limit (
        sort_by
          (λ (x y : FusedChunk f).
            before f text_before x.score x.source_reference y.score y.source_reference)
          (fused_all dense sparse))

    -- `HybridRetrieval.search`, over the two ports' answers for the organisation and the query.
    unfoldable pub search :
        (dense sparse : ℕ → List (RetrievedChunk f)) → (limit : ℕ) → List (FusedChunk f)
    unfolding fuse
    search dense sparse limit =
        let fetched = max 1 (limit * over_fetch) in fuse (dense fetched) (sparse fetched) limit
