-- ===== src/Retrieval/Confidence.antt =====
-- The two thresholds and the assessment of scores: ragcore/src/ragcore/retrieval/confidence.py.
use itsm_poc.Common.{Bool, false, ◌&&◌, List, [], ◌∷◌, if◌then◌else◌, map}
use itsm_poc.Retrieval.Scores.{Scores}

pub record Confidence (Score : Type 0) : Type 0 where
  pub top_score : Score
  pub margin : Score
  pub is_confident : Bool

module _ (f : Scores) where
  open f use {Score, le, sub, hundredths}

  unfoldable pub minimum_top_score : Score
  minimum_top_score = hundredths 45

  unfoldable pub minimum_margin : Score
  minimum_margin = hundredths 8

  unfoldable pub clears_thresholds : Score → Score → Bool
  unfolding minimum_top_score minimum_margin
  clears_thresholds top_score margin = le minimum_top_score top_score && le minimum_margin margin

  -- `sorted(..., reverse=True)` of the library, which keeps the order of equal items.
  unfoldable pub insert_desc : Score → List Score → List Score
  insert_desc x [] = x ∷ []
  insert_desc x (y ∷ ys) = let rest = insert_desc x ys in if le y x then x ∷ y ∷ ys else y ∷ rest

  unfoldable pub sorted_desc : List Score → List Score
  unfolding insert_desc
  sorted_desc [] = []
  sorted_desc (x ∷ xs) = insert_desc x (sorted_desc xs)

  margin_of : Score → List Score → Score
  margin_of top [] = top
  margin_of top (second ∷ rest) = sub top second

  assess_ordered : List Score → Confidence Score
  unfolding margin_of
  assess_ordered [] = record {
    top_score = hundredths 0;
    margin = hundredths 0;
    is_confident = false;
  }
  assess_ordered (top ∷ rest) =
      let margin = margin_of top rest in
      record { top_score = top; margin = margin; is_confident = clears_thresholds top margin }

  unfoldable pub assess_scores : List Score → Confidence Score
  unfolding assess_ordered sorted_desc
  assess_scores scores = assess_ordered (sorted_desc scores)

  -- `assess`, over any chunk type that carries a score.
  unfoldable pub assess : {Chunk : Type 0} → (Chunk → Score) → List Chunk → Confidence Score
  assess score chunks = assess_scores (map score chunks)
