-- ===== src/Retrieval/Scores.antt =====
-- The floating-point numbers that relevance scores are. The language has them and the model does
-- not: they are a parameter, with the laws that hold of the floats other than nan, taken up to
-- Python's `==`.
use itsm_poc.Common.{ℕ, Bool, true, leb, ◌≡◌, ◌⊎◌}

pub record Scores : Type 1 where
  pub Score : Type 0
  pub le : Score → Score → Bool
  pub sub : Score → Score → Score
  -- The literal of so many hundredths: 0.45 is `hundredths 45`.
  pub hundredths : ℕ → Score
  pub le_total : (a b : Score) → (le a b ≡ true) ⊎ (le b a ≡ true)
  pub le_trans : (a b c : Score) → le a b ≡ true → le b c ≡ true → le a c ≡ true
  pub le_antisym : (a b : Score) → le a b ≡ true → le b a ≡ true → a ≡ b
  pub le-hundredths : (m n : ℕ) → le (hundredths m) (hundredths n) ≡ leb m n
