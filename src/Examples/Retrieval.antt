-- ===== src/Examples/Retrieval.antt =====
-- Retrieval on concrete chunks, and the theorems about it applied to those.
use itsm_poc.Common.{
  ℕ, ◌+◌, ◌*◌, ◌/◌, Bool, true, false, ◌||◌, List, [], ◌∷◌, map, any, matching, String, str_eq, ok,
  ◌≡◌, refl, arith, if◌then◌else◌, length-map,
}
use itsm_poc.Retrieval.Hybrid.{FloatArithmetic, RetrievedChunk, fuse}
use itsm_poc.Retrieval.Hybrid.Merged.{cites}
use itsm_poc.Retrieval.Hybrid.Fused.{fused_chunks, retrieved_once}
use itsm_poc.Retrieval.Rerank.{RerankOutcome, rerank}
use itsm_poc.Retrieval.Rerank.Heads.{result_refers}
use itsm_poc.Examples.Inputs.{cents}

-- Whole hundredths: a quotient and a product are rounded down.
abbrev cent_arithmetic : FloatArithmetic cents
cent_arithmetic = record {
  divide = λ (a b : ℕ). a * 100 / b;
  times = λ (a b : ℕ). a * b / 100;
  plus = λ (a b : ℕ). a + b;
}

-- Enough of an order for the references below.
abbrev text_before : String → String → Bool
text_before a b = str_eq a "kb-1"

abbrev dense : List (RetrievedChunk cents)
dense =
    record { content = "reset a password"; score = 80; source_reference = "kb-1" }
    ∷ record { content = "unlock an account"; score = 40; source_reference = "kb-2" }
    ∷ []

abbrev sparse : List (RetrievedChunk cents)
sparse = record { content = "unlock an account"; score = 9; source_reference = "kb-2" } ∷ []

fused_in_order :
    fuse cent_arithmetic text_before dense sparse 3
    ≡ record {
      content = "unlock an account";
      score = 70;
      source_reference = "kb-2";
      from_dense = true;
      from_sparse = true;
    }
      ∷ record {
        content = "reset a password";
        score = 60;
        source_reference = "kb-1";
        from_dense = true;
        from_sparse = false;
      }
      ∷ []
unfolding fuse
fused_in_order = refl

retrieved_once_example :
    (out : RerankOutcome cents) × (rerank
        (fused_chunks cent_arithmetic text_before)
        text_before
        (map (λ passage. 50))
        (fuse cent_arithmetic text_before dense sparse 3)
      ≡ ok out)
    × ((q : String)
        → matching
            (result_refers (fused_chunks cent_arithmetic text_before) text_before q)
            out.chunks
          ≡ (if any (cites cent_arithmetic q) dense || any (cites cent_arithmetic q) sparse
              then 1
              else 0))
retrieved_once_example =
    retrieved_once cent_arithmetic text_before dense sparse 3 (map (λ passage. 50)) (omega arith)
      (λ passages. length-map (λ passage. 50) passages)
