-- ===== src/Retrieval/Hybrid/Fused.antt =====
-- The fused chunks, and their rerank: ragcore/src/ragcore/retrieval/hybrid.py and rerank.py.
use itsm_poc.Common.{
  ℕ, ◌+◌, ◌≤◌, Bool, ◌&&◌, ◌||◌, not, if◌then◌else◌, List, map, any, length, select, sort_by,
  matching, String, str_eq, ok, ◌≡◌, refl, ap, ◌∙◌, arith, All, All-take, All-sort_by, All-map,
  matching-sort_by, matching-take, take_whole, length-take, length-sort_by, length-map,
  length-append, length-select, str_eq_iff, true, false, inl, inr,
}
use itsm_poc.Retrieval.Scores.{Scores}
use itsm_poc.Retrieval.Hybrid.{
  FloatArithmetic, RetrievedChunk, FusedChunk, Hit, normalised, names, references, fused_chunk,
  fused_all, fuse,
}
use itsm_poc.Retrieval.Hybrid.Merged.{
  cites, fused_cites, bit, count_fused, length-normalised, any-normalised, is_hit_lem,
}
use itsm_poc.Retrieval.Rerank.{Chunks, RerankOutcome, rerank}
use itsm_poc.Retrieval.Rerank.Heads.{ChunkEquality, result_refers}
use itsm_poc.Retrieval.Rerank.Whole.{rerank_keeps, rerank_returns}

module _ {f : Scores} (a : FloatArithmetic f) (text_before : String → String → Bool) where
  -- What a fused chunk says of where it came from is so.
  pub record Found (dense sparse : List (RetrievedChunk f)) (c : FusedChunk f) : Type 0 where
    pub dense_flag : c.from_dense ≡ any (cites a c.source_reference) dense
    pub sparse_flag : c.from_sparse ≡ any (cites a c.source_reference) sparse

  fused_all-Found :
      (dense sparse : List (RetrievedChunk f)) → All (Found dense sparse) (fused_all a dense sparse)
  unfolding fused_all fused_chunk
  fused_all-Found dense sparse =
      All-map (fused_chunk a (normalised a dense) (normalised a sparse)) (Found dense sparse)
        (λ r. record {
          dense_flag = is_hit_lem a r (normalised a dense) ∙ any-normalised a dense r;
          sparse_flag = is_hit_lem a r (normalised a sparse) ∙ any-normalised a sparse r;
        })
        (references a (normalised a dense) (normalised a sparse))

  -- At most the limit is returned, and each chunk carries the flags of the retrievals that found it.
  pub fuse-Found :
      (dense sparse : List (RetrievedChunk f)) (limit : ℕ)
      → (length (fuse a text_before dense sparse limit) ≤ limit)
        × All (Found dense sparse) (fuse a text_before dense sparse limit)
  unfolding fuse
  fuse-Found dense sparse limit = (
    length-take limit _,
    All-take (Found dense sparse) limit _ (
        All-sort_by _ (Found dense sparse) (fused_all a dense sparse)
          (fused_all-Found dense sparse)),
  )

  length-references :
      (dense sparse : List (Hit f))
      → length (references a dense sparse) ≤ length dense + length sparse
  unfolding references
  length-references dense sparse =
      let reference : Hit f → String = λ h. h.reference in
      omega (
        arith,
        length-append (map reference dense)
            (select (λ r. not (names a dense r)) (map reference sparse)),
        length-select (λ r. not (names a dense r)) (map reference sparse),
        length-map reference dense,
        length-map reference sparse,
      )

  length-fused_all :
      (dense sparse : List (RetrievedChunk f))
      → length (fused_all a dense sparse) ≤ length dense + length sparse
  unfolding fused_all
  length-fused_all dense sparse =
      let d = normalised a dense in
      let s = normalised a sparse in
      omega (
        arith,
        length-map (fused_chunk a d s) (references a d s),
        length-references d s,
        length-normalised a dense,
        length-normalised a sparse,
      )

  -- A fusion returns no reference twice, and without a cut it returns each reference of either retrieval once
  -- and no other.
  pub fuse_once :
      (dense sparse : List (RetrievedChunk f)) (limit : ℕ) (q : String)
      → (matching (fused_cites a q) (fuse a text_before dense sparse limit) ≤ 1)
        × (length dense + length sparse ≤ limit
            → matching (fused_cites a q) (fuse a text_before dense sparse limit)
              ≡ (if any (cites a q) dense || any (cites a q) sparse then 1 else 0))
  unfolding fuse
  fuse_once dense sparse limit q =
      let all = fused_all a dense sparse in
      let counted = count_fused a dense sparse q in
      let few : bit a (any (cites a q) dense || any (cites a q) sparse) ≤ 1 = ground arith in
      (
        omega (
          arith,
          matching-take (fused_cites a q) limit (sort_by _ all),
          matching-sort_by _ (fused_cites a q) all,
          counted,
          few,
        ),
        (λ wide.
            ap (matching (fused_cites a q)) (
              take_whole limit (sort_by _ all)
                (omega (arith, length-sort_by _ all, length-fused_all dense sparse, wide)))
            ∙ matching-sort_by _ (fused_cites a q) all
            ∙ counted),
      )

  -- `==` of two fused chunks compares their fields.
  same_flag : Bool → Bool → Bool
  same_flag true b = b
  same_flag false b = not b

  unfoldable pub same_fused : FusedChunk f → FusedChunk f → Bool
  unfolding same_flag
  same_fused x y =
      str_eq x.source_reference y.source_reference
      && (str_eq x.content y.content
          && (f.le x.score y.score
              && (f.le y.score x.score
                  && (same_flag x.from_dense y.from_dense
                      && same_flag x.from_sparse y.from_sparse))))

  abbrev pub fused_chunks : Chunks f
  fused_chunks = record {
    Chunk = FusedChunk f;
    content_of = λ (c : FusedChunk f). c.content;
    score_of = λ (c : FusedChunk f). c.score;
    reference_of = λ (c : FusedChunk f). c.source_reference;
    same = same_fused;
  }

  same_flag_self : (b : Bool) → same_flag b b ≡ true
  unfolding same_flag
  same_flag_self true = refl
  same_flag_self false = refl

  le_self : (s : f.Score) → f.le s s ≡ true
  le_self s = elim (f.le_total s s) [ inl e ↦ e | inr e ↦ e ]

  fused_equality : ChunkEquality fused_chunks
  unfolding same_fused
  fused_equality = record {
    same_self = λ x.
        rw
          (
            (str_eq_iff x.source_reference x.source_reference).1 refl,
            (str_eq_iff x.content x.content).1 refl,
            le_self x.score,
            same_flag_self x.from_dense,
            same_flag_self x.from_sparse,
          )
          refl;
    same_reference = λ x y h. (str_eq_iff x.source_reference y.source_reference).0 (ground arith);
  }

  -- A rerank of an uncut fusion, where the reranker gives each passage a score, returns, and its result
  -- holds each reference of either retrieval once and no other.
  pub retrieved_once :
      (dense sparse : List (RetrievedChunk f)) (limit : ℕ) (reranker : List String → List f.Score)
      → length dense + length sparse ≤ limit
      → ((passages : List String) → length (reranker passages) ≡ length passages)
      → (out : RerankOutcome f) × (rerank fused_chunks text_before reranker
            (fuse a text_before dense sparse limit)
          ≡ ok out)
        × ((q : String)
            → matching (result_refers fused_chunks text_before q) out.chunks
              ≡ (if any (cites a q) dense || any (cites a q) sparse then 1 else 0))
  retrieved_once dense sparse limit reranker wide answers =
      let all = fuse a text_before dense sparse limit in
      let (out, ran) = rerank_returns fused_chunks text_before reranker all answers in
      let (counts, few) =
        rerank_keeps fused_chunks text_before fused_equality reranker all {out = out}
          (λ q. (fuse_once dense sparse limit q).0) ran in
      (out, ran, λ q. counts q ∙ (fuse_once dense sparse limit q).1 wide)
