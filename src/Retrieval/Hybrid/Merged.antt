-- ===== src/Retrieval/Hybrid/Merged.antt =====
-- What a fusion returns of the two retrievals: ragcore/src/ragcore/retrieval/hybrid.py.
use itsm_poc.Common.{
  ℕ, suc, ◌+◌, ◌≤◌, Bool, true, not, ◌||◌, List, [], ◌∷◌, map, any, length, select, matching,
  String, str_eq, if◌then◌else◌, ◌≡◌, refl, sym, ap, ◌∙◌, arith, matching-append, matching-map,
  str_eq_iff, Bool-cases, inl, inr, or_assoc,
}
use itsm_poc.Retrieval.Scores.{Scores}
use itsm_poc.Retrieval.Hybrid.{
  FloatArithmetic, RetrievedChunk, FusedChunk, Hit, put_hit, put_hits, normalised, hit_of, is_hit,
  names, references, fused_chunk, fused_all, scale_by, best_of,
}

module _ {f : Scores} (a : FloatArithmetic f) where
  abbrev pub named : String → Hit f → Bool
  named q h = str_eq h.reference q

  abbrev pub cites : String → RetrievedChunk f → Bool
  cites q c = str_eq c.source_reference q

  abbrev pub bit : Bool → ℕ
  bit b = if b then 1 else 0

  -- Each reference stands once among the hits.
  Keyed : List (Hit f) → Type 0
  Keyed hits = (q : String) → matching (named q) hits ≡ bit (any (named q) hits)

  any-put_hit :
      (h : Hit f) (hits : List (Hit f)) (q : String)
      → any (named q) (put_hit a h hits) ≡ any (named q) hits || named q h
  unfolding put_hit
  any-put_hit h [] q = ground arith
  any-put_hit h (x ∷ hits) q = elim (Bool-cases (str_eq x.reference h.reference)) [
    | inl e ↦
        let same = (str_eq_iff x.reference h.reference).0 e in
        rw (e, same, if◌then◌else◌) (ground arith)
    | inr e ↦ let rest = any-put_hit h hits q in rw (e, if◌then◌else◌) (ground arith)
  ]

  matching-put_hit :
      (h : Hit f) (hits : List (Hit f)) (q : String)
      → matching (named q) (put_hit a h hits) ≡ (
          if any (named h.reference) hits
          then matching (named q) hits
          else matching (named q) hits + bit (named q h))
  unfolding put_hit
  matching-put_hit h [] q = ground arith
  matching-put_hit h (x ∷ hits) q = elim (Bool-cases (str_eq x.reference h.reference)) [
    | inl e ↦
        let same = (str_eq_iff x.reference h.reference).0 e in
        rw (e, same, if◌then◌else◌) (ground arith)
    | inr e ↦ let rest = matching-put_hit h hits q in rw (e, if◌then◌else◌) (ground arith)
  ]

  named_same : (q : String) (h : Hit f) → named q h ≡ true → h.reference ≡ q
  named_same q h e = (str_eq_iff h.reference q).0 e

  put-Keyed : (h : Hit f) (hits : List (Hit f)) → Keyed hits → Keyed (put_hit a h hits)
  unfolding Keyed
  put-Keyed h hits keyed q =
      let counted = matching-put_hit h hits q in
      let found = any-put_hit h hits q in
      let before_put = keyed q in
      elim (Bool-cases (named q h)) [
        | inl e ↦
            let same : any (named h.reference) hits ≡ any (named q) hits =
              ap (λ r. any (named r) hits) (named_same q h e) in
            ground arith
        | inr e ↦ ground arith
      ]

  abbrev hit_from : f.Score → RetrievedChunk f → Hit f
  hit_from score c = record { reference = c.source_reference; score = score; content = c.content }

  nothing-Keyed : Keyed []
  unfolding Keyed
  nothing-Keyed q = refl

  put_hits-Keyed :
      (scale : f.Score → f.Score) (hits : List (Hit f)) (cs : List (RetrievedChunk f))
      → Keyed hits
      → Keyed (put_hits a scale hits cs)
  unfolding put_hits
  put_hits-Keyed scale hits [] keyed = keyed
  put_hits-Keyed scale hits (c ∷ cs) keyed =
      let h = hit_from (scale c.score) c in
      put_hits-Keyed scale (put_hit a h hits) cs (put-Keyed h hits keyed)

  any-put_hits :
      (scale : f.Score → f.Score) (hits : List (Hit f)) (cs : List (RetrievedChunk f)) (q : String)
      → any (named q) (put_hits a scale hits cs) ≡ any (named q) hits || any (cites q) cs
  unfolding put_hits
  any-put_hits scale hits [] q = ground arith
  any-put_hits scale hits (c ∷ cs) q =
      let h = hit_from (scale c.score) c in
      any-put_hits scale (put_hit a h hits) cs q
      ∙ ap (λ b. b || any (cites q) cs) (any-put_hit h hits q)
      ∙ sym (or_assoc (any (named q) hits) (cites q c) (any (cites q) cs))

  normalised-Keyed : (cs : List (RetrievedChunk f)) → Keyed (normalised a cs)
  unfolding normalised
  normalised-Keyed [] = nothing-Keyed
  normalised-Keyed (c ∷ cs) = put_hits-Keyed _ [] (c ∷ cs) nothing-Keyed

  pub any-normalised :
      (cs : List (RetrievedChunk f)) (q : String)
      → any (named q) (normalised a cs) ≡ any (cites q) cs
  unfolding normalised
  any-normalised [] q = refl
  any-normalised (c ∷ cs) q = any-put_hits _ [] (c ∷ cs) q

  length-put : (h : Hit f) (hits : List (Hit f)) → length (put_hit a h hits) ≤ suc (length hits)
  unfolding put_hit
  length-put h [] = omega arith
  length-put h (x ∷ hits) = let rest = length-put h hits in ground arith

  length-put_hits :
      (scale : f.Score → f.Score) (hits : List (Hit f)) (cs : List (RetrievedChunk f))
      → length (put_hits a scale hits cs) ≤ length hits + length cs
  unfolding put_hits
  length-put_hits scale hits [] = omega arith
  length-put_hits scale hits (c ∷ cs) =
      let h = hit_from (scale c.score) c in
      omega (arith, length-put_hits scale (put_hit a h hits) cs, length-put h hits)

  pub length-normalised : (cs : List (RetrievedChunk f)) → length (normalised a cs) ≤ length cs
  unfolding normalised
  length-normalised [] = omega arith
  length-normalised (c ∷ cs) =
      omega (arith, length-put_hits (scale_by a (best_of a c.score cs)) [] (c ∷ cs))

  pub is_hit_lem :
      (r : String) (hits : List (Hit f)) → is_hit a (hit_of a r hits) ≡ any (named r) hits
  unfolding is_hit hit_of
  is_hit_lem r [] = refl
  is_hit_lem r (x ∷ hits) = let rest = is_hit_lem r hits in ground arith

  -- The references that are not named before are counted as they were, the others not at all.
  count_new :
      (hits : List (Hit f)) (rs : List String) (q : String)
      → matching (λ r. str_eq r q) (select (λ r. not (names a hits r)) rs)
        ≡ (if names a hits q then 0 else matching (λ r. str_eq r q) rs)
  count_new hits [] q = ground arith
  count_new hits (r ∷ rs) q = elim (Bool-cases (str_eq r q)) [
    | inl e ↦
        let same : names a hits r ≡ names a hits q = ap (names a hits) ((str_eq_iff r q).0 e) in
        let rest = count_new hits rs q in ground arith
    | inr e ↦ let rest = count_new hits rs q in ground arith
  ]

  names_lem : (hits : List (Hit f)) (q : String) → names a hits q ≡ any (named q) hits
  unfolding names
  names_lem hits q = refl

  count_names :
      (hits : List (Hit f)) (q : String)
      → matching (λ r. str_eq r q) (map (λ (h : Hit f). h.reference) hits) ≡ matching (named q) hits
  count_names hits q = matching-map (λ r. str_eq r q) (λ (h : Hit f). h.reference) hits

  count_references :
      (dense sparse : List (Hit f)) (q : String)
      → Keyed dense
      → Keyed sparse
      → matching (λ r. str_eq r q) (references a dense sparse)
        ≡ bit (any (named q) dense || any (named q) sparse)
  unfolding references Keyed
  count_references dense sparse q d s =
      let split =
        matching-append (λ r. str_eq r q) (map (λ (h : Hit f). h.reference) dense)
          (select (λ r. not (names a dense r)) (map (λ (h : Hit f). h.reference) sparse)) in
      let new = count_new dense (map (λ (h : Hit f). h.reference) sparse) q in
      let named_dense = count_names dense q in
      let named_sparse = count_names sparse q in
      let is_named = names_lem dense q in
      let once_dense = d q in let once_sparse = s q in ground arith

  abbrev pub fused_cites : String → FusedChunk f → Bool
  fused_cites q c = str_eq c.source_reference q

  pub count_fused :
      (dense sparse : List (RetrievedChunk f)) (q : String)
      → matching (fused_cites q) (fused_all a dense sparse)
        ≡ bit (any (cites q) dense || any (cites q) sparse)
  unfolding fused_all fused_chunk
  count_fused dense sparse q =
      let d = normalised a dense in
      let s = normalised a sparse in
      matching-map (fused_cites q) (fused_chunk a d s) (references a d s)
      ∙ count_references d s q (normalised-Keyed dense) (normalised-Keyed sparse)
      ∙ ap (λ b. bit (b || any (named q) s)) (any-normalised dense q)
      ∙ ap (λ b. bit (any (cites q) dense || b)) (any-normalised sparse q)
