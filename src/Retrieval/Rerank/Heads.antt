-- ===== src/Retrieval/Rerank/Heads.antt =====
-- The candidates that a rerank sends to the reranker: ragcore/src/ragcore/retrieval/rerank.py.
use itsm_poc.Common.{
  ℕ, zero, suc, ◌≤◌, Bool, true, false, ◌||◌, List, [], ◌∷◌, take, select, matching, String, str_eq,
  if◌then◌else◌, ◌≡◌, refl, sym, ap, ◌∙◌, arith, All, All-weaken, All-select, All-take,
  matching_none, str_eq_iff, Bool-cases, inl, inr, select_same, any_none,
}
use itsm_poc.Retrieval.Scores.{Scores}
use itsm_poc.Retrieval.Rerank.{Chunks, RerankedChunk, is_in_head}

-- What `==` of a class of chunks is: an item equals itself, and equal items have one reference.
pub record ChunkEquality {f : Scores} (c : Chunks f) : Type 0 where
  pub same_self : (a : c.Chunk) → c.same a a ≡ true
  pub same_reference : (a b : c.Chunk) → c.same a b ≡ true → c.reference_of a ≡ c.reference_of b

module _ {f : Scores} (c : Chunks f) (text_before : String → String → Bool) where
  open c use {Chunk, reference_of, same}

  abbrev pub refers : String → Chunk → Bool
  refers q a = str_eq (reference_of a) q

  abbrev pub result_refers : String → RerankedChunk f → Bool
  result_refers q r = str_eq r.source_reference q

  -- No two candidates have one reference.
  abbrev pub OncePer : List Chunk → Type 0
  OncePer chunks = (q : String) → matching (refers q) chunks ≤ 1

  module _ (e : ChunkEquality c) where
    abbrev Unlike : Chunk → Chunk → Type 0
    Unlike a b = (same a b ≡ false) × (same b a ≡ false)

    unlike : (a b : Chunk) → refers (reference_of a) b ≡ false → Unlike a b
    unlike a b other =
        let differ : ¬ (reference_of b ≡ reference_of a) =
          λ one. let found = (str_eq_iff (reference_of b) (reference_of a)).1 one in cc in
        (
          elim (Bool-cases (same a b)) [
            | inl s ↦ absurd (differ (sym (e.same_reference a b s)))
            | inr s ↦ s
          ],
          elim (Bool-cases (same b a)) [
            | inl s ↦ absurd (differ (e.same_reference b a s))
            | inr s ↦ s
          ],
        )

    away :
        (a : Chunk) (rest : List Chunk) → OncePer (a ∷ rest) → All (λ (b : Chunk). Unlike a b) rest
    away a rest once =
        let here : refers (reference_of a) a ≡ true =
          (str_eq_iff (reference_of a) (reference_of a)).1 refl in
        let few : matching (refers (reference_of a)) (a ∷ rest) ≤ 1 = once (reference_of a) in
        All-weaken (λ (b : Chunk). refers (reference_of a) b ≡ false) (λ (b : Chunk). Unlike a b)
          (unlike a) rest (matching_none (refers (reference_of a)) rest (ground arith))

    fewer : (a : Chunk) (rest : List Chunk) → OncePer (a ∷ rest) → OncePer rest
    fewer a rest once q = let few : matching (refers q) (a ∷ rest) ≤ 1 = once q in ground arith

    unfoldable pub head_of : (Chunk → Bool) → ℕ → List Chunk → List Chunk
    head_of p n chunks = select p (take n chunks)

    abbrev members : List Chunk → List Chunk → List Chunk
    members head chunks = select (λ (b : Chunk). is_in_head c text_before head b) chunks

    members_with :
        (a : Chunk) (head rest : List Chunk)
        → All (λ (b : Chunk). Unlike a b) rest
        → members (a ∷ head) (a ∷ rest) ≡ a ∷ members head rest
    unfolding is_in_head
    members_with a head rest apart =
        rw (e.same_self a, if◌then◌else◌)
          (ap (λ xs. a ∷ xs)
            (select_same (λ (b : Chunk). same b a || is_in_head c text_before head b)
              (λ (b : Chunk). is_in_head c text_before head b) rest
              (All-weaken (λ (b : Chunk). Unlike a b)
                (λ (b : Chunk).
                  same b a || is_in_head c text_before head b ≡ is_in_head c text_before head b)
                (λ b (_, other). rw (other) refl) rest apart)))

    members_without :
        (a : Chunk) (head rest : List Chunk)
        → All (λ (b : Chunk). Unlike a b) head
        → members head (a ∷ rest) ≡ members head rest
    unfolding is_in_head
    members_without a head rest apart =
        rw
          (
            any_none (λ (b : Chunk). same a b) head
                (All-weaken (λ (b : Chunk). Unlike a b) (λ (b : Chunk). same a b ≡ false)
                  (λ b (other, _). other) head apart),
            if◌then◌else◌,
          )
          refl

    no_members : (chunks : List Chunk) → members [] chunks ≡ []
    unfolding is_in_head
    no_members [] = refl
    no_members (a ∷ rest) = no_members rest

    head_keeps :
        (p : Chunk → Bool) (n : ℕ) (a : Chunk) (rest : List Chunk)
        → p a ≡ true
        → head_of p (suc n) (a ∷ rest) ≡ a ∷ head_of p n rest
    unfolding head_of
    head_keeps p n a rest keep = rw (keep, if◌then◌else◌) refl

    head_drops :
        (p : Chunk → Bool) (n : ℕ) (a : Chunk) (rest : List Chunk)
        → p a ≡ false
        → head_of p (suc n) (a ∷ rest) ≡ head_of p n rest
    unfolding head_of
    head_drops p n a rest drop = rw (drop, if◌then◌else◌) refl

    head_none : (p : Chunk → Bool) (chunks : List Chunk) → head_of p zero chunks ≡ []
    unfolding head_of
    head_none p chunks = refl

    head_empty : (p : Chunk → Bool) (n : ℕ) → head_of p n [] ≡ []
    unfolding head_of
    head_empty p zero = refl
    head_empty p (suc n) = refl

    head_Unlike :
        (p : Chunk → Bool) (n : ℕ) (a : Chunk) (rest : List Chunk)
        → All (λ (b : Chunk). Unlike a b) rest
        → All (λ (b : Chunk). Unlike a b) (head_of p n rest)
    unfolding head_of
    head_Unlike p n a rest apart =
        All-select (λ (b : Chunk). Unlike a b) p (take n rest)
          (All-take (λ (b : Chunk). Unlike a b) n rest apart)

    -- The candidates that are in the head are the head.
    pub members_of_head :
        (p : Chunk → Bool) (n : ℕ) (chunks : List Chunk)
        → OncePer chunks
        → members (head_of p n chunks) chunks ≡ head_of p n chunks
    members_of_head p zero chunks once =
        ap (λ h. members h chunks) (head_none p chunks)
        ∙ no_members chunks
        ∙ sym (head_none p chunks)
    members_of_head p (suc n) [] once = sym (head_empty p (suc n))
    members_of_head p (suc n) (a ∷ rest) once =
        let apart = away a rest once in
        let later = members_of_head p n rest (fewer a rest once) in
        elim (Bool-cases (p a)) [
          | inl keep ↦
              let step = head_keeps p n a rest keep in
              ap (λ h. members h (a ∷ rest)) step
              ∙ members_with a (head_of p n rest) rest apart
              ∙ ap (λ xs. a ∷ xs) later
              ∙ sym step
          | inr drop ↦
              let step = head_drops p n a rest drop in
              ap (λ h. members h (a ∷ rest)) step
              ∙ members_without a (head_of p n rest) rest (head_Unlike p n a rest apart)
              ∙ later
              ∙ sym step
        ]
