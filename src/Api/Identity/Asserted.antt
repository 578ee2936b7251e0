-- ===== src/Api/Identity/Asserted.antt =====
-- Which requests the middleware of identities hands on: ragcore/src/ragcore/api/middleware/identity.py.
use itsm_poc.Common.{
  Bool, true, false, ◌||◌, ◌&&◌, not, List, [], ◌∷◌, any, String, str_eq, Option, none, some,
  if◌then◌else◌, ◌≡◌, ◌↔◌, refl, sym, subst, arith, or_assoc, or_true, ◌∙◌, ◌⊎◌, ◌≢◌, inl, inr,
  Bool-cases, str_eq_iff, In, not_in, In-counted, counted-In, any-matching, matching-any,
}
use itsm_poc.Api.Identity.{
  HeaderText, Scope, forbidden_client_fields, folded, is_forbidden, is_gateway_header,
  asserted_parameter, asserted_in, self_asserted_field, handed_on, handle_scope, by_offender,
}

module _ (t : HeaderText) (gateway_headers : List String) where
  unfoldable pub bad_header : String → Bool
  bad_header name =
      not (is_gateway_header t gateway_headers name) && is_forbidden t gateway_headers name

  unfoldable pub bad_pair : String → Bool
  bad_pair pair = not (str_eq pair "") && is_forbidden t gateway_headers (t.before_mark "=" pair)

  is_there : Option String → Bool
  is_there none = false
  is_there (some _) = true

  -- The two tests of one name, and what the rest found.
  chosen :
      (passed forbidden : Bool) (name : String) (rest : Option String) (later : Bool)
      → is_there rest ≡ later
      → is_there (if passed then rest else if forbidden then some name else rest)
        ≡ (not passed && forbidden) || later
  unfolding is_there
  chosen true forbidden name rest later h = h
  chosen false true name rest later h = refl
  chosen false false name rest later h = h

  pairs_lem :
      (pairs : List String)
      → is_there (asserted_parameter t gateway_headers pairs) ≡ any bad_pair pairs
  unfolding asserted_parameter bad_pair is_there
  pairs_lem [] = refl
  pairs_lem (pair ∷ pairs) =
      chosen (str_eq pair "") (is_forbidden t gateway_headers (t.before_mark "=" pair))
        (t.before_mark "=" pair) (asserted_parameter t gateway_headers pairs) (any bad_pair pairs)
        (pairs_lem pairs)

  names_lem :
      (names : List String) (query : String)
      → is_there (asserted_in t gateway_headers names query)
        ≡ any bad_header names || any bad_pair (t.split "&" query)
  unfolding asserted_in bad_header is_there
  names_lem [] query = pairs_lem (t.split "&" query)
  names_lem (name ∷ names) query =
      chosen (is_gateway_header t gateway_headers name) (is_forbidden t gateway_headers name) name
        (asserted_in t gateway_headers names query)
        (any bad_header names || any bad_pair (t.split "&" query)) (names_lem names query)
      ∙ or_assoc (bad_header name) (any bad_header names) (any bad_pair (t.split "&" query))

  handed :
      (o : Option String) → (by_offender t gateway_headers o ≡ handed_on) ↔ (is_there o ≡ false)
  unfolding by_offender is_there
  handed none = ((λ h. refl), (λ h. refl))
  handed (some offender) = ((λ h. cc), (λ h. cc))

  -- A name claims authority: without its case, its dashes and its underscores it is a forbidden one, or it is
  -- without an x before it.
  pub record Claims (name : String) : Type 0 where
    pub field : String
    pub forbidden : In field forbidden_client_fields
    pub spelled :
        (t.without "_" (t.without "-" (t.lower name)) ≡ field)
        ⊎ (t.without_prefix "x" (t.without "_" (t.without "-" (t.lower name))) ≡ field)

  -- A header that is not the gateway's and claims authority.
  pub record HeaderClaims (name : String) : Type 0 where
    pub foreign : ¬ In (t.lower name) gateway_headers
    pub claims : Claims name

  -- A part of the query string that names a parameter, before any decoding, and so claims authority.
  pub record ParameterClaims (pair : String) : Type 0 where
    pub some_text : pair ≢ ""
    pub claims : Claims (t.before_mark "=" pair)

  listed : (text : String) (texts : List String) → (any (str_eq text) texts ≡ true) ↔ In text texts
  listed text texts = (
    λ h.
        In-counted (str_eq text) text texts (λ other same. (str_eq_iff text other).0 same)
          (any-matching (str_eq text) texts h),
    λ h.
        matching-any (str_eq text) texts
          (counted-In (str_eq text) text texts ((str_eq_iff text text).1 refl) h),
  )

  Claims-iff : (name : String) → (is_forbidden t gateway_headers name ≡ true) ↔ Claims name
  unfolding is_forbidden folded
  Claims-iff name =
      let text = t.without "_" (t.without "-" (t.lower name)) in
      let bare = t.without_prefix "x" text in
      (
        λ h. elim (Bool-cases (any (str_eq text) forbidden_client_fields)) [
          | inl e ↦ record {
            field = text;
            forbidden = (listed text forbidden_client_fields).0 e;
            spelled = inl refl;
          }
          | inr e ↦ record {
            field = bare;
            forbidden = (listed bare forbidden_client_fields).0 (rw e at h);
            spelled = inr refl;
          }
        ],
        λ c. elim c.spelled [
          | inl e ↦
              let found =
                (listed text forbidden_client_fields).1
                  (subst (λ x. In x forbidden_client_fields) (sym e) c.forbidden) in
              rw found refl
          | inr e ↦
              let found =
                (listed bare forbidden_client_fields).1
                  (subst (λ x. In x forbidden_client_fields) (sym e) c.forbidden) in
              rw found (or_true _)
        ],
      )

  header_iff : (name : String) → (bad_header name ≡ true) ↔ HeaderClaims name
  unfolding bad_header is_gateway_header
  header_iff name = (
    λ h. record {
      foreign =
          λ at. let known = (listed (t.lower name) gateway_headers).1 at in absurd (ground arith);
      claims = (Claims-iff name).0 (ground arith);
    },
    λ c.
        let claimed = (Claims-iff name).1 c.claims in
        elim (Bool-cases (any (str_eq (t.lower name)) gateway_headers)) [
          | inl e ↦ absurd (c.foreign ((listed (t.lower name) gateway_headers).0 e))
          | inr e ↦ rw (e, claimed) refl
        ],
  )

  pair_iff : (pair : String) → (bad_pair pair ≡ true) ↔ ParameterClaims pair
  unfolding bad_pair
  pair_iff pair = (
    λ h. record {
      some_text = λ e. let blank = (str_eq_iff pair "").1 e in absurd (ground arith);
      claims = (Claims-iff (t.before_mark "=" pair)).0 (ground arith);
    },
    λ c.
        let claimed = (Claims-iff (t.before_mark "=" pair)).1 c.claims in
        elim (Bool-cases (str_eq pair "")) [
          | inl e ↦ absurd (c.some_text ((str_eq_iff pair "").0 e))
          | inr e ↦ rw (e, claimed) refl
        ],
  )

  any_none_iff {ℓ} :
      (p : String → Bool) (P : String → Type ℓ) (xs : List String)
      → ((x : String) → (p x ≡ true) ↔ P x)
      → (any p xs ≡ false) ↔ ((x : String) → In x xs → ¬ P x)
  any_none_iff p P [] same = ((λ h x at. absurd (not_in at)), (λ h. refl))
  any_none_iff p P (y ∷ ys) same =
      let (to, from) = any_none_iff p P ys same in
      (
        λ h x at. elim at [
          | inl e ↦ λ holds. let passes = (same y).1 (subst P e holds) in absurd (ground arith)
          | inr later ↦ to (ground arith) x later
        ],
        λ h. elim (Bool-cases (p y)) [
          | inl e ↦ absurd (h y (inl refl) ((same y).0 e))
          | inr e ↦ rw (e) (from (λ x at. h x (inr at)))
        ],
      )

  -- A request over HTTP is handed on exactly where no header claims authority in a name that is not one of the
  -- gateway's, and no parameter does in its name as the query string writes it, before its percent-encoding is
  -- decoded. Whatever is in the path, it is screened alike.
  pub handed_on_iff :
      (s : Scope) (path : String)
      → s.is_http ≡ true
      → ((handle_scope t gateway_headers s ≡ handed_on) ↔ (
          ((name : String) → In name s.headers → ¬ HeaderClaims name)
          × ((pair : String) → In pair (t.split "&" s.query_string) → ¬ ParameterClaims pair)))
        × (handle_scope t gateway_headers (record s { path = path })
            ≡ handle_scope t gateway_headers s)
  unfolding handle_scope self_asserted_field
  handed_on_iff s path http =
      let found = names_lem s.headers s.query_string in
      let (to, from) = handed (asserted_in t gateway_headers s.headers s.query_string) in
      let heads = any_none_iff bad_header HeaderClaims s.headers header_iff in
      let pairs = any_none_iff bad_pair ParameterClaims (t.split "&" s.query_string) pair_iff in
      (
        rw (http, if◌then◌else◌)
            (
              λ h. let none_found = to h in (heads.0 (ground arith), pairs.0 (ground arith)),
              λ (none_heads, none_pairs).
                  let no_head = heads.1 none_heads in
                  let no_pair = pairs.1 none_pairs in from (ground arith),
            ),
        refl,
      )
