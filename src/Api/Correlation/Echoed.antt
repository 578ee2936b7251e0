-- ===== src/Api/Correlation/Echoed.antt =====
-- Every response carries the identifier of its request, once: ragcore/src/ragcore/api/middleware/correlation.py.
use itsm_poc.Common.{
  Bool, true, not, List, [], ◌∷◌, ◌++◌, map, String, str_eq_iff, select, matching, matching-append,
  if◌then◌else◌, ◌≡◌, ap, ◌∙◌, refl, arith, All,
}
use itsm_poc.Api.Correlation.{
  CorrelationText, Header, RequestScope, Message, response_start, other_message, AppRun, correlate,
  resolve, asked_for, accepted, is_correlation, own_header, with_header, correlation_header,
}

-- The start of a response holds the identifier in one header, and no other of the name.
abbrev pub Carries : CorrelationText → (id : String) → Message → Type 0
Carries t id (response_start headers) =
    (matching (is_correlation t) headers ≡ 1)
    × (select (is_correlation t) headers ≡ own_header t id ∷ [])
Carries t id (other_message text) = Unit

module _ (t : CorrelationText) where
  resolve_well_formed :
      (minted : String) (headers : List Header)
      → t.is_well_formed minted ≡ true
      → t.is_well_formed (resolve t minted headers) ≡ true
  unfolding resolve asked_for accepted
  resolve_well_formed minted [] well = well
  resolve_well_formed minted (h ∷ headers) well =
      let rest = resolve_well_formed minted headers well in ground arith

  selected_append :
      (p : Header → Bool) (xs ys : List Header) → select p (xs ++ ys) ≡ select p xs ++ select p ys
  selected_append p [] ys = refl
  selected_append p (x ∷ xs) ys = let rest = selected_append p xs ys in ground arith

  none_left :
      (p : Header → Bool) (xs : List Header)
      → (matching p (select (λ x. not (p x)) xs) ≡ 0) × (select p (select (λ x. not (p x)) xs) ≡ [])
  none_left p [] = (refl, refl)
  none_left p (x ∷ xs) = let (count, gone) = none_left p xs in (ground arith, ground arith)

  -- What the middleware sends on carries the identifier, whatever the application set.
  with_header-Carries :
      (id : String) (m : Message)
      → t.lower correlation_header ≡ correlation_header
      → Carries t id (with_header t id m)
  unfolding with_header is_correlation own_header
  with_header-Carries id (other_message text) lowered = tt
  with_header-Carries id (response_start headers) lowered =
      let p : Header → Bool = is_correlation t in
      let h : Header = own_header t id in
      let mine : p h ≡ true =
        (str_eq_iff (t.lower correlation_header) correlation_header).1 lowered in
      let others = select (λ x. not (p x)) headers in
      let (count, gone) = none_left p headers in
      let split = matching-append p others (h ∷ []) in
      let last : matching p (h ∷ []) ≡ 1 = rw (mine, if◌then◌else◌) refl in
      let alone : select p (h ∷ []) ≡ h ∷ [] = rw (mine, if◌then◌else◌) refl in
      (
        omega arith,
        selected_append p others (h ∷ []) ∙ ap (λ xs. xs ++ select p (h ∷ [])) gone ∙ alone,
      )

  all_carry :
      (id : String) (ms : List Message)
      → t.lower correlation_header ≡ correlation_header
      → All (Carries t id) (map (with_header t id) ms)
  all_carry id [] lowered = tt
  all_carry id (m ∷ ms) lowered = (with_header-Carries id m lowered, all_carry id ms lowered)

  -- Where the header's name is its own lower case and a minted identifier is well formed: for an HTTP
  -- request the identifier is well formed, the start of each response that is sent on holds it in one header of
  -- the name, and after the request, whether the application returned or raised, the context variable
  -- holds what it held before.
  pub correlate_echoes :
      (app : RequestScope → (variable : String) → AppRun) (minted variable : String)
      (scope : RequestScope)
      → t.lower correlation_header ≡ correlation_header
      → t.is_well_formed minted ≡ true
      → scope.is_http ≡ true
      → (t.is_well_formed (resolve t minted scope.headers) ≡ true)
        × All
            (Carries t (resolve t minted scope.headers))
            (correlate t app minted variable scope).sent
        × ((correlate t app minted variable scope).variable ≡ variable)
  unfolding correlate
  correlate_echoes app minted variable scope lowered well http =
      rw (http, if◌then◌else◌)
        (resolve_well_formed minted scope.headers well, all_carry _ _ lowered, refl)
