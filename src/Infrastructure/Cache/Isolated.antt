-- ===== src/Infrastructure/Cache/Isolated.antt =====
-- What a cached value is found by, and for how long: ragcore/src/ragcore/infrastructure/cache.py.
use itsm_poc.Common.{
  ℕ, ◌+◌, false, List, [], ◌∷◌, none, some, String, str_eq, ltb, ◌==◌, Result, ok, err,
  if◌then◌else◌, ◌≡◌, refl, sym, ap, ◌∙◌, arith, Bool-cases, inl, inr, str_eq_iff, ==_iff,
  ok-injective,
}
use itsm_poc.Domain.Records.{Uuid, TenantContext}
use itsm_poc.Infrastructure.Cache.{
  CacheText, CacheError, CacheEntry, Server, server_get, server_set, server_delete, cache_key,
  get_cached, put_cached, validate, stored, set_keyed, get_keyed,
}

-- The text of a key tells the organisations apart: the identifier in it has a fixed length.
pub record KeysApart (t : CacheText) : Type 0 where
  pub apart : (a b : Uuid) (x y : String) → t.key_text a x ≡ t.key_text b y → a ≡ b

deleted_other :
    (now : ℕ) (key other : String) (entries : List CacheEntry)
    → str_eq key other ≡ false
    → server_get now other (server_delete key entries) ≡ server_get now other entries
unfolding server_get server_delete
deleted_other now key other [] away = refl
deleted_other now key other (e ∷ entries) away =
    let rest = deleted_other now key other entries away in
    elim (Bool-cases (str_eq e.key key)) [
      | inl same ↦
          let one = (str_eq_iff e.key key).0 same in
          let off : str_eq e.key other ≡ false = ap (λ k. str_eq k other) one ∙ away in
          rw (same, if◌then◌else◌, off, if◌then◌else◌) rest
      | inr apart ↦
          rw (apart, if◌then◌else◌)
            (ap
              (λ v.
                if str_eq e.key other
                then (if ltb now e.expires_at then some e.value else none)
                else v)
              rest)
    ]

set_other :
    (at now : ℕ) (key other value : String) (seconds : ℕ) (entries : List CacheEntry)
    → str_eq key other ≡ false
    → server_get now other (server_set at key value seconds entries) ≡ server_get now other entries
unfolding server_set server_get
set_other at now key other value seconds entries away =
    rw (away, if◌then◌else◌) (deleted_other now key other entries away)

set_own :
    (at now : ℕ) (key value : String) (seconds : ℕ) (entries : List CacheEntry)
    → server_get now key (server_set at key value seconds entries)
      ≡ (if ltb now (at + seconds) then some value else none)
unfolding server_set server_get
set_own at now key value seconds entries = rw ((str_eq_iff key key).1 refl, if◌then◌else◌) refl

put_made :
    {x after : List CacheEntry} (checked : Result {0, 0} CacheError Unit)
    → ◌≡◌ {A = Result CacheError (List CacheEntry)}
        (elim checked [ err e ↦ err e | ok _ ↦ ok x ])
        (ok after)
    → x ≡ after
put_made (err e) h = cc
put_made (ok u) h = ok-injective h

module _ (t : CacheText) where
  -- Of two organisations, one's key is none of the other's.
  keys_differ :
      KeysApart t
      → (a b : TenantContext) (x y : String) {j k : String}
      → (a.tenant_id.value == b.tenant_id.value) ≡ false
      → cache_key t a x ≡ ok j
      → cache_key t b y ≡ ok k
      → str_eq j k ≡ false
  unfolding cache_key
  keys_differ texts a b x y {j} {k} differ made_j made_k = elim (Bool-cases (str_eq j k)) [
    | inl same ↦
        let j_is : j ≡ t.key_text a.tenant_id.value (t.strip x) = ground arith in
        let k_is : k ≡ t.key_text b.tenant_id.value (t.strip y) = ground arith in
        let one =
          texts.apart a.tenant_id.value b.tenant_id.value (t.strip x) (t.strip y)
            (sym j_is ∙ (str_eq_iff j k).0 same ∙ k_is) in
        let equal = (==_iff a.tenant_id.value b.tenant_id.value).1 one in cc
    | inr apart ↦ apart
  ]

  keyed_other :
      KeysApart t
      → (a b : TenantContext) (x y value : String) (at now ttl : ℕ) (entries : List CacheEntry)
        (kx ky : Result CacheError String)
      → (a.tenant_id.value == b.tenant_id.value) ≡ false
      → cache_key t a x ≡ kx
      → cache_key t b y ≡ ky
      → get_keyed t now ky (set_keyed t at kx value ttl entries) ≡ get_keyed t now ky entries
  unfolding get_keyed set_keyed
  keyed_other texts a b x y value at now ttl entries kx (err e) differ hx hy = refl
  keyed_other texts a b x y value at now ttl entries (err e) (ok k) differ hx hy = refl
  keyed_other texts a b x y value at now ttl entries (ok j) (ok k) differ hx hy =
      set_other at now j k value ttl entries (keys_differ texts a b x y differ hx hy)

  stored_other :
      KeysApart t
      → (a b : TenantContext) (x y value : String) (s r : Server) (ttl : ℕ)
        (entries : List CacheEntry)
      → (a.tenant_id.value == b.tenant_id.value) ≡ false
      → get_cached t r b y (stored t s a x value ttl entries) ≡ get_cached t r b y entries
  unfolding get_cached stored
  stored_other texts a b x y value s r ttl entries differ =
      let same =
        keyed_other texts a b x y value s.now r.now ttl entries (cache_key t a x) (cache_key t b y)
          differ refl refl in
      elim (Bool-cases s.is_reached) [
        | inr off ↦ rw (off, if◌then◌else◌) refl
        | inl on ↦ elim (Bool-cases s.answers) [
          | inr fails ↦ rw (on, fails, if◌then◌else◌) refl
          | inl answered ↦
              rw (on, answered, if◌then◌else◌)
                (ap (λ v. if r.is_reached then if r.answers then v else none else none) same)
        ]
      ]

  -- What one organisation puts into the cache changes nothing that another one gets from it.
  pub cache_isolated :
      KeysApart t
      → (a b : TenantContext) (x y value : String) (s r : Server) (ttl : ℕ)
        (entries : List CacheEntry) {after : List CacheEntry}
      → (a.tenant_id.value == b.tenant_id.value) ≡ false
      → put_cached t s a x value ttl entries ≡ ok after
      → get_cached t r b y after ≡ get_cached t r b y entries
  unfolding put_cached
  cache_isolated texts a b x y value s r ttl entries {after} differ done =
      let made : stored t s a x value ttl entries ≡ after =
        put_made (validate t x value ttl) done in
      ap (get_cached t r b y) (sym made) ∙ stored_other texts a b x y value s r ttl entries differ
