-- ===== src/Infrastructure/Cache.antt =====
-- The transient cache: ragcore/src/ragcore/infrastructure/cache.py. The server keeps the entries that were set
-- until they expire, as its documentation says; whether it is reachable and whether a call of it fails are
-- given for each call.
pub mod Isolated
use itsm_poc.Common.{
  ℕ, ◌+◌, Bool, true, false, not, ◌||◌, List, [], ◌∷◌, Option, none, some, String, str_eq, ltb,
  Result, ok, err, select, if◌then◌else◌,
}
use itsm_poc.Domain.Records.{Uuid, TenantContext}

pub data CacheError : Type 0 where
  key_required bad_lifetime value_too_large : CacheError

-- The methods of texts, and the formatting of a key from an organisation's identifier and a text.
pub record CacheText : Type 0 where
  pub strip : String → String
  pub byte_length : String → ℕ
  pub key_text : Uuid → String → String

abbrev pub max_ttl_seconds : ℕ
max_ttl_seconds = 900

abbrev pub max_value_bytes : ℕ
max_value_bytes = 65536

-- An entry of the server, which expires at a second of its clock.
pub record CacheEntry : Type 0 where
  pub key : String
  pub value : String
  pub expires_at : ℕ

-- The server at one call: it was reached, the call did not fail, and the second of its clock.
pub record Server : Type 0 where
  pub is_reached : Bool
  pub answers : Bool
  pub now : ℕ

unfoldable pub server_get : (now : ℕ) → (key : String) → List CacheEntry → Option String
server_get now key [] = none
server_get now key (e ∷ entries) =
    if str_eq e.key key
    then if ltb now e.expires_at then some e.value else none
    else server_get now key entries

unfoldable pub server_delete : (key : String) → List CacheEntry → List CacheEntry
server_delete key entries = select (λ (e : CacheEntry). not (str_eq e.key key)) entries

unfoldable pub server_set :
    (now : ℕ) → (key value : String) → (seconds : ℕ) → List CacheEntry → List CacheEntry
unfolding server_delete
server_set now key value seconds entries =
    record { key = key; value = value; expires_at = now + seconds } ∷ server_delete key entries

module _ (t : CacheText) where
  open t use {strip, byte_length, key_text}

  unfoldable pub cache_key : TenantContext → (key : String) → Result CacheError String
  cache_key tenant key =
      if str_eq (strip key) ""
      then err key_required
      else ok (key_text tenant.tenant_id.value (strip key))

  unfoldable pub validate : (key value : String) → (ttl_seconds : ℕ) → Result {0, 0} CacheError Unit
  validate key value ttl_seconds =
      if str_eq (strip key) ""
      then err key_required
      else if not (ltb 0 ttl_seconds) || ltb max_ttl_seconds ttl_seconds
      then err bad_lifetime
      else if ltb max_value_bytes (byte_length value)
      then err value_too_large
      else ok tt

  unfoldable pub get_keyed : (now : ℕ) → Result CacheError String → List CacheEntry → Option String
  unfolding server_get
  get_keyed now (err e) entries = none
  get_keyed now (ok key) entries = server_get now key entries

  -- `RedisTransientCache.get`; an error in the `try` is a miss, the one of the key included.
  unfoldable pub get_cached :
      Server → TenantContext → (key : String) → List CacheEntry → Option String
  unfolding cache_key get_keyed
  get_cached s tenant key entries =
      if s.is_reached
      then if s.answers then get_keyed s.now (cache_key tenant key) entries else none
      else none

  unfoldable pub set_keyed :
      (now : ℕ)
      → Result CacheError String
      → (value : String) → (ttl_seconds : ℕ) → List CacheEntry
      → List CacheEntry
  unfolding server_set
  set_keyed now (err e) value ttl entries = entries
  set_keyed now (ok key) value ttl entries = server_set now key value ttl entries

  unfoldable pub stored :
      Server
      → TenantContext
      → (key value : String) → (ttl_seconds : ℕ) → List CacheEntry
      → List CacheEntry
  unfolding cache_key set_keyed
  stored s tenant key value ttl entries =
      if s.is_reached
      then if s.answers then set_keyed s.now (cache_key tenant key) value ttl entries else entries
      else entries

  -- `RedisTransientCache.put`.
  unfoldable pub put_cached :
      Server
      → TenantContext
      → (key value : String) → (ttl_seconds : ℕ) → List CacheEntry
      → Result CacheError (List CacheEntry)
  unfolding validate stored
  put_cached s tenant key value ttl entries = elim (validate key value ttl) [
    | err e ↦ err e
    | ok _ ↦ ok (stored s tenant key value ttl entries)
  ]

  delete_keyed : Result CacheError String → List CacheEntry → List CacheEntry
  unfolding server_delete
  delete_keyed (err e) entries = entries
  delete_keyed (ok key) entries = server_delete key entries

  unfoldable pub invalidate :
      Server → TenantContext → (key : String) → List CacheEntry → List CacheEntry
  unfolding cache_key delete_keyed
  invalidate s tenant key entries =
      if s.is_reached
      then if s.answers then delete_keyed (cache_key tenant key) entries else entries
      else entries

  -- `NullCache`.
  unfoldable pub null_get : TenantContext → (key : String) → Option String
  null_get tenant key = none

  unfoldable pub null_put :
      TenantContext → (key value : String) → (ttl_seconds : ℕ) → Result {0, 0} CacheError Unit
  unfolding validate
  null_put tenant key value ttl = validate key value ttl
