-- ===== src/Auth/Middleware.antt =====
-- AuthMiddleware of internal/api/auth.go, its cache (internal/api/auth_cache.go), the keys' statements
-- (internal/store/gen/api_keys.sql.go) and revokeAPIKey of internal/api/admin.go. Redis is an
-- interface of the commands in use; a nil client is one whose commands all fail. argon2 and sha256
-- are parameters.
use event_driven_notificatio.Prelude.{
  ℕ, ◌+◌, ◌*◌, ◌<◌, ◌≤◌, ◌≡◌, Bool, true, false, ◌&&◌, String, List, [], ◌∷◌, Option, none, some,
  ltb, if◌then◌else◌, ◌==◌, filter, take, length,
}
use event_driven_notificatio.Prelude.Table.{update_row}
use event_driven_notificatio.Store.{Bytes, second}
use event_driven_notificatio.Http.{
  Failure, wrapped, Problem, problem, write_problem_full, write_error_as_problem,
}
use event_driven_notificatio.Auth.{AuthedKey}

-- ApiKey of internal/store/gen/models.go; a prefix is the bytes of the raw key.
pub record ApiKey : Type 0 where
  pub id : ℕ
  pub name : String
  pub hashed_key : String
  pub scopes : List String
  pub created_at : ℕ
  pub revoked_at : Option ℕ
  pub key_prefix : Bytes

abbrev pub key_of : ApiKey → ℕ
key_of k = k.id

abbrev pub is_active : ApiKey → Bool
is_active k = elim k.revoked_at [ none ↦ true | some _ ↦ false ]

abbrev pub same_bytes : Bytes → Bytes → Bool
same_bytes [] [] = true
same_bytes (a ∷ xs) (b ∷ ys) = (a == b) && same_bytes xs ys
same_bytes _ _ = false

-- ListActiveAPIKeysByPrefix
unfoldable pub list_active_by_prefix : Bytes → List ApiKey → List ApiKey
list_active_by_prefix prefix keys = filter (λ k. same_bytes k.key_prefix prefix && is_active k) keys

-- RevokeAPIKey
unfoldable pub revoke_api_key : ℕ → ℕ → List ApiKey → List ApiKey
revoke_api_key i now keys =
    update_row key_of i is_active (λ k. record k { revoked_at = some now }) keys

abbrev pub key_prefix_len : ℕ
key_prefix_len = 8

abbrev pub auth_cache_ttl : ℕ
auth_cache_ttl = 60 * second

abbrev pub auth_revoked_ttl : ℕ
auth_revoked_ttl = 5 * 60 * second

abbrev pub auth_failure_limit : ℕ
auth_failure_limit = 20

-- The commands: GET, SET and DEL of a cached key, SET and EXISTS of a marker, and the counter of
-- failures of a prefix, with the time at which they run.
pub record Cache : Type 1 where
  pub State : Type 0
  pub get_auth : ℕ → String → State → Option AuthedKey
  pub set_auth : ℕ → String → AuthedKey → ℕ → State → State
  pub del_auth : String → State → State
  pub is_marked : ℕ → String → State → Bool
  pub mark : ℕ → String → ℕ → State → State
  pub failures : ℕ → Bytes → State → ℕ
  pub note_failure : ℕ → Bytes → State → State

-- A value is there until its lifetime is over, and a marker is another key.
pub record CacheLaws (cache : Cache) : Type 0 where
  pub kept :
      (now later ttl : ℕ) (k : String) (v : AuthedKey) (s : cache.State)
      → later < now + ttl
      → cache.get_auth later k (cache.set_auth now k v ttl s) ≡ some v
  pub gone :
      (now later ttl : ℕ) (k : String) (v : AuthedKey) (s : cache.State)
      → now + ttl ≤ later
      → cache.get_auth later k (cache.set_auth now k v ttl s) ≡ none
  pub marked :
      (now later ttl : ℕ) (id : String) (s : cache.State)
      → later < now + ttl
      → cache.is_marked later id (cache.mark now id ttl s) ≡ true
  pub apart :
      (now later ttl : ℕ) (k id : String) (s : cache.State)
      → cache.get_auth later k (cache.mark now id ttl s) ≡ cache.get_auth later k s

-- argon2's VerifyAPIKey, none where the hash is malformed, the sha256 of a raw key, and
-- uuid.UUID.String.
pub record Crypto : Type 0 where
  pub verify : Bytes → String → Option Bool
  pub cache_key : Bytes → String
  pub uuid_text : ℕ → String

-- When a request runs and which of its calls fail.
pub record AuthCalls : Type 0 where
  pub now : ℕ
  pub correlation_id : String
  pub get_fails : Bool
  pub exists_fails : Bool
  pub del_fails : Bool
  pub lock_fails : Bool
  pub lookup_fails : Option Failure
  pub store_fails : Bool
  pub note_fails : Bool

pub data Admission : Type 0 where
  admitted : AuthedKey → Admission
  denied : Problem → Admission

-- strings.HasPrefix and strings.TrimPrefix
unfoldable pub trim_prefix : Bytes → Bytes → Option Bytes
trim_prefix [] h = some h
trim_prefix (p ∷ ps) [] = none
trim_prefix (p ∷ ps) (b ∷ bs) = if p == b then trim_prefix ps bs else none

abbrev pub unless_empty : Option Bytes → Option Bytes
unless_empty (some (b ∷ bs)) = some (b ∷ bs)
unless_empty _ = none

-- extractBearer, with "Bearer " in bytes.
unfoldable pub extract_bearer : Bytes → Option Bytes
unfolding trim_prefix
extract_bearer header =
    unless_empty (trim_prefix (66 ∷ 101 ∷ 97 ∷ 114 ∷ 101 ∷ 114 ∷ 32 ∷ []) header)

unfoldable pub unauthorized : String → String → Admission
unfolding problem write_problem_full
unauthorized correlation_id detail =
    denied (
      write_problem_full correlation_id
        (problem "/problems/unauthorized" "Unauthorized" 401 detail))

module _ (cache : Cache) (crypto : Crypto) where
  abbrev pub of_row : ApiKey → AuthedKey
  of_row k = record { id = crypto.uuid_text k.id; name = k.name; scopes = k.scopes }

  abbrev pub verifies : Bytes → ApiKey → Bool
  verifies raw k = elim (crypto.verify raw k.hashed_key) [ none ↦ false | some b ↦ b ]

  -- The loop over the candidates.
  unfoldable pub first_match : Bytes → List ApiKey → Option ApiKey
  first_match raw [] = none
  first_match raw (k ∷ ks) = if verifies raw k then some k else first_match raw ks

  unfoldable pub matched : AuthCalls → Bytes → cache.State → Option ApiKey → Admission × cache.State
  unfolding unauthorized
  matched calls raw s (some k) = (
    admitted (of_row k),
    if calls.store_fails
        then s
        else cache.set_auth calls.now (crypto.cache_key raw) (of_row k) auth_cache_ttl s,
  )
  matched calls raw s none = (
    unauthorized calls.correlation_id "invalid api key",
    if calls.note_fails then s else cache.note_failure calls.now (take key_prefix_len raw) s,
  )

  -- isAuthFailureLocked
  unfoldable pub is_locked : AuthCalls → Bytes → cache.State → Bool
  is_locked calls raw s =
      if calls.lock_fails
      then false
      else ltb auth_failure_limit (cache.failures calls.now (take key_prefix_len raw) s)

  unfoldable pub looked_up :
      AuthCalls → Bytes → List ApiKey → cache.State → Option Failure → Admission × cache.State
  unfolding matched first_match list_active_by_prefix
  looked_up calls raw keys s (some e) =
      (denied (write_error_as_problem calls.correlation_id (wrapped "api_keys lookup" e)), s)
  looked_up calls raw keys s none =
      matched calls raw s (first_match raw (list_active_by_prefix (take key_prefix_len raw) keys))

  unfoldable pub slow_path : AuthCalls → Bytes → List ApiKey → cache.State → Admission × cache.State
  unfolding is_locked looked_up
  slow_path calls raw keys s =
      if is_locked calls raw s
      then (
        denied (
            write_problem_full calls.correlation_id
              (record (problem "/problems/rate-limited" "Too Many Requests" 429
                "too many failed authentication attempts for this key prefix") {
                  retry_after = some "60";
                })),
        s,
      )
      else looked_up calls raw keys s calls.lookup_fails

  -- isKeyRevoked
  unfoldable pub is_key_revoked : AuthCalls → String → cache.State → Bool
  is_key_revoked calls id s = if calls.exists_fails then false else cache.is_marked calls.now id s

  -- lookupAuthCache
  unfoldable pub lookup_auth_cache : AuthCalls → Bytes → cache.State → Option AuthedKey
  lookup_auth_cache calls raw s =
      if calls.get_fails then none else cache.get_auth calls.now (crypto.cache_key raw) s

  unfoldable pub after_lookup :
      AuthCalls → Bytes → List ApiKey → cache.State → Option AuthedKey → Admission × cache.State
  unfolding slow_path is_key_revoked
  after_lookup calls raw keys s none = slow_path calls raw keys s
  after_lookup calls raw keys s (some hit) =
      if is_key_revoked calls hit.id s
      then slow_path calls raw keys
          (if calls.del_fails then s else cache.del_auth (crypto.cache_key raw) s)
      else (admitted hit, s)

  -- AuthMiddleware, up to the call of the next handler.
  unfoldable pub authenticate :
      AuthCalls → Bytes → List ApiKey → cache.State → Admission × cache.State
  unfolding extract_bearer after_lookup lookup_auth_cache unauthorized
  authenticate calls header keys s = elim (extract_bearer header) [
    | none ↦ (unauthorized calls.correlation_id "missing or malformed Authorization header", s)
    | some raw ↦
        if ltb (length raw) key_prefix_len
        then (unauthorized calls.correlation_id "key too short", s)
        else after_lookup calls raw keys s (lookup_auth_cache calls raw s)
  ]

  -- revokeAPIKey: the row and, where its command works, the marker. An UPDATE that fails ends it.
  unfoldable pub revoke :
      ℕ → Bool → Bool → ℕ → List ApiKey × cache.State → List ApiKey × cache.State
  unfolding revoke_api_key
  revoke now row_fails mark_fails i (keys, s) = if row_fails then (keys, s) else (
    revoke_api_key i now keys,
    if mark_fails then s else cache.mark now (crypto.uuid_text i) auth_revoked_ttl s,
  )
