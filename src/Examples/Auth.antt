-- ===== src/Examples/Auth.antt =====
-- A run of the authentication of a revoked key.
use event_driven_notificatio.Prelude.{
  ℕ, ◌+◌, ◌≡◌, refl, true, false, String, str_eq, str_eq_iff, List, [], ◌∷◌, Option, none, some,
  ltb, if◌then◌else◌, arith,
}
use event_driven_notificatio.Store.{Bytes}
use event_driven_notificatio.Auth.{AuthedKey}
use event_driven_notificatio.Auth.Middleware.{
  ApiKey, Cache, CacheLaws, Crypto, AuthCalls, auth_cache_ttl, extract_bearer, authenticate, revoke,
  trim_prefix,
}
use event_driven_notificatio.Auth.Revoked.{ByOther, revoked_is_out}

-- One table of entries and one of markers, each with its expiry.
record Tables : Type 0 where
  entries : String → Option (AuthedKey × ℕ)
  markers : String → ℕ

abbrev alive : ℕ → Option (AuthedKey × ℕ) → Option AuthedKey
alive now none = none
alive now (some (v, until)) = if ltb now until then some v else none

abbrev cache : Cache
cache = record {
  State = Tables;
  get_auth = λ now k t. alive now (t.entries k);
  set_auth = λ now k v ttl t. record t {
    entries = λ k'. if str_eq k k' then some (v, now + ttl) else t.entries k';
  };
  del_auth = λ k t. record t { entries = λ k'. if str_eq k k' then none else t.entries k' };
  is_marked = λ now id t. ltb now (t.markers id);
  mark = λ now id ttl t. record t {
    markers = λ id'. if str_eq id id' then now + ttl else t.markers id';
  };
  failures = λ now p t. 0;
  note_failure = λ now p t. t;
}

str_eq_self : (k : String) → str_eq k k ≡ true
str_eq_self k = (str_eq_iff k k).1 refl

cache_laws : CacheLaws cache
cache_laws = record {
  kept = λ now later ttl k v s h.
      let e : ltb later (now + ttl) ≡ true = ground arith in rw (str_eq_self k, e) refl;
  gone = λ now later ttl k v s h.
      let e : ltb later (now + ttl) ≡ false = ground arith in rw (str_eq_self k, e) refl;
  marked = λ now later ttl id s h.
      let e : ltb later (now + ttl) ≡ true = ground arith in rw (str_eq_self id) e;
  apart = λ now later ttl k id s. refl;
}

abbrev crypto : Crypto
crypto = record { verify = λ raw h. some true; cache_key = λ raw. "k"; uuid_text = λ i. "u" }

abbrev raw_key : Bytes
raw_key = 97 ∷ 98 ∷ 99 ∷ 100 ∷ 101 ∷ 102 ∷ 103 ∷ 104 ∷ 105 ∷ []

abbrev header : Bytes
header =
    66 ∷ 101 ∷ 97 ∷ 114 ∷ 101 ∷ 114 ∷ 32 ∷ 97 ∷ 98 ∷ 99 ∷ 100 ∷ 101 ∷ 102 ∷ 103 ∷ 104 ∷ 105 ∷ []

abbrev hit : AuthedKey
hit = record { id = "u"; name = "key"; scopes = [] }

abbrev keys : List ApiKey
keys =
    record {
      id = 3;
      name = "key";
      hashed_key = "h";
      scopes = [];
      created_at = 0;
      revoked_at = none;
      key_prefix = 97 ∷ 98 ∷ 99 ∷ 100 ∷ 101 ∷ 102 ∷ 103 ∷ 104 ∷ [];
    }
    ∷ []

abbrev calls : AuthCalls
calls = record {
  now = 30;
  correlation_id = "c";
  get_fails = false;
  exists_fails = false;
  del_fails = false;
  lock_fails = false;
  lookup_fails = none;
  store_fails = false;
  note_fails = false;
}

abbrev empty : Tables
empty = record { entries = λ k. none; markers = λ id. 0 }

bearer : extract_bearer header ≡ some raw_key
unfolding extract_bearer trim_prefix
bearer = refl

revoked_is_out_example :
    let s1 = cache.set_auth 10 "k" hit auth_cache_ttl empty in
    let r = revoke cache crypto 20 false false 3 (keys, s1) in
    ByOther cache crypto raw_key r.0 3 (authenticate cache crypto calls header r.0 r.1).0
revoked_is_out_example =
    revoked_is_out cache cache_laws crypto raw_key header 3 10 20 hit keys empty calls bearer refl
      (omega arith) refl
