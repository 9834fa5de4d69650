-- ===== src/Idempotency.antt =====
-- internal/idempotency/idempotency.go: the claims and records of idempotency keys. Redis is an
-- interface: the commands that the store uses, and what their documentation promises. Records are
-- stored as they are; that json.Unmarshal gives back what json.Marshal wrote is taken for granted,
-- except where the source handles its failure.
pub mod Replays
use event_driven_notificatio.Prelude.{
  ℕ, ◌+◌, ◌*◌, ◌<◌, ◌≡◌, Bool, true, false, String, str_eq, List, [], Option, none, some,
  if◌then◌else◌, ltb, Bool-cases, inl, inr, arith, refl,
}
use Prim.Native.String.{◌++◌ as append}
use event_driven_notificatio.Store.{Bytes, second}

-- Record
pub record Record : Type 0 where
  pub body_hash : String
  pub status_code : ℕ
  pub body : Bytes
  pub in_progress : Bool

abbrev pub default_ttl : ℕ
default_ttl = 24 * 3600 * second

abbrev pub in_flight_ttl : ℕ
in_flight_ttl = 10 * second

-- SET, GET and DEL, with the time at which they run; SET takes a lifetime.
pub record Redis : Type 1 where
  pub State : Type 0
  pub get : ℕ → String → State → Option Record
  pub set : ℕ → String → Record → ℕ → State → State
  pub del : String → State → State

-- A key holds what was set until its lifetime is over or it is deleted.
pub record Laws (redis : Redis) : Type 0 where
  pub get-set :
      (now later ttl : ℕ) (k : String) (v : Record) (s : redis.State)
      → later < now + ttl
      → redis.get later k (redis.set now k v ttl s) ≡ some v
  pub get-del : (now : ℕ) (k : String) (s : redis.State) → redis.get now k (redis.del k s) ≡ none

-- key
unfoldable pub key : String → String → String
key owner_id idem_key =
    if str_eq owner_id ""
    then append "idem:" idem_key
    else append "idem:" (append owner_id (append ":" idem_key))

-- What BeginOrReplay answers: the slot is ours, a record to replay, or an error.
pub data Begun : Type 0 where
  proceed : Begun
  replay : Record → Begun
  conflict in_flight broken : Begun

-- What a record found in the slot means.
unfoldable pub decide : String → Record → Begun
decide body_hash rec =
    if str_eq rec.body_hash body_hash
    then if rec.in_progress then in_flight else replay rec
    else conflict

-- Which calls fail, what json.Unmarshal does, and the times of the two commands.
pub record BeginCalls : Type 0 where
  pub claimed_at : ℕ
  pub read_at : ℕ
  pub claim_fails : Bool
  pub read_fails : Bool
  pub decode_fails : Bool

module _ (redis : Redis) where
  -- SET NX: the old value keeps a key that has one.
  unfoldable pub set_nx : ℕ → String → Record → ℕ → redis.State → Bool × redis.State
  set_nx now k v ttl s = elim (redis.get now k s) [
    | none ↦ (true, redis.set now k v ttl s)
    | some _ ↦ (false, s)
  ]

  -- The GET after a claim that was refused.
  unfoldable pub read_slot : BeginCalls → String → String → redis.State → Begun
  unfolding decide
  read_slot calls k body_hash s =
      if calls.read_fails then broken else elim (redis.get calls.read_at k s) [
        | none ↦ in_flight
        | some rec ↦ if calls.decode_fails then broken else decide body_hash rec
      ]

  -- What the answer of SET NX leads to.
  unfoldable pub after_claim :
      BeginCalls → String → String → Bool × redis.State → Begun × redis.State
  unfolding read_slot
  after_claim calls k body_hash (true, s) = (proceed, s)
  after_claim calls k body_hash (false, s) = (read_slot calls k body_hash s, s)

  -- BeginOrReplay
  unfoldable pub begin_or_replay :
      BeginCalls → String → String → String → redis.State → Begun × redis.State
  unfolding key set_nx after_claim
  begin_or_replay calls owner_id idem_key body_hash s =
      let k = key owner_id idem_key in
      let marker : Record = record {
        body_hash = body_hash;
        status_code = 0;
        body = [];
        in_progress = true;
      } in
      if str_eq idem_key ""
      then (broken, s)
      else if calls.claim_fails
      then (broken, s)
      else after_claim calls k body_hash (set_nx calls.claimed_at k marker in_flight_ttl s)

  -- Finalize
  unfoldable pub finalize : ℕ → String → String → Record → redis.State → redis.State
  finalize now owner_id idem_key rec s =
      redis.set now (key owner_id idem_key) (record rec { in_progress = false }) default_ttl s

  -- Release
  unfoldable pub release : String → String → redis.State → redis.State
  release owner_id idem_key s = redis.del (key owner_id idem_key) s
