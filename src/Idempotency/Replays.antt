-- ===== src/Idempotency/Replays.antt =====
-- What a second request with an idempotency key is told (internal/idempotency/idempotency.go).
use event_driven_notificatio.Prelude.{
  ℕ, ◌+◌, ◌<◌, ◌≡◌, refl, ap, ◌∙◌, true, false, String, str_eq, Option, none, some, if◌then◌else◌,
  if_false, [],
}
use event_driven_notificatio.Idempotency.{
  Record, default_ttl, in_flight_ttl, Redis, Laws, key, proceed, replay, conflict, in_flight,
  broken, decide, BeginCalls, set_nx, read_slot, after_claim, begin_or_replay, finalize, release,
}

-- The commands of this run succeed.
pub record Works (calls : BeginCalls) : Type 0 where
  pub claim : calls.claim_fails ≡ false
  pub read : calls.read_fails ≡ false
  pub decode : calls.decode_fails ≡ false

module _ (redis : Redis) (owner idem_key : String) (named : str_eq idem_key "" ≡ false) where
  pub marker : String → Record
  marker hash = record { body_hash = hash; status_code = 0; body = []; in_progress = true }

  set_nx_taken :
      (now ttl : ℕ) (v rec : Record) (s : redis.State) (o : Option Record)
      → redis.get now (key owner idem_key) s ≡ some rec
      → set_nx redis now (key owner idem_key) v ttl s ≡ (false, s)
  unfolding set_nx
  set_nx_taken now ttl v rec s o held = rw (set_nx, held) refl

  set_nx_free :
      (now ttl : ℕ) (v : Record) (s : redis.State)
      → redis.get now (key owner idem_key) s ≡ none
      → set_nx redis now (key owner idem_key) v ttl s
        ≡ (true, redis.set now (key owner idem_key) v ttl s)
  unfolding set_nx
  set_nx_free now ttl v s free = rw (set_nx, free) refl

  read_held :
      (calls : BeginCalls) (hash : String) (s : redis.State) (rec : Record)
      → Works calls
      → redis.get calls.read_at (key owner idem_key) s ≡ some rec
      → read_slot redis calls (key owner idem_key) hash s ≡ decide hash rec
  unfolding read_slot
  read_held calls hash s rec works held =
      if_false _ _ works.read ∙ (found_in held ∙ if_false _ _ works.decode)
    where
      found_in :
          redis.get calls.read_at (key owner idem_key) s ≡ some rec
          → elim (redis.get calls.read_at (key owner idem_key) s) [
            | none ↦ in_flight
            | some r ↦ if calls.decode_fails then broken else decide hash r
          ]
            ≡ (if calls.decode_fails then broken else decide hash rec)
      found_in e = rw e refl

  -- A slot that holds a record at both times of a begin.
  begin_held :
      (calls : BeginCalls) (hash : String) (s : redis.State) (rec : Record)
      → Works calls
      → redis.get calls.claimed_at (key owner idem_key) s ≡ some rec
      → redis.get calls.read_at (key owner idem_key) s ≡ some rec
      → begin_or_replay redis calls owner idem_key hash s ≡ (decide hash rec, s)
  unfolding begin_or_replay after_claim marker
  begin_held calls hash s rec works held held' =
      if_false _ _ named
      ∙ (if_false _ _ works.claim
          ∙ (ap (after_claim redis calls (key owner idem_key) hash)
                (set_nx_taken calls.claimed_at in_flight_ttl (marker hash) rec s none held)
              ∙ ap (λ b. (b, s)) (read_held calls hash s rec works held')))

  pub begin_free :
      (calls : BeginCalls) (hash : String) (s : redis.State)
      → Works calls
      → redis.get calls.claimed_at (key owner idem_key) s ≡ none
      → begin_or_replay redis calls owner idem_key hash s
        ≡ (proceed, redis.set calls.claimed_at (key owner idem_key) (marker hash) in_flight_ttl s)
  unfolding begin_or_replay after_claim marker
  begin_free calls hash s works free =
      if_false _ _ named
      ∙ (if_false _ _ works.claim
          ∙ ap (after_claim redis calls (key owner idem_key) hash)
              (set_nx_free calls.claimed_at in_flight_ttl (marker hash) s free))

  module _ (laws : Laws redis) where
    -- A finalized key, asked for again within 24 hours with the commands working: a request with
    -- the same body hash gets the stored record, one with another hash a conflict, and the store
    -- stays as it is, so that no second request does the work.
    pub finalize_replays :
        (now : ℕ) (rec : Record) (s : redis.State) (calls : BeginCalls) (hash : String)
        → Works calls
        → calls.claimed_at < now + default_ttl
        → calls.read_at < now + default_ttl
        → let s' = finalize redis now owner idem_key rec s in
          begin_or_replay redis calls owner idem_key hash s' ≡ (
            if str_eq rec.body_hash hash
                then replay (record rec { in_progress = false })
                else conflict,
            s',
          )
    unfolding finalize decide
    finalize_replays now rec s calls hash works soon soon' =
        let done = record rec { in_progress = false } in
        begin_held calls hash _ done works
          (laws.get-set now calls.claimed_at default_ttl (key owner idem_key) done s soon)
          (laws.get-set now calls.read_at default_ttl (key owner idem_key) done s soon')

    -- A key that nobody holds, with the commands working: the first request may go ahead, and until
    -- ten seconds later another with the same body hash is told that it is in flight and one with
    -- another hash that it conflicts. After a release the key is free: the next request may go ahead.
    pub one_at_a_time :
        (first second' : BeginCalls) (hash hash' : String) (s : redis.State)
        → Works first
        → Works second'
        → redis.get first.claimed_at (key owner idem_key) s ≡ none
        → second'.claimed_at < first.claimed_at + in_flight_ttl
        → second'.read_at < first.claimed_at + in_flight_ttl
        → let r = begin_or_replay redis first owner idem_key hash s in
          (r.0 ≡ proceed)
          × ((begin_or_replay redis second' owner idem_key hash' r.1).0
              ≡ (if str_eq hash hash' then in_flight else conflict))
          × ((begin_or_replay redis second' owner idem_key hash'
                (release redis owner idem_key r.1)).0
              ≡ proceed)
    unfolding release decide marker
    one_at_a_time first second' hash hash' s works works' free soon soon' =
        let e = begin_free first hash s works free in
        let held = redis.set first.claimed_at (key owner idem_key) (marker hash) in_flight_ttl s in
        rw e (
          refl,
          ap (λ r. r.0)
              (begin_held second' hash' held (marker hash) works'
                (laws.get-set first.claimed_at second'.claimed_at in_flight_ttl (key owner idem_key)
                  (marker hash) s soon)
                (laws.get-set first.claimed_at second'.read_at in_flight_ttl (key owner idem_key)
                  (marker hash) s soon')),
          ap (λ r. r.0)
              (begin_free second' hash' (redis.del (key owner idem_key) held) works'
                (laws.get-del second'.claimed_at (key owner idem_key) held)),
        )
