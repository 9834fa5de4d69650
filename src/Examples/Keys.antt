-- ===== src/Examples/Keys.antt =====
-- Runs of the idempotency store.
use event_driven_notificatio.Prelude.{
  ℕ, ◌+◌, ◌≡◌, refl, true, false, String, str_eq, [], ◌∷◌, Option, none, some, arith, ltb,
  if◌then◌else◌, str_eq_iff,
}
use event_driven_notificatio.Idempotency.{
  Record, Redis, Laws, proceed, replay, conflict, in_flight, BeginCalls, begin_or_replay, finalize,
  release,
}
use event_driven_notificatio.Idempotency.Replays.{Works, finalize_replays, one_at_a_time}

-- One key and its expiry: a Redis of a single slot per string.
abbrev pub Slots : Type 0
Slots = String → Option (Record × ℕ)

abbrev pub alive : ℕ → Option (Record × ℕ) → Option Record
alive now none = none
alive now (some (v, until)) = if ltb now until then some v else none

abbrev pub redis : Redis
redis = record {
  State = Slots;
  get = λ now k s. alive now (s k);
  set = λ now k v ttl s k'. if str_eq k k' then some (v, now + ttl) else s k';
  del = λ k s k'. if str_eq k k' then none else s k';
}

str_eq_refl : (k : String) → str_eq k k ≡ true
str_eq_refl k = (str_eq_iff k k).1 refl

pub redis_laws : Laws redis
redis_laws = record {
  get-set = λ now later ttl k v s h.
      let e : ltb later (now + ttl) ≡ true = ground arith in rw (str_eq_refl k, e) refl;
  get-del = λ now k s. rw (str_eq_refl k) refl;
}

abbrev done : Record
done = record { body_hash = "h"; status_code = 201; body = 123 ∷ []; in_progress = false }

abbrev pub calls_at : ℕ → BeginCalls
calls_at now = record {
  claimed_at = now;
  read_at = now;
  claim_fails = false;
  read_fails = false;
  decode_fails = false;
}

pub calls_work : (now : ℕ) → Works (calls_at now)
calls_work now = record { claim = refl; read = refl; decode = refl }

abbrev pub empty : Slots
empty k = none

finalize_replays_example :
    let s' = finalize redis 5 "o" "k" done empty in
    begin_or_replay redis (calls_at 9) "o" "k" "h" s'
    ≡ (if str_eq "h" "h" then replay done else conflict, s')
finalize_replays_example =
    finalize_replays redis "o" "k" refl redis_laws 5 done empty (calls_at 9) "h" (calls_work 9)
      (omega arith) (omega arith)

one_at_a_time_example :
    let r = begin_or_replay redis (calls_at 5) "o" "k" "h" empty in
    (r.0 ≡ proceed)
    × ((begin_or_replay redis (calls_at 9) "o" "k" "g" r.1).0
        ≡ (if str_eq "h" "g" then in_flight else conflict))
    × ((begin_or_replay redis (calls_at 9) "o" "k" "g" (release redis "o" "k" r.1)).0 ≡ proceed)
one_at_a_time_example =
    one_at_a_time redis "o" "k" refl redis_laws (calls_at 5) (calls_at 9) "h" "g" empty
      (calls_work 5) (calls_work 9) refl (omega arith) (omega arith)
