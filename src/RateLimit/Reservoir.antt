-- ===== src/RateLimit/Reservoir.antt =====
-- internal/ratelimit/reservoir.go: tokens reserved from the shared bucket by one process. `Take`
-- holds its mutex only around the counter, so its phases are functions of their own: `take_token`
-- puts them in the order of one uncontended call, and Reservoir/Conservation.antt interleaves them.
-- The counter is a float that only ever holds whole numbers.
pub mod Conservation
use event_driven_notificatio.Prelude.{
  ℕ, ◌+◌, ◌-◌, ◌*◌, Bool, true, false, Option, none, some, leb, if◌then◌else◌, ◌==◌,
}
use event_driven_notificatio.RateLimit.{Bucket, Decision, allow_n, allow}

pub record Config : Type 0 where
  pub rate_per_sec : ℕ
  pub capacity : ℕ
  pub batch_size : ℕ

-- NewReservoir: a batch size that is not positive becomes 20.
unfoldable pub new_reservoir : Config → Config
new_reservoir cfg = if cfg.batch_size == 0 then record cfg { batch_size = 20 } else cfg

-- The settings of worker.New (internal/worker/pipeline.go).
abbrev pub worker_config : Config
worker_config = record { rate_per_sec = 100; capacity = 100; batch_size = 20 }

pub data TakeResult : Type 0 where
  allowed : TakeResult
  denied : ℕ → TakeResult
  failed : TakeResult

-- The first critical section: a local token, if there is one.
unfoldable pub take_local : ℕ → Option ℕ
take_local tokens = if leb 1 tokens then some (tokens - 1) else none

-- The second: the credit of a refill, of which one token is used at once.
unfoldable pub credit : Config → ℕ → ℕ
credit cfg tokens = tokens + (cfg.batch_size - 1)

-- What the limiter's answer to the single-token fallback means.
unfoldable pub fallback : Option Decision → TakeResult
fallback none = failed
fallback (some d) = if d.allowed then allowed else denied d.retry_after

single : Config → ℕ → Bool → ℕ → Option Bucket → TakeResult × ℕ × Option Bucket
unfolding fallback allow
single cfg tokens fails now hash =
    let (d, hash') = allow fails now cfg.rate_per_sec cfg.capacity hash in
    (fallback d, tokens, hash')

after_refill :
    Config → ℕ → Bool → ℕ → Option Decision → Option Bucket → TakeResult × ℕ × Option Bucket
unfolding single credit
after_refill cfg tokens fails now none hash = (failed, tokens, hash)
after_refill cfg tokens fails now (some d) hash =
    if d.allowed then (allowed, credit cfg tokens, hash) else single cfg tokens fails now hash

-- Take: the clock readings and failures of the two calls of Redis are arguments.
unfoldable pub take_token :
    Config → Bool → ℕ → Bool → ℕ → ℕ → Option Bucket → TakeResult × ℕ × Option Bucket
unfolding after_refill take_local allow_n
take_token cfg fails now fails' now' tokens hash = elim (take_local tokens) [
  | some rest ↦ (allowed, rest, hash)
  | none ↦
      let (d, hash') = allow_n fails now cfg.rate_per_sec cfg.capacity cfg.batch_size hash in
      after_refill cfg tokens fails' now' d hash'
]
