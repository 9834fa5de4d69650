-- ===== src/Worker/Gate.antt =====
-- Step 4 of handle (internal/worker/pipeline.go): the rate-limit gate and its inline loop. Times are
-- nanoseconds since the first reading of the clock, so the deadline is the budget. The loop is on
-- fuel; Gate/Total.antt is about its end.
pub mod Total
use event_driven_notificatio.Prelude.{
  ℕ, zero, suc, ◌+◌, ◌*◌, Bool, true, false, ◌||◌, Option, none, some, ltb, if◌then◌else◌,
}
use event_driven_notificatio.RateLimit.Reservoir.{TakeResult, allowed, denied, failed}
use event_driven_notificatio.Worker.Calls.{Calls}

abbrev pub millisecond : ℕ
millisecond = 1000000

abbrev pub bucket_refill_ceiling : ℕ
bucket_refill_ceiling = 1000 * millisecond

abbrev pub total_inline_budget : ℕ
total_inline_budget = 5000 * millisecond

abbrev pub minimum_pause : ℕ
minimum_pause = 5 * millisecond

-- How the gate is left: a token, a throttle that lasts (with the wait), a cancelled context, an
-- error of Take.
pub data Gate : Type 0 where
  pass : Gate
  sustained : ℕ → Gate
  stopped : Gate
  broken : Gate

abbrev pub pause : ℕ → ℕ
pause wait = if ltb wait minimum_pause then minimum_pause else wait

-- What an answer of Take leads to; `later` goes on with the wait that it asks for.
unfoldable pub after_take : (ℕ → Option Gate) → TakeResult → Option Gate
after_take later failed = some broken
after_take later allowed = some pass
after_take later (denied w) = later (w * millisecond)

-- The loop in round `k`, at time `now`, told to wait.
unfoldable pub throttle : Calls → ℕ → ℕ → ℕ → ℕ → Option Gate
unfolding after_take
throttle calls zero k now wait = none
throttle calls (suc fuel) k now wait =
    let later = λ (w : ℕ). throttle calls fuel (suc k) (now + pause wait + calls.lag k) w in
    if ltb bucket_refill_ceiling wait || ltb total_inline_budget (now + wait)
    then some (sustained wait)
    else if calls.cancelled k
    then some stopped
    else after_take later (calls.takes k)

abbrev pub enough_rounds : ℕ
enough_rounds = 1002

unfoldable pub gate : Calls → Option Gate
unfolding throttle
gate calls = after_take (throttle calls enough_rounds 0 0) calls.first_take
