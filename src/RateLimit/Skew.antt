-- ===== src/RateLimit/Skew.antt =====
-- The bucket (internal/ratelimit/lua.go) under callers whose clocks disagree: the script writes the
-- caller's clock to `ts` even where it lies before the stored one.
use event_driven_notificatio.Prelude.{ℕ, ◌-◌, ◌*◌, ◌%◌, ◌≤◌, ◌<◌, ◌≡◌, true, false, some, arith}
use event_driven_notificatio.RateLimit.{Bucket, lua_token_bucket}

abbrev pub drained : ℕ → Bucket
drained t = record { tokens = 0; ts = t }

-- From a bucket that was drained at `late`, with no time passed: a call at `late` is refused, but
-- after a (refused) call by a replica whose clock reads `early`, a call at `late` is allowed,
-- whenever the difference of the clocks is worth the tokens asked for and is a whole number of eighths
-- of a second (so that the script's doubles are exact).
pub skewed_clock_refills :
    (early late rate capacity take : ℕ)
    → early ≤ late
    → 0 < take
    → take ≤ capacity
    → take * 1000 ≤ (late - early) * rate
    → (late - early) % 125 ≡ 0
    → (late - early) * rate < 1125899906842624
    → capacity * 1000 < 1125899906842624
    → let b = lua_token_bucket early rate capacity take (some (drained late)) in
      ((lua_token_bucket late rate capacity take (some (drained late))).0.allowed ≡ false)
      × (b.0.allowed ≡ false)
      × ((lua_token_bucket late rate capacity take (some b.1)).0.allowed ≡ true)
unfolding lua_token_bucket
skewed_clock_refills early late rate capacity take h p c w eighths small small_capacity =
    ground arith
