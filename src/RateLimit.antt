-- ===== src/RateLimit.antt =====
-- internal/ratelimit/lua.go: the token bucket of one channel. Redis keeps a hash with `tokens` and
-- `ts`; the Lua script is atomic, so it is one function. Tokens are counted in thousandths: at a
-- whole rate per second an elapsed millisecond adds `rate` of them exactly, where the script
-- computes with doubles. The two agree where the doubles are exact, as OnGrid of RateLimit/Bounds has
-- it; elsewhere a decision at the very boundary may differ by the rounding, and an announced wait by a
-- millisecond. Times are milliseconds, as in the script.
pub mod Bounds
pub mod Skew
pub mod Reservoir
use event_driven_notificatio.Prelude.{
  ℕ, ◌+◌, ◌-◌, ◌*◌, ◌/◌, min, Bool, true, false, ◌||◌, Option, none, some, leb, if◌then◌else◌, ◌==◌,
}

pub record Bucket : Type 0 where
  pub tokens : ℕ
  pub ts : ℕ

pub record Decision : Type 0 where
  pub allowed : Bool
  pub retry_after : ℕ
  pub tokens_left : ℕ

-- A missing hash, or one that has expired, counts as a full bucket of this moment.
abbrev pub stored : ℕ → ℕ → Option Bucket → Bucket
stored capacity now none = record { tokens = capacity * 1000; ts = now }
stored capacity now (some b) = b

abbrev pub ceil_div : ℕ → ℕ → ℕ
ceil_div n d = (n + d - 1) / d

-- tokens = math.min(capacity, tokens + refill); `-` stops at 0 as `math.max(0, now - ts)` does.
abbrev pub refilled : ℕ → ℕ → ℕ → Bucket → ℕ
refilled rate capacity now b = min (capacity * 1000) (b.tokens + (now - b.ts) * rate)

settle : ℕ → ℕ → ℕ → ℕ → Decision × Bucket
settle rate take now tokens =
    if leb (take * 1000) tokens
    then (
      record { allowed = true; retry_after = 0; tokens_left = tokens - take * 1000 },
      record { tokens = tokens - take * 1000; ts = now },
    )
    else (
      record {
        allowed = false;
        retry_after = ceil_div (take * 1000 - tokens) rate;
        tokens_left = tokens;
      },
      record { tokens = tokens; ts = now },
    )

-- luaTokenBucket
unfoldable pub lua_token_bucket : ℕ → ℕ → ℕ → ℕ → Option Bucket → Decision × Bucket
unfolding settle
lua_token_bucket now rate capacity take data' =
    settle rate take now (refilled rate capacity now (stored capacity now data'))

-- AllowN: `none` is an error, of the arguments or of Redis (`fails`); both leave the hash alone.
unfoldable pub allow_n : Bool → ℕ → ℕ → ℕ → ℕ → Option Bucket → Option Decision × Option Bucket
unfolding lua_token_bucket
allow_n fails now rate capacity take hash =
    if rate == 0 || capacity == 0 || take == 0 || fails then (none, hash) else (
      some (lua_token_bucket now rate capacity take hash).0,
      some (lua_token_bucket now rate capacity take hash).1,
    )

-- Allow
unfoldable pub allow : Bool → ℕ → ℕ → ℕ → Option Bucket → Option Decision × Option Bucket
unfolding allow_n
allow fails now rate capacity hash = allow_n fails now rate capacity 1 hash
