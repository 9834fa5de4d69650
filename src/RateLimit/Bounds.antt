-- ===== src/RateLimit/Bounds.antt =====
-- What the token bucket (internal/ratelimit/lua.go) promises to callers whose clocks agree.
use native.Mathlib.Decide.{dec_le}
use event_driven_notificatio.Prelude.{
  ℕ, ◌+◌, ◌-◌, ◌*◌, ◌/◌, ◌%◌, ◌≤◌, ◌<◌, min, ◌≡◌, refl, ap, ◌∙◌, ◌↔◌, Bool, true, false, List, [],
  ◌∷◌, Option, none, some, arith, Bool-cases, inl, inr, if◌then◌else◌,
}
use event_driven_notificatio.RateLimit.{Bucket, stored, ceil_div, refilled, lua_token_bucket}

-- The thousandths that a bucket can give out at a time, before the call takes any.
unfoldable pub available : ℕ → ℕ → ℕ → Option Bucket → ℕ
available rate capacity now hash = refilled rate capacity now (stored capacity now hash)

lua_token_bucket_lem :
    (now rate capacity take : ℕ) (hash : Option Bucket)
    → let (d, b) = lua_token_bucket now rate capacity take hash in
      ((d.allowed ≡ true) ↔ (take * 1000 ≤ available rate capacity now hash))
      × (b.tokens + (if d.allowed then take * 1000 else 0) ≡ available rate capacity now hash)
      × (b.tokens ≤ capacity * 1000)
      × (d.tokens_left ≡ b.tokens)
      × (b.ts ≡ now)
unfolding lua_token_bucket available
lua_token_bucket_lem now rate capacity take hash = ground arith

-- Where the script's doubles are exact: the bucket holds whole eighths of a token (125 thousandths), the
-- time since its last call is a whole number of eighths of a second, and the numbers are small. The
-- script's quotient by 1000, its product with a whole rate and its sum are then eighths below 2 ^ 53.
pub record OnGrid (rate capacity now : ℕ) (b : Bucket) : Type 0 where
  pub tokens : b.tokens % 125 ≡ 0
  pub elapsed : (now - b.ts) % 125 ≡ 0
  pub small : b.tokens + (now - b.ts) * rate < 1125899906842624
  pub small_capacity : capacity * 1000 < 1125899906842624

mul_grid : (e r : ℕ) → e % 125 ≡ 0 → (e * r) % 125 ≡ 0
mul_grid e r h = of_eighths
  where
    q : ℕ
    q = e / 125

    assoc : (x y : ℕ) → 125 * x * y ≡ 125 * (x * y)
    assoc x y = grind arith

    eighths : e * r ≡ 125 * (q * r)
    eighths = let f : e ≡ 125 * q = omega (arith, h) in ap (λ x. x * r) f ∙ assoc q r

    of_eighths : (e * r) % 125 ≡ 0
    of_eighths = omega (arith, eighths)

available_grid :
    (rate capacity now : ℕ) (hash : Option Bucket)
    → OnGrid rate capacity now (stored capacity now hash)
    → available rate capacity now hash % 125 ≡ 0
unfolding available
available_grid rate capacity now hash g =
    let b = stored capacity now hash in
    let h = mul_grid (now - b.ts) rate g.elapsed in let h' = g.tokens in omega arith

-- On the grid on which the script's doubles are exact, the script allows a call exactly when that
-- many tokens are available, and then takes exactly these; otherwise it takes none. Either way the
-- bucket stays within its capacity, gets the time of the call, and holds whole eighths again.
pub lua_token_bucket_exact :
    (now rate capacity take : ℕ) (hash : Option Bucket)
    → OnGrid rate capacity now (stored capacity now hash)
    → let (d, b) = lua_token_bucket now rate capacity take hash in
      ((d.allowed ≡ true) ↔ (take * 1000 ≤ available rate capacity now hash))
      × (b.tokens + (if d.allowed then take * 1000 else 0) ≡ available rate capacity now hash)
      × (b.tokens ≤ capacity * 1000)
      × (d.tokens_left ≡ b.tokens)
      × (b.ts ≡ now)
      × (b.tokens % 125 ≡ 0)
lua_token_bucket_exact now rate capacity take hash g =
    let l = lua_token_bucket_lem now rate capacity take hash in
    let h = available_grid rate capacity now hash g in
    (l.0, l.1, l.2, l.3, l.4, eighths _ take (available rate capacity now hash) _ l.1 h)
  where
    eighths :
        (x k y : ℕ) (b : Bool) → x + (if b then k * 1000 else 0) ≡ y → y % 125 ≡ 0 → x % 125 ≡ 0
    eighths x k y true e h = omega arith
    eighths x k y false e h = omega arith

ceil_div_enough : (n d : ℕ) → 0 < d → n ≤ ceil_div n d * d
ceil_div_enough n d h = grind arith

ceil_div_least : (n d k : ℕ) → 0 < d → k < ceil_div n d → k * d < n
ceil_div_least n d k h l = grind arith

ceil_div_bound : (n d : ℕ) → 0 < d → ceil_div n d ≤ n / d + 2
ceil_div_bound n d h = grind arith

-- ceil_div n d is the least k with n ≤ k * d.
le-mul_of_ceil_div-le : (n k d : ℕ) → 0 < d → ceil_div n d ≤ k → n ≤ k * d
le-mul_of_ceil_div-le n k d h l = grind (arith, ceil_div_enough n d h)

ceil_div-le_of_le-mul : (n k d : ℕ) → 0 < d → n ≤ k * d → ceil_div n d ≤ k
ceil_div-le_of_le-mul n k d h l = elim (dec_le (ceil_div n d) k) [
  | yes p ↦ p
  | no p ↦ absurd (omega (arith, ceil_div_least n d k h (omega arith)))
]

retry_threshold :
    (rate room need gap : ℕ) (t now : ℕ)
    → 0 < rate
    → need ≤ room
    → now ≤ t
    → gap < need
    → (need ≤ min room (gap + (t - now) * rate)) ↔ (now + ceil_div (need - gap) rate ≤ t)
retry_threshold rate room need gap t now r c l short = (
  λ h. omega (arith, ceil_div-le_of_le-mul (need - gap) (t - now) rate r (omega arith)),
  λ h. omega (arith, le-mul_of_ceil_div-le (need - gap) (t - now) rate r (omega arith)),
)

retry_after_threshold :
    (now rate capacity take t : ℕ) (hash : Option Bucket)
    → 0 < rate
    → take ≤ capacity
    → now ≤ t
    → let (d, b) = lua_token_bucket now rate capacity take hash in
      d.allowed ≡ false
      → ((lua_token_bucket t rate capacity take (some b)).0.allowed ≡ true)
        ↔ (now + d.retry_after ≤ t)
unfolding lua_token_bucket
retry_after_threshold now rate capacity take t hash r c l denied = ground (
  arith,
  retry_threshold rate (capacity * 1000) (take * 1000)
      (refilled rate capacity now (stored capacity now hash)) t now r (omega arith) l,
)

retry_after_bound :
    (now rate capacity take : ℕ) (hash : Option Bucket)
    → 0 < rate
    → (lua_token_bucket now rate capacity take hash).0.retry_after
      ≤ (take * 1000 - available rate capacity now hash) / rate + 2
unfolding lua_token_bucket available
retry_after_bound now rate capacity take hash r = ground (
  arith,
  ceil_div_bound (take * 1000 - refilled rate capacity now (stored capacity now hash)) rate r,
)

-- After a denial, with the hash that the denial left: if the denied call and a later call at `t` are on
-- the grid on which the script's doubles are exact, a call for the same number of tokens at `t` is
-- allowed once the announced wait is over (for a positive rate, and a number of tokens that the
-- bucket can hold). The wait is at most two milliseconds more than the missing
-- tokens take.
pub retry_after_enough :
    (now rate capacity take t : ℕ) (hash : Option Bucket)
    → 0 < rate
    → take ≤ capacity
    → OnGrid rate capacity now (stored capacity now hash)
    → let (d, b) = lua_token_bucket now rate capacity take hash in
      d.allowed ≡ false
      → OnGrid rate capacity t b
      → now + d.retry_after ≤ t
      → ((lua_token_bucket t rate capacity take (some b)).0.allowed ≡ true)
        × (d.retry_after ≤ (take * 1000 - available rate capacity now hash) / rate + 2)
retry_after_enough now rate capacity take t hash r c before denied after over = (
  (retry_after_threshold now rate capacity take t hash r c (omega arith) denied).1 over,
  retry_after_bound now rate capacity take hash r,
)

-- A call of the script, and whether the hash had expired by then (EXPIRE key 60).
pub record Call : Type 0 where
  pub now : ℕ
  pub take : ℕ
  pub expired : Bool

abbrev pub hash_at : Call → Bucket → Option Bucket
hash_at c b = if c.expired then none else some b

-- The thousandths given out by a row of calls, from a hash.
pub granted : ℕ → ℕ → Bucket → List Call → ℕ
granted rate capacity b [] = 0
granted rate capacity b (c ∷ cs) =
    let (d, b') = lua_token_bucket c.now rate capacity c.take (hash_at c b) in
    (if d.allowed then c.take * 1000 else 0) + granted rate capacity b' cs

-- The clocks of the callers agree, and the hash lives for a minute.
abbrev pub InOrder : ℕ → List Call → Type 0
InOrder t [] = Unit
InOrder t (c ∷ cs) = (t ≤ c.now) × (c.expired ≡ true → t + 60000 ≤ c.now) × InOrder c.now cs

abbrev pub last_time : ℕ → List Call → ℕ
last_time t [] = t
last_time t (c ∷ cs) = last_time c.now cs

last_time-le : (t : ℕ) (cs : List Call) → InOrder t cs → t ≤ last_time t cs
last_time-le t [] h = omega arith
last_time-le t (c ∷ cs) h = omega (arith, last_time-le c.now cs h.2)

distribute : (a b c r : ℕ) → a ≤ b → b ≤ c → (b - a) * r + (c - b) * r ≡ (c - a) * r
distribute a b c r h k = grind arith

min-le_right : (m n : ℕ) → min m n ≤ n
min-le_right m n = omega arith

-- An idle minute refills a bucket that a minute can fill.
expired_growth :
    (rate capacity tokens ts now x : ℕ)
    → capacity * 1000 ≤ 60000 * rate
    → ts + 60000 ≤ now
    → min (capacity * 1000) x ≤ tokens + (now - ts) * rate
expired_growth rate capacity tokens ts now x k h = omega (arith, k, grown)
  where
    grown : 60000 * rate ≤ (now - ts) * rate
    grown = grind arith

available_growth :
    (rate capacity : ℕ) (b : Bucket) (c : Call)
    → capacity * 1000 ≤ 60000 * rate
    → (c.expired ≡ true → b.ts + 60000 ≤ c.now)
    → available rate capacity c.now (hash_at c b) ≤ b.tokens + (c.now - b.ts) * rate
unfolding available
available_growth rate capacity b c k e = elim (Bool-cases c.expired) [
  | inl gone ↦ rw gone (expired_growth rate capacity b.tokens b.ts c.now _ k (e gone))
  | inr kept ↦ rw kept (min-le_right (capacity * 1000) (b.tokens + (c.now - b.ts) * rate))
]

granted_bound :
    (rate capacity t : ℕ) (b : Bucket) (cs : List Call)
    → capacity * 1000 ≤ 60000 * rate
    → b.ts ≡ t
    → InOrder t cs
    → granted rate capacity b cs ≤ b.tokens + (last_time t cs - t) * rate
unfolding granted
granted_bound rate capacity t b [] k e h = omega arith
granted_bound rate capacity t b (c ∷ cs) k e h = chain (
    granted_bound rate capacity c.now (lua_token_bucket c.now rate capacity c.take (hash_at c b)).1
      cs k (lua_token_bucket_lem c.now rate capacity c.take (hash_at c b)).4 h.2)
  where
    after : Bucket
    after = (lua_token_bucket c.now rate capacity c.take (hash_at c b)).1

    paid : ℕ
    paid =
        if (lua_token_bucket c.now rate capacity c.take (hash_at c b)).0.allowed
        then c.take * 1000
        else 0

    balance : after.tokens + paid ≡ available rate capacity c.now (hash_at c b)
    balance = (lua_token_bucket_lem c.now rate capacity c.take (hash_at c b)).1

    growth : available rate capacity c.now (hash_at c b) ≤ b.tokens + (c.now - t) * rate
    growth = rw (← e) (available_growth rate capacity b c k (rw e h.1))

    chain :
        granted rate capacity after cs ≤ after.tokens + (last_time c.now cs - c.now) * rate
        → paid + granted rate capacity after cs ≤ b.tokens + (last_time c.now cs - t) * rate
    chain rest = omega (
      arith,
      balance,
      growth,
      distribute t c.now (last_time c.now cs) rate h.0 (last_time-le c.now cs h.2),
    )

-- The rate limit, over any row of calls that share a hash and whose clocks do not run backwards, from
-- a bucket within its capacity: up to the last call, at most a full bucket and `rate` tokens for
-- each second since the bucket's time are given out (counted in thousandths of a token). The hash
-- may expire after an idle minute, provided that a minute refills a bucket.
pub granted-le :
    (rate capacity : ℕ) (b : Bucket) (cs : List Call)
    → capacity * 1000 ≤ 60000 * rate
    → b.tokens ≤ capacity * 1000
    → InOrder b.ts cs
    → granted rate capacity b cs ≤ capacity * 1000 + (last_time b.ts cs - b.ts) * rate
granted-le rate capacity b cs k full h =
    omega (arith, granted_bound rate capacity b.ts b cs k refl h)
