-- ===== src/RateLimit/Reservoir/Conservation.antt =====
-- Many workers share one reservoir (internal/ratelimit/reservoir.go): every interleaving of the
-- critical sections and calls of `Take` accounts for each token.
use event_driven_notificatio.Prelude.{ℕ, suc, ◌+◌, ◌*◌, ◌≤◌, ◌<◌, ◌≡◌, some, arith}
use event_driven_notificatio.RateLimit.Reservoir.{Config, take_local, credit}

-- `pending` counts the refills that the bucket has granted and whose worker has not yet locked the
-- mutex to credit them; `charged` the tokens that the bucket has given out, `used` the deliveries
-- that were let through.
pub record Shared : Type 0 where
  pub tokens : ℕ
  pub pending : ℕ
  pub charged : ℕ
  pub used : ℕ

pub data Step (cfg : Config) : Shared → Shared → Type 0 where
  -- a worker finds a local token
  local :
      (s : Shared) (rest : ℕ)
      → take_local s.tokens ≡ some rest
      → Step cfg s (record s { tokens = rest; used = s.used + 1 })
  -- the bucket grants a worker that found none a batch
  granted_batch :
      (s : Shared)
      → Step cfg s (record s { pending = s.pending + 1; charged = s.charged + cfg.batch_size })
  -- that worker credits the batch and uses one token
  credited :
      (s : Shared) (k : ℕ)
      → s.pending ≡ suc k
      → Step cfg s (record s { tokens = credit cfg s.tokens; pending = k; used = s.used + 1 })
  -- the bucket grants a worker a single token
  granted_one : (s : Shared) → Step cfg s (record s { charged = s.charged + 1; used = s.used + 1 })

pub data Run (cfg : Config) (s : Shared) : Shared → Type 0 where
  here : Run cfg s s
  next : {t u : Shared} → Run cfg s t → Step cfg t u → Run cfg s u

abbrev pub idle : Shared
idle = record { tokens = 0; pending = 0; charged = 0; used = 0 }

abbrev pub Balanced : Config → Shared → Type 0
Balanced cfg s = s.used + s.tokens + s.pending * cfg.batch_size ≡ s.charged

Step-Balanced :
    (cfg : Config) {s t : Shared}
    → 0 < cfg.batch_size
    → Step cfg s t
    → Balanced cfg s
    → Balanced cfg t
unfolding take_local credit
Step-Balanced cfg p (local s rest e) h = ground arith
Step-Balanced cfg p (granted_batch s) h = grind arith
Step-Balanced cfg p (credited s k e) h =
    let split : s.pending * cfg.batch_size ≡ k * cfg.batch_size + cfg.batch_size =
      rw e (omega arith) in
    omega (arith, split)
Step-Balanced cfg p (granted_one s) h = omega arith

Run-Balanced :
    (cfg : Config) {s t : Shared}
    → 0 < cfg.batch_size
    → Run cfg s t
    → Balanced cfg s
    → Balanced cfg t
Run-Balanced cfg p here h = h
Run-Balanced cfg p (next r st) h = Step-Balanced cfg p st (Run-Balanced cfg p r h)

-- In every interleaving of the workers of a process, from an empty reservoir and with a positive
-- batch size: the tokens charged by the shared bucket are exactly the deliveries let through, the
-- tokens in the reservoir, and a batch for each refill that still waits to be credited. So no
-- delivery goes through without a token of the shared bucket.
pub Run-conserves :
    (cfg : Config) (t : Shared)
    → 0 < cfg.batch_size
    → Run cfg idle t
    → (t.used + t.tokens + t.pending * cfg.batch_size ≡ t.charged) × (t.used ≤ t.charged)
Run-conserves cfg t p r =
    let e : Balanced cfg t = Run-Balanced cfg p r (omega arith) in (e, omega (arith, e))
