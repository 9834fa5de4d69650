-- ===== src/Examples/Limits.antt =====
-- Runs of the rate limiter, the gate, the provider client and the topology.
use event_driven_notificatio.Prelude.{
  ℕ, ◌+◌, ◌/◌, ◌%◌, ◌-◌, ◌*◌, ◌≤◌, ◌<◌, ◌≡◌, refl, ◌↔◌, ◌⊎◌, true, false, List, [], ◌∷◌, none, some,
  arith, if◌then◌else◌,
}
use event_driven_notificatio.Topology.{declare_topology}
use event_driven_notificatio.Topology.Routing.{
  Bounces, sms, medium, email_sms_push, push_sms_email, declare_topology-Bounces,
}
use event_driven_notificatio.RateLimit.{lua_token_bucket}
use event_driven_notificatio.RateLimit.Bounds.{
  available, granted, Call, lua_token_bucket_exact, OnGrid, retry_after_enough, granted-le,
}
use event_driven_notificatio.RateLimit.Skew.{drained, skewed_clock_refills}
use event_driven_notificatio.RateLimit.Reservoir.{worker_config, credit, allowed}
use event_driven_notificatio.RateLimit.Reservoir.Conservation.{
  Shared, here, next, granted_batch, credited, idle, Run-conserves,
}
use event_driven_notificatio.Provider.{RetryAfter, answered, send}
use event_driven_notificatio.Provider.Classification.{
  is_accepted, is_retried, IsAccepted, IsRetried, send_lem,
}
use event_driven_notificatio.Provider.Ssrf.{Addr, v4, ssrf_control}
use event_driven_notificatio.Provider.Ssrf.Ranges.{expected, ssrf_control_lem}
use event_driven_notificatio.Worker.Gate.{Gate, gate}
use event_driven_notificatio.Worker.Gate.Total.{gate_total, gate_pass}
use event_driven_notificatio.Examples.Data.{calls_for}

on_grid : (now : ℕ) → (now - 0) % 125 ≡ 0 → now < 2000 → OnGrid 100 100 now (drained 0)
on_grid now h l = record {
  tokens = refl;
  elapsed = h;
  small = omega arith;
  small_capacity = omega arith;
}

lua_token_bucket_exact_example :
    let (d, b) = lua_token_bucket 1000 100 100 30 (some (drained 0)) in
    ((d.allowed ≡ true) ↔ (30 * 1000 ≤ available 100 100 1000 (some (drained 0))))
    × (b.tokens + (if d.allowed then 30 * 1000 else 0) ≡ available 100 100 1000 (some (drained 0)))
    × (b.tokens ≤ 100 * 1000)
    × (d.tokens_left ≡ b.tokens)
    × (b.ts ≡ 1000)
    × (b.tokens % 125 ≡ 0)
lua_token_bucket_exact_example =
    lua_token_bucket_exact 1000 100 100 30 (some (drained 0)) (on_grid 1000 refl (omega arith))

denied_example : (lua_token_bucket 125 100 100 30 (some (drained 0))).0.allowed ≡ false
unfolding lua_token_bucket
denied_example = refl

left-OnGrid : OnGrid 100 100 375 (lua_token_bucket 125 100 100 30 (some (drained 0))).1
unfolding lua_token_bucket
left-OnGrid = record {
  tokens = refl;
  elapsed = refl;
  small = omega arith;
  small_capacity = omega arith;
}

waited : 125 + (lua_token_bucket 125 100 100 30 (some (drained 0))).0.retry_after ≤ 375
unfolding lua_token_bucket
waited = omega arith

retry_after_enough_example :
    let (d, b) = lua_token_bucket 125 100 100 30 (some (drained 0)) in
    ((lua_token_bucket 375 100 100 30 (some b)).0.allowed ≡ true)
    × (d.retry_after ≤ (30 * 1000 - available 100 100 125 (some (drained 0))) / 100 + 2)
retry_after_enough_example =
    retry_after_enough 125 100 100 30 375 (some (drained 0)) (omega arith) (omega arith)
      (on_grid 125 refl (omega arith)) denied_example left-OnGrid waited

abbrev calls_example : List Call
calls_example =
    record { now = 500; take = 20; expired = false }
    ∷ record { now = 700; take = 60; expired = false }
    ∷ []

granted-le_example : granted 100 100 (drained 0) calls_example ≤ 100 * 1000 + (700 - 0) * 100
granted-le_example =
    granted-le 100 100 (drained 0) calls_example (omega arith) (omega arith)
      (omega arith, (λ e. cc), (omega arith, (λ e. cc), tt))

skewed_clock_refills_example :
    let b = lua_token_bucket 1000 100 100 30 (some (drained 2000)) in
    ((lua_token_bucket 2000 100 100 30 (some (drained 2000))).0.allowed ≡ false)
    × (b.0.allowed ≡ false)
    × ((lua_token_bucket 2000 100 100 30 (some b.1)).0.allowed ≡ true)
skewed_clock_refills_example =
    skewed_clock_refills 1000 2000 100 100 30 (omega arith) (omega arith) (omega arith)
      (omega arith) refl (omega arith) (omega arith)

abbrev refilled_once : Shared
refilled_once = record { tokens = credit worker_config 0; pending = 0; charged = 20; used = 1 }

Run-conserves_example : (1 + credit worker_config 0 + 0 * 20 ≡ 20) × (1 ≤ 20)
Run-conserves_example =
    Run-conserves worker_config refilled_once (omega arith)
      (next (next here (granted_batch idle)) (credited _ 0 refl))

gate_total_example : (g : Gate) × (gate (calls_for 202) ≡ some g)
gate_total_example = gate_total (calls_for 202)

gate_pass_example : (allowed ≡ allowed) ⊎ ((k : ℕ) × (allowed ≡ allowed))
unfolding gate
gate_pass_example = gate_pass (calls_for 202) refl

abbrev no_header : RetryAfter
no_header = record { blank = true; seconds = none; date = none }

abbrev overloaded : ℕ
overloaded = 503

send_lem_example :
    ((is_accepted (send (λ b. ("", "")) 0 (answered overloaded no_header [])) ≡ true)
      ↔ IsAccepted (answered overloaded no_header []))
    × ((is_retried (send (λ b. ("", "")) 0 (answered overloaded no_header [])) ≡ true)
        ↔ IsRetried (answered overloaded no_header []))
send_lem_example = send_lem (λ b. ("", "")) 0 (answered overloaded no_header [])

-- 10.0.0.1
abbrev private_address : Addr
private_address = v4 167772161

ssrf_control_lem_example :
    ssrf_control (λ s. some "10.0.0.1") (λ s. some private_address) "10.0.0.1:80"
    ≡ expected (some private_address)
ssrf_control_lem_example =
    ssrf_control_lem (λ s. some "10.0.0.1") (λ s. some private_address) "10.0.0.1:80" tt

blocked_example : expected (some private_address) ≡ some "rfc1918"
blocked_example = refl

declare_topology-Bounces_example :
    let (ds, ok) =
      declare_topology
        (λ d. true)
        ("email" ∷ "sms" ∷ "push" ∷ [])
        ("push" ∷ "sms" ∷ "email" ∷ []) in
    (ok ≡ true) × Bounces ds "sms" "30s"
declare_topology-Bounces_example = declare_topology-Bounces sms medium email_sms_push push_sms_email
