-- ===== src/Worker/Gate/Total.antt =====
-- The end of the throttle loop of handle (internal/worker/pipeline.go).
use event_driven_notificatio.Prelude.{
  ℕ, zero, suc, ◌+◌, ◌-◌, ◌*◌, ◌≤◌, ◌≡◌, ◌≢◌, refl, sym, ◌∙◌, ◌⊎◌, inl, inr, true, false, ◌||◌,
  Bool-cases, Option, none, some, arith, ltb,
}
use event_driven_notificatio.RateLimit.Reservoir.{TakeResult, allowed, denied, failed}
use event_driven_notificatio.Worker.Calls.{Calls}
use event_driven_notificatio.Worker.Gate.{
  Gate, pass, sustained, stopped, throttle, gate, after_take, pause, minimum_pause, millisecond,
  bucket_refill_ceiling, total_inline_budget, enough_rounds,
}

-- A round that goes on has not used up the budget, and takes at least the minimal pause.
fuel_left :
    (fuel now wait lag : ℕ)
    → (total_inline_budget + 1 - now) + minimum_pause ≤ suc fuel * minimum_pause
    → (ltb bucket_refill_ceiling wait || ltb total_inline_budget (now + wait)) ≡ false
    → (total_inline_budget + 1 - (now + pause wait + lag)) + minimum_pause ≤ fuel * minimum_pause
fuel_left fuel now wait lag h e = ground arith

after_take_total :
    (later : ℕ → Option Gate) (t : TakeResult)
    → ((w : ℕ) → later w ≢ none)
    → after_take later t ≢ none
unfolding after_take
after_take_total later failed h = λ e. cc
after_take_total later allowed h = λ e. cc
after_take_total later (denied w) h = h (w * millisecond)

module _ (calls : Calls) (fuel k now wait : ℕ) where
  throttle_over :
      (ltb bucket_refill_ceiling wait || ltb total_inline_budget (now + wait)) ≡ true
      → throttle calls (suc fuel) k now wait ≡ some (sustained wait)
  unfolding throttle
  throttle_over over = rw over

  module _
      (within : (ltb bucket_refill_ceiling wait || ltb total_inline_budget (now + wait))
        ≡ false) where
    throttle_cancelled :
        calls.cancelled k ≡ true → throttle calls (suc fuel) k now wait ≡ some stopped
    unfolding throttle
    throttle_cancelled gone = rw (within, gone)

    throttle_next :
        calls.cancelled k ≡ false
        → throttle calls (suc fuel) k now wait
          ≡ after_take
              (throttle calls fuel (suc k) (now + pause wait + calls.lag k))
              (calls.takes k)
    unfolding throttle
    throttle_next there = rw (within, there)

of_ne_none {ℓ} : {A : Type ℓ} (o : Option A) → o ≢ none → (a : A) × (o ≡ some a)
of_ne_none none h = absurd (h refl)
of_ne_none (some a) h = (a, refl)

throttle_total :
    (calls : Calls) (fuel k now wait : ℕ)
    → (total_inline_budget + 1 - now) + minimum_pause ≤ fuel * minimum_pause
    → throttle calls fuel k now wait ≢ none
throttle_total calls zero k now wait h = absurd (omega arith)
throttle_total calls (suc fuel) k now wait h =
    elim (Bool-cases (ltb bucket_refill_ceiling wait || ltb total_inline_budget (now + wait))) [
      | inl over ↦ rw (throttle_over calls fuel k now wait over) (λ e. cc)
      | inr within ↦ elim (Bool-cases (calls.cancelled k)) [
        | inl gone ↦ rw (throttle_cancelled calls fuel k now wait within gone) (λ e. cc)
        | inr there ↦ rw (throttle_next calls fuel k now wait within there) (
            after_take_total _ (calls.takes k) (λ w.
              throttle_total calls fuel (suc k) (now + pause wait + calls.lag k) w
                (fuel_left fuel now wait (calls.lag k) h within)))
      ]
    ]

-- Whatever the bucket answers and however late the timers fire, the gate comes to a decision within
-- its fuel: each round that goes on costs at least five milliseconds of the five-second budget.
pub gate_total : (calls : Calls) → (g : Gate) × (gate calls ≡ some g)
unfolding gate
gate_total calls = of_ne_none (gate calls) (
    after_take_total _ calls.first_take
      (λ w. throttle_total calls enough_rounds 0 0 w (omega arith)))

after_take_pass :
    (later : ℕ → Option Gate) (t : TakeResult)
    → after_take later t ≡ some pass
    → (t ≡ allowed) ⊎ ((w : ℕ) × (later w ≡ some pass))
unfolding after_take
after_take_pass later failed e = cc
after_take_pass later allowed e = inl refl
after_take_pass later (denied w) e = inr (w * millisecond, e)

throttle_pass :
    (calls : Calls) (fuel k now wait : ℕ)
    → throttle calls fuel k now wait ≡ some pass
    → (j : ℕ) × (calls.takes j ≡ allowed)
throttle_pass calls zero k now wait e = absurd (none_differs e)
  where
    none_differs : throttle calls zero k now wait ≡ some pass → ⊥
    none_differs e' = unfold throttle in cc
throttle_pass calls (suc fuel) k now wait e =
    elim (Bool-cases (ltb bucket_refill_ceiling wait || ltb total_inline_budget (now + wait))) [
      | inl over ↦ cc (throttle_over calls fuel k now wait over)
      | inr within ↦ elim (Bool-cases (calls.cancelled k)) [
        | inl gone ↦ cc (throttle_cancelled calls fuel k now wait within gone)
        | inr there ↦
            elim (after_take_pass _ (calls.takes k)
              (sym (throttle_next calls fuel k now wait within there) ∙ e)) [
                | inl a ↦ (k, a)
                | inr (w, rest) ↦
                    throttle_pass calls fuel (suc k) (now + pause wait + calls.lag k) w rest
              ]
      ]
    ]

-- A pass needs a token: the first answer of Take, or that of some round, allowed the delivery.
pub gate_pass :
    (calls : Calls)
    → gate calls ≡ some pass
    → (calls.first_take ≡ allowed) ⊎ ((k : ℕ) × (calls.takes k ≡ allowed))
unfolding gate
gate_pass calls e = elim (after_take_pass (throttle calls enough_rounds 0 0) calls.first_take e) [
  | inl a ↦ inl a
  | inr (w, rest) ↦ inr (throttle_pass calls enough_rounds 0 0 w rest)
]
