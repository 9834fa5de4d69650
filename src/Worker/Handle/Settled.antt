-- ===== src/Worker/Handle/Settled.antt =====
-- Where a delivery that handle (internal/worker/pipeline.go) acknowledges leaves its notification.
use event_driven_notificatio.Prelude.{
  ℕ, ◌+◌, ◌≡◌, refl, ap, ◌∙◌, ◌⊎◌, inl, inr, List, ◌∷◌, Bool-cases, Bool, true, false, String,
  Option, none, some, if◌then◌else◌, ltb, ◌&&◌,
}
use event_driven_notificatio.Domain.{sending, sent, queued}
use event_driven_notificatio.Store.{
  Bytes, Notification, DeliveryAttempt, Db, Reply, row, no_rows, failure,
}
use event_driven_notificatio.Store.Notifications.{
  find, is_claimable, to_sending, revert_to_queued, revert_to_queued_no_attempt,
}
use event_driven_notificatio.Store.Lifecycle.Bulk.{insert_delivery_attempt_same}
use event_driven_notificatio.Store.Lookup.{
  status_of, status_in, find_of_same, mark_sending_cas_claims, revert_to_queued_at,
  revert_to_queued_no_attempt_at, mark_sent_at,
}
use event_driven_notificatio.Provider.{
  SendError, SendResponse, Sent, accepted, rejected, is_retryable,
}
use event_driven_notificatio.Worker.Calls.{
  Envelope, Delivery, World, WaitMessage, Codec, Calls, Lock, lock_taken, lock_held, lock_error,
  Verdict, ack, terminal, max_attempts,
}
use event_driven_notificatio.Worker.Gate.{Gate, pass, sustained, stopped, broken, gate}
use event_driven_notificatio.Worker.Deliver.{
  retry_message, route_to_retry_tier, acked_if, reverted, failed_attempt, attempted, emit_status,
  give_up, retry_later, on_rejected, after_mark_sent, on_accepted, on_sent, deliver,
}
use event_driven_notificatio.Worker.Handle.{after_gate, after_cas, handle}
use event_driven_notificatio.Worker.Handle.Verdicts.{Names, handle_claims}

-- What is true of notification `i` and its message, after a run that began with `waiting` messages
-- on their way.
abbrev pub Settled : ℕ → Bytes → List WaitMessage → Verdict × World → Type 0
Settled i body waiting (v, w) =
    v ≡ ack
    → (status_of i w.db ≡ some sent)
      ⊎ ((status_of i w.db ≡ some queued)
          × ((m : WaitMessage) × (w.waits ≡ m ∷ waiting) × (m.payload ≡ body)))

routed-Settled :
    (calls : Calls) (attempt : ℕ) (body : Bytes) (env : Envelope) (i : ℕ)
    (waiting : List WaitMessage) (w : World)
    → status_of i w.db ≡ some queued
    → w.waits ≡ waiting
    → Settled i body waiting (acked_if (route_to_retry_tier calls attempt body env w))
unfolding route_to_retry_tier
routed-Settled calls attempt body env i waiting w s l = elim (Bool-cases calls.has_publisher) [
  | inr no_p ↦ rw no_p (λ e. cc)
  | inl yes_p ↦ elim (Bool-cases calls.publish_fails) [
    | inl fails ↦ rw (yes_p, fails) (λ e. cc)
    | inr works ↦
        rw (yes_p, works)
          (λ e. inr (
            s,
            (
              retry_message attempt body env,
              ap (λ ws. retry_message attempt body env ∷ ws) l,
              refl,
            ),
          ))
  ]
]

status_of-find :
    (i : ℕ) (db : Db) (n : Notification) → find i db ≡ some n → status_of i db ≡ some n.status
unfolding status_of
status_of-find i db n e = ap status_in e

if-Settled :
    (b : Bool) (i : ℕ) (body : Bytes) (k : List WaitMessage) (x y : Verdict × World)
    → Settled i body k x
    → Settled i body k y
    → Settled i body k (if b then x else y)
if-Settled true i body k x y hx hy = hx
if-Settled false i body k x y hx hy = hy

terminal-Settled :
    (i : ℕ) (body : Bytes) (k : List WaitMessage) (r : Verdict × World)
    → r.0 ≡ terminal
    → Settled i body k r
terminal-Settled i body k r e = λ a. cc

-- The row is still there after the attempt is recorded, and no message has gone out.
pub attempted_there :
    (fails : Bool) (a : DeliveryAttempt) (w : World) (i : ℕ) (n : Notification)
    → find i w.db ≡ some n
    → find i (attempted fails a w).db ≡ some n
attempted_there true a w i n there = there
attempted_there false a w i n there =
    find_of_same i w.db _ (insert_delivery_attempt_same a w.db) ∙ there

attempted_waits :
    (fails : Bool) (a : DeliveryAttempt) (w : World) → (attempted fails a w).waits ≡ w.waits
attempted_waits true a w = refl
attempted_waits false a w = refl

pub reverted_works :
    (fails : Bool) (db : Db) (w : World)
    → fails ≡ false
    → reverted fails db w ≡ record w { db = db }
reverted_works fails db w e = rw e

module _ (calls : Calls) (n : Notification) (reverts : calls.revert_fails ≡ false)
    (held : n.status ≡ sending) where
  -- Both ways of giving the row back, followed by the wait tier.
  retried-Settled :
      (attempt : ℕ) (body : Bytes) (env : Envelope) (err : Option Bytes) (w : World)
      (waiting : List WaitMessage)
      → find n.id w.db ≡ some n
      → w.waits ≡ waiting
      → Settled n.id body waiting (
          acked_if (
            route_to_retry_tier calls attempt body env
              (reverted calls.revert_fails (revert_to_queued n.id err calls.now w.db) w)))
  retried-Settled attempt body env err w waiting there l =
      rw (reverted_works calls.revert_fails (revert_to_queued n.id err calls.now w.db) w reverts) (
        routed-Settled calls attempt body env n.id waiting _
          (status_of-find n.id _ _ (revert_to_queued_at n.id w.db n there held err calls.now)) l)

  bounced-Settled :
      (attempt : ℕ) (body : Bytes) (env : Envelope) (err : Option Bytes) (w : World)
      → find n.id w.db ≡ some n
      → Settled n.id body w.waits (
          acked_if (
            route_to_retry_tier calls attempt body env (
              reverted calls.revert_fails (revert_to_queued_no_attempt n.id err calls.now w.db) w)))
  bounced-Settled attempt body env err w there =
      rw
        (reverted_works calls.revert_fails (revert_to_queued_no_attempt n.id err calls.now w.db) w
          reverts)
        (routed-Settled calls attempt body env n.id w.waits _
          (status_of-find n.id _ _
            (revert_to_queued_no_attempt_at n.id w.db n there held err calls.now))
          refl)

  on_rejected-Settled :
      (codec : Codec) (channel : String) (d : Delivery) (env : Envelope) (e : SendError) (w : World)
      → find n.id w.db ≡ some n
      → Settled n.id d.body w.waits (on_rejected codec calls channel n d env e w)
  unfolding on_rejected retry_later give_up
  on_rejected-Settled codec channel d env e w there =
      let a = failed_attempt codec n.id (n.attempt_count + 1) calls.now e in
      let w₁ = attempted calls.attempt_fails a w in
      if-Settled (is_retryable e.kind && ltb (n.attempt_count + 1) max_attempts) n.id d.body w.waits
        (retry_later codec calls n (n.attempt_count + 1) d env e w₁)
        (give_up codec calls channel n d env e w₁)
        (retried-Settled (n.attempt_count + 1) d.body env (some (codec.describe e)) w₁ w.waits
          (attempted_there calls.attempt_fails a w n.id n there)
          (attempted_waits calls.attempt_fails a w))
        (terminal-Settled n.id d.body w.waits (give_up codec calls channel n d env e w₁) refl)

  after_mark_sent-Settled :
      (channel : String) (env : Envelope) (reply : Reply Notification) (body : Bytes)
      (k : List WaitMessage) (w w' : World)
      → status_of n.id w'.db ≡ some sent
      → Settled n.id body k (after_mark_sent calls channel n env reply w w')
  unfolding after_mark_sent emit_status
  after_mark_sent-Settled channel env (row m) body k w w' s = λ _. inl s
  after_mark_sent-Settled channel env no_rows body k w w' s = λ e. cc
  after_mark_sent-Settled channel env failure body k w w' s = λ e. cc

  on_accepted-Settled :
      (channel : String) (body : Bytes) (env : Envelope) (r : SendResponse) (w : World)
      → find n.id w.db ≡ some n
      → Settled n.id body w.waits (on_accepted calls channel n env r w)
  unfolding on_accepted
  on_accepted-Settled channel body env r w there =
      after_mark_sent-Settled channel env _ body w.waits _ _ (
        status_of-find n.id _ _
          (mark_sent_at n.id _ n (attempted_there calls.attempt_fails _ w n.id n there) held
            calls.now).1)

  on_sent-Settled :
      (codec : Codec) (channel : String) (d : Delivery) (env : Envelope) (s : Sent) (w : World)
      → find n.id w.db ≡ some n
      → Settled n.id d.body w.waits (on_sent codec calls channel n d env s w)
  unfolding on_sent
  on_sent-Settled codec channel d env (accepted r) w there =
      on_accepted-Settled channel d.body env r w there
  on_sent-Settled codec channel d env (rejected e) w there =
      on_rejected-Settled codec channel d env e w there

  deliver-Settled :
      (codec : Codec) (channel : String) (d : Delivery) (env : Envelope) (w : World)
      → find n.id w.db ≡ some n
      → Settled n.id d.body w.waits (deliver codec calls channel n d env w)
  unfolding deliver
  deliver-Settled codec channel d env w there =
      if-Settled calls.refused n.id d.body w.waits _ _
        (bounced-Settled (n.attempt_count + 1) d.body env (some calls.refusal) w there)
        (on_sent-Settled codec channel d env _ _ there)

  after_gate-Settled :
      (codec : Codec) (channel : String) (d : Delivery) (env : Envelope) (g : Option Gate)
      (w : World)
      → find n.id w.db ≡ some n
      → Settled n.id d.body w.waits (after_gate codec calls channel n d env g w)
  unfolding after_gate
  after_gate-Settled codec channel d env none w there = λ e. cc
  after_gate-Settled codec channel d env (some pass) w there =
      deliver-Settled codec channel d env w there
  after_gate-Settled codec channel d env (some broken) w there = λ e. cc
  after_gate-Settled codec channel d env (some stopped) w there = λ e. cc
  after_gate-Settled codec channel d env (some (sustained wait)) w there =
      bounced-Settled 1 d.body env none w there

  after_cas-Settled :
      (codec : Codec) (channel : String) (d : Delivery) (env : Envelope) (l : Lock) (w : World)
      → find n.id w.db ≡ some n
      → l ≡ lock_taken
      → Settled n.id d.body w.waits (after_cas codec calls channel n d env l w)
  unfolding after_cas
  after_cas-Settled codec channel d env lock_taken w there taken =
      after_gate-Settled codec channel d env (gate calls) w there
  after_cas-Settled codec channel d env lock_held w there taken = cc
  after_cas-Settled codec channel d env lock_error w there taken = cc

-- For a delivery below the redelivery cap whose body names a notification that is 'pending' or
-- 'queued', when the CAS and the statements that give a row back reach the database and the in-flight
-- lock is obtained: if `handle` acknowledges the delivery, then the notification is sent, or it is
-- queued and exactly one message has been published to a wait tier, with the body of the delivery.
-- So an acknowledged delivery is not lost, whatever else fails.
pub handle-Settled :
    (codec : Codec) (calls : Calls) (channel : String) (d : Delivery) (env : Envelope) (w : World)
    (n : Notification)
    → Names codec d env n.id
    → calls.cas_fails ≡ false
    → calls.revert_fails ≡ false
    → calls.lock ≡ lock_taken
    → find n.id w.db ≡ some n
    → is_claimable n ≡ true
    → Settled n.id d.body w.waits (handle codec calls channel d w)
handle-Settled codec calls channel d env w n names cas reverts lock there c =
    rw (handle_claims codec calls channel d env n.id names cas w n there c) (
      after_cas-Settled calls (to_sending calls.now n) reverts refl codec channel d env calls.lock _
        (mark_sending_cas_claims n.id w.db n there calls.now c).1 lock)
