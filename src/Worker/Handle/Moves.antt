-- ===== src/Worker/Handle/Moves.antt =====
-- A run of the worker (internal/worker/pipeline.go) and the life cycle of notifications.
use event_driven_notificatio.Prelude.{
  ℕ, ◌+◌, ◌≡◌, Bool, true, false, String, Option, none, some, arith, if◌then◌else◌,
}
use event_driven_notificatio.Store.{
  Bytes, Notification, DeliveryAttempt, Db, Reply, row, no_rows, failure,
}
use event_driven_notificatio.Store.Notifications.{mark_dead_letter, revert_to_queued_no_attempt}
use event_driven_notificatio.Store.Lifecycle.{Follows, Follows-refl, Follows-trans}
use event_driven_notificatio.Store.Lifecycle.Statements.{
  Follows-mark_sending_cas, Follows-mark_sent, Follows-revert_to_queued,
  Follows-revert_to_queued_no_attempt,
}
use event_driven_notificatio.Store.Lifecycle.Endings.{Follows-mark_dead_letter}
use event_driven_notificatio.Store.Lifecycle.Bulk.{
  Follows-insert_dead_letter, Follows-insert_delivery_attempt,
}
use event_driven_notificatio.Provider.{SendError, SendResponse, Sent, accepted, rejected}
use event_driven_notificatio.Worker.Calls.{
  Envelope, Delivery, World, Codec, Lock, lock_taken, lock_held, lock_error, Calls, Verdict, ack,
  terminal, retry,
}
use event_driven_notificatio.Worker.Gate.{Gate, pass, sustained, stopped, broken, gate}
use event_driven_notificatio.Worker.Deliver.{
  route_to_retry_tier, acked_if, reverted, attempted, emit_status, give_up, retry_later,
  on_rejected, after_mark_sent, on_accepted, on_sent, deliver,
}
use event_driven_notificatio.Worker.Handle.{
  after_gate, after_cas, on_claim, handle_id, handle_envelope, handle, after_handle,
  handle_delivery,
}

abbrev Ok : World → Verdict × World → Type 0
Ok w r = Follows w.db r.1.db

Follows-reverted :
    (fails : Bool) (db : Db) (w : World) → Follows w.db db → Follows w.db (reverted fails db w).db
Follows-reverted true db w h = Follows-refl w.db
Follows-reverted false db w h = h

route_same :
    (calls : Calls) (attempt : ℕ) (body : Bytes) (env : Envelope) (w : World)
    → (acked_if (route_to_retry_tier calls attempt body env w)).1.db ≡ w.db
unfolding route_to_retry_tier
route_same calls attempt body env w = ground arith

Ok-routed :
    (calls : Calls) (attempt : ℕ) (body : Bytes) (env : Envelope) (w w' : World)
    → Follows w.db w'.db
    → Ok w (acked_if (route_to_retry_tier calls attempt body env w'))
Ok-routed calls attempt body env w w' h = rw (route_same calls attempt body env w') h

Follows-attempted :
    (fails : Bool) (a : DeliveryAttempt) (w : World) → Follows w.db (attempted fails a w).db
Follows-attempted fails a w = Follows-reverted fails _ w (Follows-insert_delivery_attempt a w.db)

give_up-Ok :
    (codec : Codec) (calls : Calls) (channel : String) (n : Notification) (d : Delivery)
    (env : Envelope) (e : SendError) (w : World)
    → Ok w (give_up codec calls channel n d env e w)
unfolding give_up
give_up-Ok codec calls channel n d env e w =
    let db₁ = (mark_dead_letter n.id (some (codec.describe e)) calls.now w.db).1 in
    let w₁ = reverted calls.dead_fails db₁ w in
    Follows-trans w.db w₁.db _
      (Follows-reverted calls.dead_fails db₁ w
        (Follows-mark_dead_letter n.id (some (codec.describe e)) calls.now w.db))
      (Follows-reverted calls.dead_row_fails _ w₁ (Follows-insert_dead_letter _ w₁.db))

retry_later-Ok :
    (codec : Codec) (calls : Calls) (n : Notification) (attempt : ℕ) (d : Delivery) (env : Envelope)
    (e : SendError) (w : World)
    → Ok w (retry_later codec calls n attempt d env e w)
unfolding retry_later
retry_later-Ok codec calls n attempt d env e w = Ok-routed calls attempt d.body env w _ (
    Follows-reverted calls.revert_fails _ w
      (Follows-revert_to_queued n.id (some (codec.describe e)) calls.now w.db))

if-Ok : (b : Bool) (w : World) (x y : Verdict × World) → Ok w x → Ok w y → Ok w (if b then x else y)
if-Ok true w x y hx hy = hx
if-Ok false w x y hx hy = hy

on_rejected-Ok :
    (codec : Codec) (calls : Calls) (channel : String) (n : Notification) (d : Delivery)
    (env : Envelope) (e : SendError) (w : World)
    → Ok w (on_rejected codec calls channel n d env e w)
unfolding on_rejected
on_rejected-Ok codec calls channel n d env e w =
    if-Ok _ w _ _
      (Follows-trans w.db _ _ (Follows-attempted calls.attempt_fails _ w)
        (retry_later-Ok codec calls n (n.attempt_count + 1) d env e _))
      (Follows-trans w.db _ _ (Follows-attempted calls.attempt_fails _ w)
        (give_up-Ok codec calls channel n d env e _))

after_mark_sent-Ok :
    (calls : Calls) (channel : String) (n : Notification) (env : Envelope)
    (reply : Reply Notification) (w w' : World)
    → Follows w.db w'.db
    → Ok w (after_mark_sent calls channel n env reply w w')
unfolding after_mark_sent emit_status
after_mark_sent-Ok calls channel n env (row _) w w' h = h
after_mark_sent-Ok calls channel n env no_rows w w' h =
    Follows-reverted calls.revert_fails _ w
      (Follows-revert_to_queued n.id (some calls.sent_error) calls.now w.db)
after_mark_sent-Ok calls channel n env failure w w' h =
    Follows-reverted calls.revert_fails _ w
      (Follows-revert_to_queued n.id (some calls.sent_error) calls.now w.db)

on_accepted-Ok :
    (calls : Calls) (channel : String) (n : Notification) (env : Envelope) (r : SendResponse)
    (w : World)
    → Ok w (on_accepted calls channel n env r w)
unfolding on_accepted
on_accepted-Ok calls channel n env r w =
    Follows-trans w.db _ _ (Follows-attempted calls.attempt_fails _ w)
      (after_mark_sent-Ok calls channel n env _ _ _ (Follows-mark_sent n.id calls.now _))

on_sent-Ok :
    (codec : Codec) (calls : Calls) (channel : String) (n : Notification) (d : Delivery)
    (env : Envelope) (s : Sent) (w : World)
    → Ok w (on_sent codec calls channel n d env s w)
unfolding on_sent
on_sent-Ok codec calls channel n d env (accepted r) w = on_accepted-Ok calls channel n env r w
on_sent-Ok codec calls channel n d env (rejected e) w =
    on_rejected-Ok codec calls channel n d env e w

deliver-Ok :
    (codec : Codec) (calls : Calls) (channel : String) (n : Notification) (d : Delivery)
    (env : Envelope) (w : World)
    → Ok w (deliver codec calls channel n d env w)
unfolding deliver
deliver-Ok codec calls channel n d env w =
    if-Ok calls.refused w _ _
      (Ok-routed calls (n.attempt_count + 1) d.body env w _ (
        Follows-reverted calls.revert_fails _ w
          (Follows-revert_to_queued_no_attempt n.id (some calls.refusal) calls.now w.db)))
      (on_sent-Ok codec calls channel n d env _ _)

Follows-dropped :
    (calls : Calls) (n : Notification) (w : World)
    → Follows w.db
        (reverted calls.revert_fails (revert_to_queued_no_attempt n.id none calls.now w.db) w).db
Follows-dropped calls n w =
    Follows-reverted calls.revert_fails _ w
      (Follows-revert_to_queued_no_attempt n.id none calls.now w.db)

after_gate-Ok :
    (codec : Codec) (calls : Calls) (channel : String) (n : Notification) (d : Delivery)
    (env : Envelope) (g : Option Gate) (w : World)
    → Ok w (after_gate codec calls channel n d env g w)
unfolding after_gate
after_gate-Ok codec calls channel n d env none w = Follows-refl w.db
after_gate-Ok codec calls channel n d env (some pass) w = deliver-Ok codec calls channel n d env w
after_gate-Ok codec calls channel n d env (some broken) w = Follows-refl w.db
after_gate-Ok codec calls channel n d env (some stopped) w = Follows-dropped calls n w
after_gate-Ok codec calls channel n d env (some (sustained wait)) w =
    Ok-routed calls 1 d.body env w _ (Follows-dropped calls n w)

after_cas-Ok :
    (codec : Codec) (calls : Calls) (channel : String) (n : Notification) (d : Delivery)
    (env : Envelope) (l : Lock) (w : World)
    → Ok w (after_cas codec calls channel n d env l w)
unfolding after_cas
after_cas-Ok codec calls channel n d env lock_error w = Follows-refl w.db
after_cas-Ok codec calls channel n d env lock_held w = Follows-dropped calls n w
after_cas-Ok codec calls channel n d env lock_taken w =
    after_gate-Ok codec calls channel n d env (gate calls) w

on_claim-Ok :
    (codec : Codec) (calls : Calls) (channel : String) (d : Delivery) (env : Envelope)
    (reply : Reply Notification) (w : World)
    → Ok w (on_claim codec calls channel d env reply w)
unfolding on_claim
on_claim-Ok codec calls channel d env (row n) w =
    after_cas-Ok codec calls channel n d env calls.lock w
on_claim-Ok codec calls channel d env no_rows w = Follows-refl w.db
on_claim-Ok codec calls channel d env failure w = Follows-refl w.db

handle_id-Ok :
    (codec : Codec) (calls : Calls) (channel : String) (d : Delivery) (env : Envelope)
    (id : Option ℕ) (w : World)
    → Ok w (handle_id codec calls channel d env id w)
unfolding handle_id
handle_id-Ok codec calls channel d env none w = Follows-refl w.db
handle_id-Ok codec calls channel d env (some id) w =
    if-Ok calls.cas_fails w _ _ (Follows-refl w.db) (
      Follows-trans w.db _ _ (Follows-mark_sending_cas id calls.now w.db)
        (on_claim-Ok codec calls channel d env _ _))

handle_envelope-Ok :
    (codec : Codec) (calls : Calls) (channel : String) (d : Delivery) (e : Option Envelope)
    (w : World)
    → Ok w (handle_envelope codec calls channel d e w)
unfolding handle_envelope
handle_envelope-Ok codec calls channel d none w = Follows-refl w.db
handle_envelope-Ok codec calls channel d (some env) w =
    handle_id-Ok codec calls channel d env (codec.parse_uuid env.notification_id) w

after_handle-Ok :
    (codec : Codec) (calls : Calls) (d : Delivery) (w : World) (r : Verdict × World)
    → Ok w r
    → Ok w (after_handle codec calls d r)
unfolding after_handle
after_handle-Ok codec calls d w (ack, w') h = h
after_handle-Ok codec calls d w (terminal, w') h = h
after_handle-Ok codec calls d w (retry, w') h =
    if-Ok calls.has_publisher w _ _ (if-Ok calls.requeue_fails w _ _ h h) h

-- One delivery handled by the worker, whatever its body and whichever calls fail: no notification
-- disappears or has its message altered, and the status of each (of a table that meets the CHECK
-- constraint on sent_at) moves along the life cycle only and keeps the constraint.
pub handle_delivery-Follows :
    (codec : Codec) (calls : Calls) (channel : String) (d : Delivery) (w : World)
    → Follows w.db (handle_delivery codec calls channel d w).1.db
unfolding handle_delivery handle
handle_delivery-Follows codec calls channel d w = if-Ok _ w _ _ (Follows-refl w.db) (
    after_handle-Ok codec calls d w _
      (handle_envelope-Ok codec calls channel d (codec.decode d.body) w))
