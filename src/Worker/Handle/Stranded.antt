-- ===== src/Worker/Handle/Stranded.antt =====
-- A notification whose run stops between its claim and its delivery
-- (internal/worker/pipeline.go, lines 276-297).

use event_driven_notificatio.Prelude.{
  ℕ, ◌≡◌, refl, ap, ◌∙◌, ◌⊎◌, inl, inr, true, false, String, Option, some,
}
use event_driven_notificatio.Store.{Notification}
use event_driven_notificatio.Store.Notifications.{find, is_claimable, to_sending, mark_sending_cas}
use event_driven_notificatio.Store.Lookup.{mark_sending_cas_claims}
use event_driven_notificatio.Worker.Calls.{
  Envelope, Delivery, World, Codec, Calls, lock_taken, lock_error, ack, retry,
}
use event_driven_notificatio.Worker.Gate.{gate, broken}
use event_driven_notificatio.Worker.Handle.{after_cas, after_gate, handle, handle_delivery}
use event_driven_notificatio.Worker.Handle.Verdicts.{
  Names, Untouched, IsOutOfReach, handle_claims, duplicate_ignored,
}

-- The in-flight lock cannot be asked, or it is taken and a Take of the gate fails: the first one, or
-- one of its inline loop.
abbrev pub RedisFails : Calls → Type 0
RedisFails calls =
    (calls.lock ≡ lock_error) ⊎ ((calls.lock ≡ lock_taken) × (gate calls ≡ some broken))

gives_up :
    (codec : Codec) (calls : Calls) (channel : String) (n : Notification) (d : Delivery)
    (env : Envelope) (w : World)
    → RedisFails calls
    → after_cas codec calls channel n d env calls.lock w ≡ (retry, w)
unfolding after_cas after_gate
gives_up codec calls channel n d env w (inl e) =
    ap (λ l. after_cas codec calls channel n d env l w) e
gives_up codec calls channel n d env w (inr (e, e')) =
    ap (λ l. after_cas codec calls channel n d env l w) e
    ∙ ap (λ g. after_gate codec calls channel n d env g w) e'

out_of_reach :
    (o : Option Notification) (n : Notification) (now : ℕ)
    → o ≡ some (to_sending now n)
    → IsOutOfReach o
out_of_reach o n now e = rw e refl

-- Two deliveries of one notification, both below the redelivery cap and with the database up. The
-- first claims the notification, but Redis fails at the in-flight lock, or at any Take of the gate (the
-- first one, or a later one of the loop that waits for tokens): handle asks for a
-- redelivery and leaves the row in 'sending'. The second, whatever its other calls answer, is
-- acknowledged without a request to the provider and without changing a row, so that the redelivery
-- asked for delivers nothing.
pub redis_failure_strands :
    (codec : Codec) (calls later : Calls) (channel : String) (d d' : Delivery) (env env' : Envelope)
    (i : ℕ) (w : World) (n : Notification)
    → Names codec d env i
    → Names codec d' env' i
    → calls.cas_fails ≡ false
    → later.cas_fails ≡ false
    → find i w.db ≡ some n
    → is_claimable n ≡ true
    → RedisFails calls
    → let run = handle codec calls channel d w in
      let again = handle_delivery codec later channel d' run.1 in
      (run.0 ≡ retry)
      × (find i run.1.db ≡ some (to_sending calls.now n))
      × (again.0 ≡ ack)
      × Untouched run.1 again.1
redis_failure_strands codec calls later channel d d' env env' i w n names names' cas cas' there c
      fails =
    let w' = record w { db = (mark_sending_cas i calls.now w.db).1 } in
    let e =
      handle_claims codec calls channel d env i names cas w n there c
      ∙ gives_up codec calls channel (to_sending calls.now n) d env w' fails in
    let found = (mark_sending_cas_claims i w.db n there calls.now c).1 in
    let dup =
      duplicate_ignored codec later channel d' env' i names' cas' w'
        (out_of_reach (find i w'.db) n calls.now found) in
    rw e (refl, found, dup.0, dup.1)
