-- ===== src/Worker/Handle/Verdicts.antt =====
-- What the worker's answer to the broker means for the notification
-- (internal/worker/pipeline.go).

use event_driven_notificatio.Prelude.{
  ℕ, ◌≡◌, refl, ap, ◌∙◌, if_false, true, false, String, Option, none, some,
}
use event_driven_notificatio.Prelude.Table.{touched}
use event_driven_notificatio.Store.{Notification, Db, no_rows}
use event_driven_notificatio.Store.Notifications.{
  find, is_claimable, to_sending, mark_sending_cas, returning, answer,
}
use event_driven_notificatio.Store.Lookup.{mark_sending_cas_claims, find-cas_miss}
use event_driven_notificatio.Worker.Calls.{Envelope, Delivery, World, Codec, Calls, ack}
use event_driven_notificatio.Worker.Handle.{
  after_cas, on_claim, handle_id, handle_envelope, handle, after_handle, handle_delivery, over_cap,
}

-- The delivery names notification `i`, and has not been bounced too often.
pub record Names (codec : Codec) (d : Delivery) (env : Envelope) (i : ℕ) : Type 0 where
  pub decoded : codec.decode d.body ≡ some env
  pub parsed : codec.parse_uuid env.notification_id ≡ some i
  pub below_cap : over_cap d.redeliveries ≡ false

-- The same rows can be found, and nothing was sent anywhere.
pub record Untouched (w w' : World) : Type 0 where
  pub rows : (j : ℕ) → find j w'.db ≡ find j w.db
  pub waits : w'.waits ≡ w.waits
  pub events : w'.events ≡ w.events
  pub requests : w'.requests ≡ w.requests

abbrev pub IsOutOfReach : Option Notification → Type 0
IsOutOfReach none = Unit
IsOutOfReach (some n) = is_claimable n ≡ false

untouched_row :
    (f : Notification → Notification) (o : Option Notification)
    → IsOutOfReach o
    → touched is_claimable f o ≡ o
untouched_row f none h = refl
untouched_row f (some n) h = rw h

missed_rows :
    (i j : ℕ) (db : Db) (now : ℕ)
    → IsOutOfReach (find i db)
    → find j (mark_sending_cas i now db).1 ≡ find j db
unfolding mark_sending_cas
missed_rows i j db now h =
    find-cas_miss i j is_claimable (to_sending now) db (λ n. refl)
      (untouched_row (to_sending now) (find i db) h)

missed_answer :
    (f : Notification → Notification) (o : Option Notification)
    → IsOutOfReach o
    → answer is_claimable f o ≡ no_rows
missed_answer f none h = refl
missed_answer f (some n) h = rw h

missed_cas :
    (i : ℕ) (db : Db) (now : ℕ) → IsOutOfReach (find i db) → (mark_sending_cas i now db).0 ≡ no_rows
unfolding mark_sending_cas returning
missed_cas i db now h = missed_answer (to_sending now) (find i db) h

module _ (codec : Codec) (calls : Calls) (channel : String) (d : Delivery) (env : Envelope) (i : ℕ)
    (names : Names codec d env i) (cas : calls.cas_fails ≡ false) where
  pub handle_claims :
      (w : World) (n : Notification)
      → find i w.db ≡ some n
      → is_claimable n ≡ true
      → handle codec calls channel d w
        ≡ after_cas codec calls channel
            (to_sending calls.now n)
            d
            env
            calls.lock
            (record w { db = (mark_sending_cas i calls.now w.db).1 })
  unfolding handle handle_envelope handle_id on_claim
  handle_claims w n there c =
      ap (λ o. handle_envelope codec calls channel d o w) names.decoded
      ∙ (ap (λ o. handle_id codec calls channel d env o w) names.parsed
          ∙ (if_false _ _ cas
              ∙ ap
                  (λ r.
                    on_claim codec calls channel d env r
                      (record w { db = (mark_sending_cas i calls.now w.db).1 }))
                  (mark_sending_cas_claims i w.db n there calls.now c).0))

  handle_misses :
      (w : World)
      → (mark_sending_cas i calls.now w.db).0 ≡ no_rows
      → handle codec calls channel d w
        ≡ (ack, record w { db = (mark_sending_cas i calls.now w.db).1 })
  unfolding handle handle_envelope handle_id on_claim
  handle_misses w missed =
      ap (λ o. handle_envelope codec calls channel d o w) names.decoded
      ∙ (ap (λ o. handle_id codec calls channel d env o w) names.parsed
          ∙ (if_false _ _ cas
              ∙ ap
                  (λ r.
                    on_claim codec calls channel d env r
                      (record w { db = (mark_sending_cas i calls.now w.db).1 }))
                  missed))

  pub handle_delivery_claims :
      (w : World) (n : Notification)
      → find i w.db ≡ some n
      → is_claimable n ≡ true
      → handle_delivery codec calls channel d w
        ≡ after_handle codec calls d (
            after_cas codec calls channel
              (to_sending calls.now n)
              d
              env
              calls.lock
              (record w { db = (mark_sending_cas i calls.now w.db).1 }))
  unfolding handle_delivery
  handle_delivery_claims w n there c =
      if_false _ _ names.below_cap ∙ ap (after_handle codec calls d) (handle_claims w n there c)

  -- A delivery whose notification is missing, or neither 'pending' nor 'queued' (sent, cancelled,
  -- dead or held by another worker), below the redelivery cap and with the database up, is
  -- acknowledged, and leaves every row as it was: no message is published, no event emitted and the
  -- provider is not called, whatever the other calls would do.
  pub duplicate_ignored :
      (w : World)
      → IsOutOfReach (find i w.db)
      → ((handle_delivery codec calls channel d w).0 ≡ ack)
        × Untouched w (handle_delivery codec calls channel d w).1
  unfolding handle_delivery after_handle
  duplicate_ignored w h =
      rw (if_false _ (after_handle codec calls d (handle codec calls channel d w)) names.below_cap)
        (rw (handle_misses w (missed_cas i w.db calls.now h)) (
          refl,
          record {
            rows = λ j. missed_rows i j w.db calls.now h;
            waits = refl;
            events = refl;
            requests = refl;
          },
        ))
