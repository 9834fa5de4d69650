-- ===== src/Examples/Worker.antt =====
-- Runs of the worker.
use event_driven_notificatio.Prelude.{◌≡◌, refl, inr, List, [], ◌∷◌, none, some}
use event_driven_notificatio.Prelude.Table.{find_row}
use event_driven_notificatio.Domain.{sending, sent}
use event_driven_notificatio.Store.{Notification}
use event_driven_notificatio.Store.Notifications.{find, to_sending}
use event_driven_notificatio.Store.Lifecycle.{Follows}
use event_driven_notificatio.Worker.Calls.{World, ack, retry}
use event_driven_notificatio.Worker.Handle.{handle, handle_delivery}
use event_driven_notificatio.Worker.Handle.Verdicts.{Names, Untouched, duplicate_ignored}
use event_driven_notificatio.Worker.Handle.Settled.{Settled, handle-Settled}
use event_driven_notificatio.Worker.Handle.Stranded.{redis_failure_strands}
use event_driven_notificatio.Worker.Gate.{gate, broken}
use event_driven_notificatio.Provider.{SendError, server}
use event_driven_notificatio.System.{Operation, deliver, cancel, perform_all}
use event_driven_notificatio.System.History.{Kept, perform_all-Follows, sent_is_final}
use event_driven_notificatio.Examples.Data.{
  at_status, db_of, waiting, world_of, envelope, codec, delivery, calls_for, calls_broken,
}

abbrev start : World
start = world_of (db_of waiting)

abbrev delivered : Notification
delivered = at_status sent (some 50)

Names-delivery : Names codec delivery envelope 1
Names-delivery = record { decoded = refl; parsed = refl; below_cap = refl }

waiting_there : find 1 (db_of waiting) ≡ some waiting
unfolding find find_row
waiting_there = refl

delivered_there : find 1 (db_of delivered) ≡ some delivered
unfolding find find_row
delivered_there = refl

delivered_out :
    event_driven_notificatio.Worker.Handle.Verdicts.IsOutOfReach (find 1 (db_of delivered))
unfolding find find_row
delivered_out = refl

handle-Settled_example : Settled 1 (123 ∷ []) [] (handle codec (calls_for 503) "sms" delivery start)
handle-Settled_example =
    handle-Settled codec (calls_for 503) "sms" delivery envelope start waiting Names-delivery refl
      refl refl waiting_there refl

duplicate_ignored_example :
    ((handle_delivery codec (calls_for 202) "sms" delivery (world_of (db_of delivered))).0 ≡ ack)
    × Untouched
        (world_of (db_of delivered))
        (handle_delivery codec (calls_for 202) "sms" delivery (world_of (db_of delivered))).1
duplicate_ignored_example =
    duplicate_ignored codec (calls_for 202) "sms" delivery envelope 1 Names-delivery refl
      (world_of (db_of delivered)) delivered_out

-- The first Take asks to wait, and the next one fails.
retry_fails : gate calls_broken ≡ some broken
unfolding gate
retry_fails = refl

redis_failure_strands_example :
    let run = handle codec calls_broken "sms" delivery start in
    let again = handle_delivery codec (calls_for 202) "sms" delivery run.1 in
    (run.0 ≡ retry)
    × (find 1 run.1.db ≡ some (to_sending 100 waiting))
    × (again.0 ≡ ack)
    × Untouched run.1 again.1
redis_failure_strands_example =
    redis_failure_strands codec calls_broken (calls_for 202) "sms" delivery delivery envelope
      envelope 1 start waiting Names-delivery Names-delivery refl refl waiting_there refl
      (inr (refl, retry_fails))

abbrev history : List Operation
history = deliver codec (calls_for 503) "sms" delivery ∷ cancel 1 200 ∷ []

perform_all-Follows_example : Follows (db_of waiting) (perform_all history (db_of waiting))
perform_all-Follows_example = perform_all-Follows history (db_of waiting) (refl, (refl, tt))

sent_is_final_example : Kept delivered (find 1 (perform_all history (db_of delivered)))
sent_is_final_example =
    sent_is_final history (db_of delivered) 1 delivered delivered_there refl refl

abbrev held : Notification
held = at_status sending none

abbrev refusal : SendError
refusal = record { kind = server; http_status = 503; retry_after = 0; body = [] }
