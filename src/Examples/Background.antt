-- ===== src/Examples/Background.antt =====
-- Runs of the outbox dispatcher, the scheduler, the sweeper and a replay.
use event_driven_notificatio.Prelude.{
  ◌+◌, ◌<◌, ◌≤◌, ◌≡◌, ◌≢◌, refl, ◌⊎◌, true, false, [], ◌∷◌, none, some, arith, All,
}
use event_driven_notificatio.Prelude.Table.{find_row}
use event_driven_notificatio.Domain.{scheduled, sending, dead_letter}
use event_driven_notificatio.Store.{Bytes, Notification, DeliveryAttempt, failure}
use event_driven_notificatio.Store.Notifications.{find, to_dead_letter}
use event_driven_notificatio.Store.OutboxTable.{
  find as find_outbox, in_batch, is_claimable, claim_outbox_batch,
}
use event_driven_notificatio.Store.Records.{has_attempt, insert_delivery_attempt}
use event_driven_notificatio.Outbox.{
  Parser, RowCalls, target, default, extract_notification_id, truncate, mark_failure,
}
use event_driven_notificatio.Outbox.Claims.{claims_disjoint}
use event_driven_notificatio.Outbox.Failure.{Works, retried, finished, failure_accounted}
use event_driven_notificatio.Producers.Scheduler.{TxCalls, dispatch_one}
use event_driven_notificatio.Producers.Scheduler.Once.{
  Dispatched, Dropped, row_for, dispatch_one_atomic,
}
use event_driven_notificatio.Producers.Sweeper as Sweeper
use event_driven_notificatio.Producers.Sweeper.Reclaims as Reclaims
use event_driven_notificatio.Producers.Sweeper.Reclaims.{sweep_atomic}
use event_driven_notificatio.Producers.Admin.{ReplayCalls, replayed, replay}
use event_driven_notificatio.Producers.Admin.Replay.{
  Restarted, count_in, replay_atomic, replay_loses_attempts,
}
use event_driven_notificatio.Examples.Data.{at_status, db_of, waiting, outbox_example, encoder}

claims_disjoint_example :
    let first = claim_outbox_batch 60 50 "a" 100 (db_of waiting) in
    All (λ r. in_batch first.0 r ≡ false) (claim_outbox_batch 60 50 "b" 200 first.1).0
claims_disjoint_example = claims_disjoint 60 50 50 "a" "b" 100 200 (db_of waiting) (omega arith)

abbrev parser : Parser
parser = record { headers = λ b. none; notification_id = λ b. some "1"; parse_uuid = λ s. some 1 }

abbrev row_calls : RowCalls
row_calls = record {
  now = 100;
  publish_error = some (101 ∷ []);
  published_fails = false;
  queued_fails = false;
  failed_fails = false;
  dead_fails = false;
  dead_row_fails = false;
}

row_calls_work : Works row_calls
row_calls_work = record { published = refl; failed = refl; dead = refl; dead_row = refl }

outbox_there : find_outbox 11 (db_of waiting) ≡ some outbox_example
unfolding find_outbox find_row
outbox_there = refl

there : (n : Notification) → n.id ≡ 1 → find 1 (db_of n) ≡ some n
unfolding find find_row
there n e = rw e refl

target_example : target parser outbox_example ≡ some 1
unfolding target extract_notification_id
target_example = refl

failure_accounted_example :
    let error : Bytes = 101 ∷ [] in
    let db' = mark_failure parser (default "d") row_calls outbox_example error (db_of waiting) in
    (1 < 10
      → (find_outbox 11 db' ≡ some (retried (some (truncate error 1024)) outbox_example))
        × (is_claimable 60 200 (retried (some (truncate error 1024)) outbox_example) ≡ true)
        × (find 1 db' ≡ some waiting))
    × (10 ≤ 1
        → (find_outbox 11 db' ≡ some (finished 100 outbox_example))
          × (is_claimable 60 200 (finished 100 outbox_example) ≡ false)
          × (find 1 db' ≡ some (to_dead_letter (some error) 100 waiting)))
unfolding default
failure_accounted_example =
    failure_accounted parser (default "d") row_calls outbox_example (101 ∷ []) (db_of waiting) 60
      200 1 waiting row_calls_work outbox_there refl target_example (there waiting refl) refl

abbrev due_notification : Notification
due_notification = at_status scheduled none

abbrev tx_calls : TxCalls
tx_calls = record {
  now = 100;
  outbox_id = 12;
  begin_fails = false;
  get_fails = false;
  cas_fails = false;
  outbox_fails = false;
  delete_fails = false;
  commit_fails = false;
}

dispatch_one_atomic_example :
    let db = db_of due_notification in
    let db' = dispatch_one encoder tx_calls 1 db in
    (true ≡ true → (db' ≡ db) ⊎ Dispatched (row_for encoder tx_calls due_notification) 1 db db')
    × (true ≡ false → (db' ≡ db) ⊎ Dropped 1 db db')
dispatch_one_atomic_example =
    dispatch_one_atomic encoder tx_calls 1 due_notification (db_of due_notification)
      (there due_notification refl)

abbrev stuck : Notification
stuck = at_status sending none

abbrev sweep_calls : Sweeper.TxCalls
sweep_calls = record {
  now = 400000000000;
  begin_fails = false;
  sweep_fails = false;
  outbox_fails = λ k. false;
  outbox_ids = λ k. k + 20;
  commit_fails = false;
}

sweep_atomic_example :
    let db = db_of stuck in
    let db' = Sweeper.tick encoder Sweeper.default sweep_calls db in
    ((db' ≡ db) ⊎ Reclaims.Reclaimed encoder Sweeper.default sweep_calls db db')
    × (Reclaims.Works sweep_calls → Reclaims.Reclaimed encoder Sweeper.default sweep_calls db db')
sweep_atomic_example = sweep_atomic encoder Sweeper.default sweep_calls (db_of stuck)

abbrev dead : Notification
dead = at_status dead_letter none

abbrev replay_calls : ReplayCalls
replay_calls = record {
  now = 100;
  outbox_id = 12;
  actor = "admin";
  actor_id = some 7;
  begin_fails = false;
  get_fails = false;
  reset_fails = false;
  delete_fails = false;
  outbox_fails = false;
  audit_fails = false;
  commit_fails = false;
}

replay_atomic_example :
    let r = replay encoder replay_calls (some 1) (db_of dead) in
    (r.0 ≡ replayed
      → (dead_letter ≡ dead_letter) × Restarted encoder replay_calls dead (db_of dead) r.1)
    × (r.0 ≢ replayed → r.1 ≡ db_of dead)
replay_atomic_example = replay_atomic encoder replay_calls dead (db_of dead) (there dead refl)

replayed_ok : (replay encoder replay_calls (some 1) (db_of dead)).0 ≡ replayed
unfolding replay event_driven_notificatio.Producers.Admin.replay_found
    event_driven_notificatio.Producers.Admin.reset find find_row
replayed_ok = refl

had_attempt : has_attempt 1 1 (db_of dead) ≡ true
unfolding has_attempt
had_attempt = refl

abbrev second_first : DeliveryAttempt
second_first = record {
  notification_id = 1;
  attempt_number = 1;
  started_at = 300;
  completed_at = none;
  success = true;
  provider_message_id = none;
  http_status = none;
  error = none;
  response_body = none;
}

replay_loses_attempts_example :
    let db' = (replay encoder replay_calls (some 1) (db_of dead)).1 in
    (count_in (find 1 db') ≡ some 0) × (insert_delivery_attempt second_first db' ≡ (failure, db'))
replay_loses_attempts_example =
    replay_loses_attempts encoder replay_calls dead (db_of dead) second_first (there dead refl)
      replayed_ok had_attempt refl refl
