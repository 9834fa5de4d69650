-- ===== src/Producers/Admin.antt =====
-- internal/api/admin.go: replay and purge of a dead letter. The audit details are left out, since
-- nothing reads them.
pub mod Replay
use event_driven_notificatio.Prelude.{
  ℕ, Bool, true, false, String, List, [], ◌∷◌, Option, none, some, if◌then◌else◌,
}
use event_driven_notificatio.Domain.{Status, priority_from_int, dead_letter}
use event_driven_notificatio.Store.{Notification, Outbox, AuditEntry, Db}
use event_driven_notificatio.Store.Notifications.{find, reset_for_replay}
use event_driven_notificatio.Store.OutboxTable.{insert_outbox}
use event_driven_notificatio.Store.Records.{delete_dead_letter, insert_audit_entry}
use event_driven_notificatio.Producers.{Encoder, outbox_row, step, ◌>>=◌}

-- The caller's key, and which calls fail.
pub record ReplayCalls : Type 0 where
  pub now : ℕ
  pub outbox_id : ℕ
  pub actor : String
  pub actor_id : Option ℕ
  pub begin_fails : Bool
  pub get_fails : Bool
  pub reset_fails : Bool
  pub delete_fails : Bool
  pub outbox_fails : Bool
  pub audit_fails : Bool
  pub commit_fails : Bool

-- The response: 200, or a problem (400, 404, 409, 500).
pub data Response : Type 0 where
  replayed invalid_id not_found invalid_state server_error no_content : Response

abbrev pub is_dead_letter : Status → Bool
is_dead_letter dead_letter = true
is_dead_letter _ = false

abbrev pub replay_row : Encoder → ReplayCalls → Notification → Outbox
replay_row encoder calls n =
    outbox_row encoder priority_from_int (("x-correlation-id", n.correlation_id) ∷ [])
      calls.outbox_id calls.now n

abbrev pub audit_entry : ReplayCalls → String → ℕ → AuditEntry
audit_entry calls action id = record {
  actor = calls.actor;
  actor_id = calls.actor_id;
  action = action;
  target_id = some id;
}

-- The writes, once the row has been seen to be 'dead_letter'.
unfoldable pub reset : Encoder → ReplayCalls → ℕ → Notification → Db → Option Db
reset encoder calls id n db = do
  let entry = audit_entry calls "dlq_replay" id
  db1 ← step calls.reset_fails (reset_for_replay id calls.now db)
  db2 ← step calls.delete_fails (delete_dead_letter id db1)
  db3 ← step calls.outbox_fails (insert_outbox (replay_row encoder calls n) db2)
  db4 ← step calls.audit_fails (insert_audit_entry entry db3)
  step calls.commit_fails db4

abbrev pub answered : Db → Option Db → Response × Db
answered db none = (server_error, db)
answered db (some db') = (replayed, db')

unfoldable pub replay_found : Encoder → ReplayCalls → ℕ → Option Notification → Db → Response × Db
unfolding reset
replay_found encoder calls id none db = (not_found, db)
replay_found encoder calls id (some n) db =
    if is_dead_letter n.status
    then answered db (reset encoder calls id n db)
    else (invalid_state, db)

-- replay
unfoldable pub replay : Encoder → ReplayCalls → Option ℕ → Db → Response × Db
unfolding replay_found
replay encoder calls none db = (invalid_id, db)
replay encoder calls (some id) db =
    if calls.begin_fails
    then (server_error, db)
    else if calls.get_fails
    then (server_error, db)
    else replay_found encoder calls id (find id db) db

-- purge
unfoldable pub purge : ReplayCalls → Option ℕ → Db → Response × Db
purge calls none db = (invalid_id, db)
purge calls (some id) db =
    let entry = audit_entry calls "dlq_purge" id in
    if calls.delete_fails
    then (server_error, db)
    else if calls.audit_fails
    then (no_content, delete_dead_letter id db)
    else (no_content, insert_audit_entry entry (delete_dead_letter id db))
