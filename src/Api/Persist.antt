-- ===== src/Api/Persist.antt =====
-- persist of internal/api/notifications.go: one transaction that writes a notification, and with it
-- either a row of the outbox or a row of the schedule.
use event_driven_notificatio.Prelude.{
  ℕ, ◌≡◌, refl, ap, inl, inr, Bool, true, String, str_eq, List, [], ◌∷◌, Option, none, some, ltb,
  if◌then◌else◌, if_true, ==_refl, Option-cases,
}
use event_driven_notificatio.Prelude.Table.{find_row}
use event_driven_notificatio.Domain.{Status, pending, scheduled, priority_int16}
use event_driven_notificatio.Topology.{routing_key}
use event_driven_notificatio.Store.{Notification, Outbox, Db, Reply, row, no_rows, failure}
use event_driven_notificatio.Store.Notifications.{find, insert_notification}
use event_driven_notificatio.Store.OutboxTable.{fresh, insert_outbox}
use event_driven_notificatio.Store.ScheduledTable.{insert_scheduled, find as find_scheduled}
use event_driven_notificatio.Store.Lifecycle.{Follows, Follows-trans, is_consistent}
use event_driven_notificatio.Store.Lifecycle.Bulk.{
  Follows-insert_notification, Follows-insert_outbox, Follows-insert_scheduled,
}
use event_driven_notificatio.Worker.Calls.{Envelope}
use event_driven_notificatio.Producers.{Encoder, step, committed, ◌>>=◌}
use event_driven_notificatio.Producers.Transactions.{Holds, step_then, step_last, Follows-committed}
use event_driven_notificatio.Api.{CreateRequest}

-- The identifiers that are drawn, the two clocks (of the process and of the database), what the
-- context carries, the propagator's Inject, and which calls fail. The insert fails too where a
-- constraint that the model does not state refuses the row, as the unique index on idempotency_key
-- does.
pub record PersistCalls : Type 0 where
  pub id : ℕ
  pub outbox_id : ℕ
  pub clock : ℕ
  pub now : ℕ
  pub owner : Option ℕ
  pub inject : List (String × String) → List (String × String)
  pub begin_fails : Bool
  pub insert_fails : Bool
  pub outbox_fails : Bool
  pub scheduled_fails : Bool
  pub commit_fails : Bool

-- The time of a request that is to be delivered later.
abbrev pub later_time : ℕ → Option ℕ → Option ℕ
later_time clock none = none
later_time clock (some at) = if ltb clock at then some at else none

abbrev pub initial_status : Option ℕ → Status
initial_status none = pending
initial_status (some at) = scheduled

abbrev pub nullable_string : String → Option String
nullable_string s = if str_eq s "" then none else some s

unfoldable pub new_notification :
    PersistCalls → CreateRequest → String → String → Option ℕ → Notification
new_notification calls req idem_key corr_id template_version =
    let at = later_time calls.clock req.scheduled_at in
    record {
      id = calls.id;
      batch_id = none;
      channel = req.channel;
      recipient = req.recipient;
      content = req.content;
      priority = priority_int16 req.priority;
      status = initial_status at;
      idempotency_key = nullable_string idem_key;
      attempt_count = 0;
      last_error = none;
      scheduled_at = at;
      created_at = calls.now;
      updated_at = calls.now;
      sent_at = none;
      correlation_id = corr_id;
      template_id = req.template_id;
      template_version = template_version;
      created_by = calls.owner;
    }

unfoldable pub new_envelope : Encoder → PersistCalls → CreateRequest → String → Envelope
new_envelope encoder calls req corr_id = record {
  notification_id = encoder.uuid_text calls.id;
  channel = req.channel;
  recipient = req.recipient;
  content = req.content;
  priority = req.priority;
  correlation_id = corr_id;
}

unfoldable pub new_outbox : Encoder → PersistCalls → CreateRequest → String → String → Outbox
unfolding new_envelope
new_outbox encoder calls req idem_key corr_id =
    let first : String × String = ("x-correlation-id", corr_id) in
    let with_key : String × String = ("x-idempotency-key", idem_key) in
    let hdrs = if str_eq idem_key "" then first ∷ [] else first ∷ with_key ∷ [] in
    fresh calls.outbox_id calls.id (routing_key req.channel)
      (encoder.envelope (new_envelope encoder calls req corr_id))
      (encoder.headers (calls.inject hdrs)) (priority_int16 req.priority) calls.now

-- The second row: of the outbox, or of the schedule.
unfoldable pub second_row :
    Encoder → PersistCalls → CreateRequest → String → String → Option ℕ → Db → Option Db
unfolding new_outbox
second_row encoder calls req idem_key corr_id none db =
    step calls.outbox_fails (insert_outbox (new_outbox encoder calls req idem_key corr_id) db)
second_row encoder calls req idem_key corr_id (some at) db =
    step calls.scheduled_fails (insert_scheduled calls.id at db)

abbrev inserted : Reply Notification × Db → Option Db
inserted (row _, db) = some db
inserted (no_rows, db) = none
inserted (failure, db) = none

unfoldable pub transaction :
    Encoder → PersistCalls → CreateRequest → String → String → Option ℕ → Db → Option Db
unfolding second_row new_notification
transaction encoder calls req idem_key corr_id template_version db = do
  let n = new_notification calls req idem_key corr_id template_version
  _ ← step calls.begin_fails db
  answer ← step calls.insert_fails (insert_notification n db)
  db1 ← inserted answer
  db2 ← second_row encoder calls req idem_key corr_id (later_time calls.clock req.scheduled_at) db1
  step calls.commit_fails db2

-- persist
unfoldable pub persist :
    Encoder → PersistCalls → CreateRequest → String → String → Option ℕ → Db → Db
unfolding transaction
persist encoder calls req idem_key corr_id template_version db =
    committed (transaction encoder calls req idem_key corr_id template_version db) db

-- The new notification waits for delivery: 'pending' with one new row in the outbox, or, for a later
-- time, 'scheduled' with its time on the schedule.
abbrev pub Waits :
    Encoder → PersistCalls → CreateRequest → String → String → Option ℕ → Db → Db → Type 0
Waits encoder calls req idem_key corr_id none db db' =
    (db'.outbox ≡ new_outbox encoder calls req idem_key corr_id ∷ db.outbox)
    × (db'.scheduled ≡ db.scheduled)
Waits encoder calls req idem_key corr_id (some at) db db' =
    (db'.outbox ≡ db.outbox)
    × (find_scheduled calls.id db'
        ≡ some (record { id = calls.id; due_at = at; claimed_at = none; claimed_by = none }))

pub record Created (encoder : Encoder) (calls : PersistCalls) (req : CreateRequest)
    (idem_key corr_id : String) (version : Option ℕ) (db db' : Db) : Type 0 where
  pub stored : find calls.id db' ≡ some (new_notification calls req idem_key corr_id version)
  pub waits :
      Waits encoder calls req idem_key corr_id (later_time calls.clock req.scheduled_at) db db'
  pub moves : Follows db db'

pub fresh_insert :
    (n : Notification) (db : Db)
    → find n.id db ≡ none
    → insert_notification n db ≡ (row n, record db { notifications = n ∷ db.notifications })
unfolding insert_notification
fresh_insert n db e = rw (e, insert_notification) refl

module _ (encoder : Encoder) (calls : PersistCalls) (req : CreateRequest)
    (idem_key corr_id : String) (version : Option ℕ) (db : Db)
    (unused : find calls.id db ≡ none) where
  abbrev n : Notification
  unfolding new_notification
  n = new_notification calls req idem_key corr_id version

  abbrev db1 : Db
  db1 = record db { notifications = n ∷ db.notifications }

  consistent :
      (at : Option ℕ)
      → is_consistent (record n { status = initial_status at; sent_at = none }) ≡ true
  consistent none = refl
  consistent (some t) = refl

  moved : Follows db db1
  unfolding new_notification
  moved =
      rw (← ap (λ r. r.1) (fresh_insert n db unused))
        (Follows-insert_notification n db (consistent (later_time calls.clock req.scheduled_at)))

  abbrev pub P : Db → Type 0
  P = Created encoder calls req idem_key corr_id version db

  Later : Option ℕ → Db → Type 0
  unfolding new_notification
  Later at db' =
      (find calls.id db' ≡ some n)
      × Waits encoder calls req idem_key corr_id at db db'
      × Follows db db'

  waits-Holds :
      (at : Option ℕ)
      → Holds (Later at) (
          second_row encoder calls req idem_key corr_id at db1
          >>= (λ db2. step calls.commit_fails db2))
  unfolding second_row Later find find_row insert_outbox insert_scheduled find_scheduled
      new_notification
  waits-Holds none =
      let r = new_outbox encoder calls req idem_key corr_id in
      step_then (Later none) calls.outbox_fails _ _ (
        step_last (Later none) calls.commit_fails _ (
          if_true _ _ (==_refl calls.id),
          (refl, refl),
          Follows-trans db db1 (insert_outbox r db1) moved (Follows-insert_outbox r db1),
        ))
  waits-Holds (some at) = step_then (Later (some at)) calls.scheduled_fails _ _ (
      step_last (Later (some at)) calls.commit_fails _ (
        if_true _ _ (==_refl calls.id),
        (refl, if_true _ _ (==_refl calls.id)),
        Follows-trans db db1 (insert_scheduled calls.id at db1) moved
            (Follows-insert_scheduled calls.id at db1),
      ))

  created-Holds :
      (o : Option Db) → Holds (Later (later_time calls.clock req.scheduled_at)) o → Holds P o
  unfolding Later
  created-Holds none h = tt
  created-Holds (some db') h = record { stored = h.0; waits = h.1; moves = h.2 }

  pub transaction-Holds : Holds P (transaction encoder calls req idem_key corr_id version db)
  unfolding transaction
  transaction-Holds = step_then P calls.begin_fails db _ (
      step_then P calls.insert_fails (insert_notification n db) _ (
        rw (fresh_insert n db unused)
          (created-Holds _ (waits-Holds (later_time calls.clock req.scheduled_at)))))

  moves_only : (o : Option Db) → Holds P o → Holds (Follows db) o
  moves_only none h = tt
  moves_only (some db') h = h.moves

pub taken_insert :
    (n : Notification) (db : Db) (m : Notification)
    → find n.id db ≡ some m
    → insert_notification n db ≡ (failure, db)
unfolding insert_notification
taken_insert n db m e = rw (e, insert_notification) refl

pub persist-Follows :
    (encoder : Encoder) (calls : PersistCalls) (req : CreateRequest) (idem_key corr_id : String)
    (version : Option ℕ) (db : Db)
    → Follows db (persist encoder calls req idem_key corr_id version db)
unfolding persist transaction new_notification
persist-Follows encoder calls req idem_key corr_id version db =
    elim (Option-cases (find calls.id db)) [
      | inl unused ↦ Follows-committed _ db (
          moves_only encoder calls req idem_key corr_id version db unused
            (transaction encoder calls req idem_key corr_id version db)
            (transaction-Holds encoder calls req idem_key corr_id version db unused))
      | inr (m, there) ↦
          let n = new_notification calls req idem_key corr_id version in
          Follows-committed _ db (
            step_then (Follows db) calls.begin_fails db _ (
              step_then (Follows db) calls.insert_fails (insert_notification n db) _
                (rw (taken_insert n db m there) tt)))
    ]
