-- ===== src/Producers/Scheduler.antt =====
-- internal/scheduler/dispatcher.go: one cycle of the scheduler.
pub mod Once
use event_driven_notificatio.Prelude.{
  ℕ, ◌+◌, Bool, true, false, String, List, [], ◌∷◌, Option, none, some, ◌==◌, if◌then◌else◌,
}
use event_driven_notificatio.Store.{Notification, Scheduled, Db, Reply, row, no_rows, failure}
use event_driven_notificatio.Store.Notifications.{find, mark_scheduled_pending}
use event_driven_notificatio.Store.OutboxTable.{insert_outbox}
use event_driven_notificatio.Store.ScheduledTable.{claim_due_scheduled, delete_scheduled}
use event_driven_notificatio.Producers.{Encoder, outbox_row, step, committed, ◌>>=◌}

-- Lengths of time in seconds.
pub record Config : Type 0 where
  pub poll_interval : ℕ
  pub batch_size : ℕ
  pub scheduler_id : String
  pub claim_ttl : ℕ

-- Default
unfoldable pub default : String → Config
default scheduler_id = record {
  poll_interval = 1;
  batch_size = 50;
  scheduler_id = scheduler_id;
  claim_ttl = 60;
}

-- Which calls of one transaction fail, and what the database gives the new row.
pub record TxCalls : Type 0 where
  pub now : ℕ
  pub outbox_id : ℕ
  pub begin_fails : Bool
  pub get_fails : Bool
  pub cas_fails : Bool
  pub outbox_fails : Bool
  pub delete_fails : Bool
  pub commit_fails : Bool

-- priorityLabel
unfoldable pub priority_label : ℕ → String
priority_label p = if p == 9 then "high" else if p == 1 then "low" else "normal"

-- From the answer of MarkScheduledPending on; `n` is the row read before it.
unfoldable pub after_cas :
    Encoder → TxCalls → ℕ → Notification → Reply Notification → Db → Option Db
unfolding priority_label
after_cas encoder calls id n failure db = none
after_cas encoder calls id n no_rows db = do
  db' ← step calls.delete_fails (delete_scheduled id db)
  step calls.commit_fails db'
after_cas encoder calls id n (row _) db = do
  let hdrs = ("x-correlation-id", n.correlation_id) ∷ []
  let r = outbox_row encoder priority_label hdrs calls.outbox_id calls.now n
  db' ← step calls.outbox_fails (insert_outbox r db)
  db'' ← step calls.delete_fails (delete_scheduled id db')
  step calls.commit_fails db''

unfoldable pub transaction : Encoder → TxCalls → ℕ → Db → Option Db
unfolding after_cas
transaction encoder calls id db = do
  _ ← step calls.begin_fails db
  found ← step calls.get_fails (find id db)
  n ← found
  answer ← step calls.cas_fails (mark_scheduled_pending id calls.now db)
  after_cas encoder calls id n answer.0 answer.1

-- dispatchOne
unfoldable pub dispatch_one : Encoder → TxCalls → ℕ → Db → Db
unfolding transaction
dispatch_one encoder calls id db = committed (transaction encoder calls id db) db

unfoldable pub dispatch_all : Encoder → (ℕ → TxCalls) → ℕ → List Scheduled → Db → Db
unfolding dispatch_one
dispatch_all encoder calls k [] db = db
dispatch_all encoder calls k (r ∷ rs) db =
    dispatch_all encoder calls (k + 1) rs (dispatch_one encoder (calls k) r.id db)

-- tick
unfoldable pub tick : Encoder → Config → Bool → ℕ → (ℕ → TxCalls) → Db → Db
unfolding dispatch_all
tick encoder cfg claim_fails now calls db =
    if claim_fails
    then db
    else (let (rows, db') =
          claim_due_scheduled cfg.claim_ttl cfg.batch_size cfg.scheduler_id now db in
        dispatch_all encoder calls 0 rows db')
