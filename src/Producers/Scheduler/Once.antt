-- ===== src/Producers/Scheduler/Once.antt =====
-- What the scheduler (internal/scheduler/dispatcher.go) makes of a due row.
use event_driven_notificatio.Prelude.{
  ℕ, ◌+◌, ◌≡◌, refl, ap, ◌⊎◌, Bool, true, false, List, [], ◌∷◌, Option, none, some, arith,
}
use event_driven_notificatio.Prelude.Table.{find_row, delete_row}
use event_driven_notificatio.Domain.{pending}
use event_driven_notificatio.Store.{
  Notification, Outbox, Scheduled, Db, Reply, row, no_rows, failure,
}
use event_driven_notificatio.Store.Notifications.{
  find, cas, returning, is_scheduled, to_pending, mark_scheduled_pending,
}
use event_driven_notificatio.Store.OutboxTable.{insert_outbox}
use event_driven_notificatio.Store.ScheduledTable.{
  find as find_scheduled, id_of, delete_scheduled, claim_due_scheduled,
}
use event_driven_notificatio.Store.Lookup.{find-cas_self, find-cas_miss, status_in, status_of}
use event_driven_notificatio.Store.Lifecycle.{Follows, Follows-refl, Follows-trans}
use event_driven_notificatio.Store.Lifecycle.Statements.{Follows-mark_scheduled_pending}
use event_driven_notificatio.Store.Lifecycle.Bulk.{
  Follows-insert_outbox, Follows-delete_scheduled, Follows-claim_due_scheduled,
}
use event_driven_notificatio.Producers.{Encoder, outbox_row, step, ◌>>=◌}
use event_driven_notificatio.Producers.Transactions.{
  Holds, step_then, step_last, all_or_nothing, Follows-committed,
}
use event_driven_notificatio.Producers.Scheduler.{
  Config, TxCalls, priority_label, after_cas, transaction, dispatch_one, dispatch_all, tick,
}

find_row-delete_row :
    (i : ℕ) (rs : List Scheduled) → find_row id_of i (delete_row id_of i rs) ≡ none
unfolding find_row delete_row
find_row-delete_row i [] = refl
find_row-delete_row i (r ∷ rs) = ground (arith, find_row-delete_row i rs)

find-delete_scheduled : (i : ℕ) (db : Db) → find_scheduled i (delete_scheduled i db) ≡ none
unfolding find_scheduled delete_scheduled
find-delete_scheduled i db = find_row-delete_row i db.scheduled

-- The row for the outbox that stands for notification `n`.
abbrev pub row_for : Encoder → TxCalls → Notification → Outbox
row_for encoder calls n =
    outbox_row encoder priority_label (("x-correlation-id", n.correlation_id) ∷ []) calls.outbox_id
      calls.now n

-- The notification is due: 'pending', with one new row in the outbox, and off the schedule.
pub record Dispatched (r : Outbox) (id : ℕ) (db db' : Db) : Type 0 where
  pub status : status_of id db' ≡ some pending
  pub written : db'.outbox ≡ r ∷ db.outbox
  pub gone : find_scheduled id db' ≡ none

-- The notification is off the schedule, and nothing else has changed.
pub record Dropped (id : ℕ) (db db' : Db) : Type 0 where
  pub rows : (j : ℕ) → find j db' ≡ find j db
  pub written : db'.outbox ≡ db.outbox
  pub gone : find_scheduled id db' ≡ none

module _ (encoder : Encoder) (calls : TxCalls) (id : ℕ) (n : Notification) (db : Db)
    (there : find id db ≡ some n) where
  abbrev marked : Db
  marked = cas id is_scheduled (to_pending calls.now) db

  due_status : is_scheduled n ≡ true → find id marked ≡ some (to_pending calls.now n)
  due_status h =
      rw (find-cas_self id is_scheduled (to_pending calls.now) db (λ m. refl), there, h) refl

  dispatched :
      is_scheduled n ≡ true
      → Dispatched
          (row_for encoder calls n)
          id
          db
          (delete_scheduled id (insert_outbox (row_for encoder calls n) marked))
  unfolding status_of delete_scheduled insert_outbox find cas find_scheduled
  dispatched h = record {
    status = ap status_in (due_status h);
    written = refl;
    gone = find_row-delete_row id db.scheduled;
  }

  dropped : is_scheduled n ≡ false → Dropped id db (delete_scheduled id marked)
  unfolding delete_scheduled find find_scheduled cas
  dropped h = record {
    rows = λ j.
        find-cas_miss id j is_scheduled (to_pending calls.now) db (λ m. refl) (rw (there, h) refl);
    written = refl;
    gone = find_row-delete_row id db.scheduled;
  }

  due-Holds :
      is_scheduled n ≡ true
      → Holds (Dispatched (row_for encoder calls n) id db) (transaction encoder calls id db)
  unfolding transaction after_cas mark_scheduled_pending returning
  due-Holds h =
      let P = Dispatched (row_for encoder calls n) id db in
      step_then P calls.begin_fails db _ (
        step_then P calls.get_fails (find id db) _ (
          rw there (
            step_then P calls.cas_fails _ _ (
              rw h (
                step_then P calls.outbox_fails _ _ (
                  step_then P calls.delete_fails _ _
                    (step_last P calls.commit_fails _ (dispatched h))))))))

  lost-Holds : is_scheduled n ≡ false → Holds (Dropped id db) (transaction encoder calls id db)
  unfolding transaction after_cas mark_scheduled_pending returning
  lost-Holds h =
      let P = Dropped id db in
      step_then P calls.begin_fails db _ (
        step_then P calls.get_fails (find id db) _ (
          rw there (
            step_then P calls.cas_fails _ _ (
              rw h (
                step_then P calls.delete_fails _ _
                  (step_last P calls.commit_fails _ (dropped h)))))))

  -- The scheduler takes up a notification that exists, whatever calls fail. If it is 'scheduled',
  -- either nothing changes or all of this happens: it becomes 'pending', the outbox gets one row for
  -- it, and it leaves the schedule. If it is not (it was cancelled meanwhile, or dispatched before),
  -- either nothing changes or it leaves the schedule, with no row of the notifications or the outbox
  -- changed.
  pub dispatch_one_atomic :
      (is_scheduled n ≡ true
        → (dispatch_one encoder calls id db ≡ db)
          ⊎ Dispatched (row_for encoder calls n) id db (dispatch_one encoder calls id db))
      × (is_scheduled n ≡ false
          → (dispatch_one encoder calls id db ≡ db)
            ⊎ Dropped id db (dispatch_one encoder calls id db))
  unfolding dispatch_one
  dispatch_one_atomic = (
    λ h. all_or_nothing (Dispatched (row_for encoder calls n) id db) _ db (due-Holds h),
    λ h. all_or_nothing (Dropped id db) _ db (lost-Holds h),
  )

after_cas-Follows :
    (encoder : Encoder) (calls : TxCalls) (id : ℕ) (n : Notification) (answer : Reply Notification)
    (db db' : Db)
    → Follows db db'
    → Holds (Follows db) (after_cas encoder calls id n answer db')
unfolding after_cas
after_cas-Follows encoder calls id n failure db db' h = tt
after_cas-Follows encoder calls id n no_rows db db' h =
    step_then (Follows db) calls.delete_fails _ _ (
      step_last (Follows db) calls.commit_fails _
        (Follows-trans db db' _ h (Follows-delete_scheduled id db')))
after_cas-Follows encoder calls id n (row m) db db' h =
    let out = insert_outbox (row_for encoder calls n) db' in
    step_then (Follows db) calls.outbox_fails _ _ (
      step_then (Follows db) calls.delete_fails _ _ (
        step_last (Follows db) calls.commit_fails _ (
          Follows-trans db db' _ h (
            Follows-trans db' out _ (Follows-insert_outbox (row_for encoder calls n) db')
              (Follows-delete_scheduled id out)))))

found-Follows :
    (encoder : Encoder) (calls : TxCalls) (id : ℕ) (db : Db) (o : Option Notification)
    → Holds (Follows db) (
        o >>= (λ n.
          step calls.cas_fails (mark_scheduled_pending id calls.now db)
          >>= (λ answer. after_cas encoder calls id n answer.0 answer.1)))
found-Follows encoder calls id db none = tt
found-Follows encoder calls id db (some n) =
    step_then (Follows db) calls.cas_fails _ _
      (after_cas-Follows encoder calls id n _ db _ (Follows-mark_scheduled_pending id calls.now db))

dispatch_one-Follows :
    (encoder : Encoder) (calls : TxCalls) (id : ℕ) (db : Db)
    → Follows db (dispatch_one encoder calls id db)
unfolding dispatch_one transaction
dispatch_one-Follows encoder calls id db = Follows-committed _ db (
    step_then (Follows db) calls.begin_fails db _ (
      step_then (Follows db) calls.get_fails (find id db) _
        (found-Follows encoder calls id db (find id db))))

dispatch_all-Follows :
    (encoder : Encoder) (calls : ℕ → TxCalls) (k : ℕ) (rs : List Scheduled) (db : Db)
    → Follows db (dispatch_all encoder calls k rs db)
unfolding dispatch_all
dispatch_all-Follows encoder calls k [] db = Follows-refl db
dispatch_all-Follows encoder calls k (r ∷ rs) db =
    Follows-trans db (dispatch_one encoder (calls k) r.id db) _
      (dispatch_one-Follows encoder (calls k) r.id db)
      (dispatch_all-Follows encoder calls (k + 1) rs _)

pub scheduler-Follows :
    (encoder : Encoder) (cfg : Config) (claim_fails : Bool) (now : ℕ) (calls : ℕ → TxCalls)
    (db : Db)
    → Follows db (tick encoder cfg claim_fails now calls db)
unfolding tick
scheduler-Follows encoder cfg true now calls db = Follows-refl db
scheduler-Follows encoder cfg false now calls db =
    let batch = claim_due_scheduled cfg.claim_ttl cfg.batch_size cfg.scheduler_id now db in
    Follows-trans db batch.1 _
      (Follows-claim_due_scheduled cfg.claim_ttl cfg.batch_size cfg.scheduler_id now db)
      (dispatch_all-Follows encoder calls 0 batch.0 batch.1)
