-- ===== src/Store/Lifecycle/Bulk.antt =====
-- The sweep, the insertion of a row, and the statements on the other tables.
use event_driven_notificatio.Prelude.{
  ℕ, ◌≡◌, refl, true, Option, none, some, arith, Bool-cases, Option-cases, inl, inr, String, List,
  ◌∷◌, ◌==◌,
}
use event_driven_notificatio.Prelude.Table.{find_row, find_row-update_where}
use event_driven_notificatio.Store.{
  Bytes, Notification, Outbox, Db, DeadLetter, DeliveryAttempt, AuditEntry,
}
use event_driven_notificatio.Store.Notifications.{
  id_of, find, is_stuck, to_reclaimed, sweep_stuck_sending, insert_notification,
}
use event_driven_notificatio.Store.OutboxTable.{
  insert_outbox, claim_outbox_batch, mark_outbox_published, mark_outbox_failed,
}
use event_driven_notificatio.Store.ScheduledTable.{
  insert_scheduled, claim_due_scheduled, delete_scheduled,
}
use event_driven_notificatio.Store.Records.{
  insert_dead_letter, delete_dead_letter, insert_delivery_attempt, insert_audit_entry,
}
use event_driven_notificatio.Store.Lifecycle.{
  is_consistent, Step, Evolves, Evolves-refl, Evolves-touched, Follows,
}
use event_driven_notificatio.Store.Lifecycle.Statements.{path_sending_only_queued}

Step-to_reclaimed :
    (n : Notification) (secs now : ℕ) → is_stuck secs now n ≡ true → Step n (to_reclaimed now n)
Step-to_reclaimed n secs now h = record {
  same = refl;
  moves = λ _. path_sending_only_queued n.status (ground arith);
  stays = λ c. ground arith;
}

pub Follows-sweep_stuck_sending :
    (secs now : ℕ) (db : Db) → Follows db (sweep_stuck_sending secs now db).1
unfolding Follows sweep_stuck_sending find
Follows-sweep_stuck_sending secs now db j =
    rw
      (find_row-update_where id_of j (is_stuck secs now) (to_reclaimed now) db.notifications
        (λ n. refl))
      (Evolves-touched (is_stuck secs now) (to_reclaimed now)
        (λ n h. Step-to_reclaimed n secs now h) (find_row id_of j db.notifications))

Evolves-insert :
    (m : Notification) (ns : List Notification) (j : ℕ)
    → is_consistent m ≡ true
    → find_row id_of m.id ns ≡ none
    → Evolves (find_row id_of j ns) (find_row id_of j (m ∷ ns))
unfolding find_row
Evolves-insert m ns j c e = elim (Bool-cases (m.id == j)) [
  | inl same ↦
      let e' : m.id ≡ j = ground arith in
      let gone : find_row id_of j ns ≡ none = rw (← e') e in rw (gone, same) c
  | inr other ↦ rw other (Evolves-refl (find_row id_of j ns))
]

insert_notification_fresh :
    (m : Notification) (db : Db)
    → find_row id_of m.id db.notifications ≡ none
    → (insert_notification m db).1.notifications ≡ m ∷ db.notifications
unfolding insert_notification find
insert_notification_fresh m db e = ground arith

insert_notification_taken :
    (m : Notification) (db : Db) (n : Notification)
    → find_row id_of m.id db.notifications ≡ some n
    → (insert_notification m db).1.notifications ≡ db.notifications
unfolding insert_notification find
insert_notification_taken m db n e = ground arith

pub Follows-insert_notification :
    (m : Notification) (db : Db) → is_consistent m ≡ true → Follows db (insert_notification m db).1
unfolding Follows find
Follows-insert_notification m db c j = elim (Option-cases (find_row id_of m.id db.notifications)) [
  | inl gone ↦ rw (insert_notification_fresh m db gone) (Evolves-insert m db.notifications j c gone)
  | inr (n, there) ↦
      rw (insert_notification_taken m db n there) (Evolves-refl (find_row id_of j db.notifications))
]

-- The statements on the other tables leave the notifications alone.
module _ (db db' : Db) where
  pub Follows-of_same : db'.notifications ≡ db.notifications → Follows db db'
  unfolding Follows find
  Follows-of_same e j = rw e (Evolves-refl (find_row id_of j db.notifications))

pub Follows-insert_outbox : (r : Outbox) (db : Db) → Follows db (insert_outbox r db)
unfolding insert_outbox
Follows-insert_outbox r db = Follows-of_same db _ refl

pub Follows-claim_outbox_batch :
    (ttl size : ℕ) (by : String) (now : ℕ) (db : Db)
    → Follows db (claim_outbox_batch ttl size by now db).1
unfolding claim_outbox_batch
Follows-claim_outbox_batch ttl size by now db = Follows-of_same db _ refl

pub Follows-mark_outbox_published :
    (i now : ℕ) (db : Db) → Follows db (mark_outbox_published i now db)
unfolding mark_outbox_published
Follows-mark_outbox_published i now db = Follows-of_same db _ refl

pub Follows-mark_outbox_failed :
    (i : ℕ) (err : Option Bytes) (db : Db) → Follows db (mark_outbox_failed i err db)
unfolding mark_outbox_failed
Follows-mark_outbox_failed i err db = Follows-of_same db _ refl

pub Follows-insert_scheduled : (i at : ℕ) (db : Db) → Follows db (insert_scheduled i at db)
unfolding insert_scheduled
Follows-insert_scheduled i at db = Follows-of_same db _ refl

pub Follows-claim_due_scheduled :
    (ttl size : ℕ) (by : String) (now : ℕ) (db : Db)
    → Follows db (claim_due_scheduled ttl size by now db).1
unfolding claim_due_scheduled
Follows-claim_due_scheduled ttl size by now db = Follows-of_same db _ refl

pub Follows-delete_scheduled : (i : ℕ) (db : Db) → Follows db (delete_scheduled i db)
unfolding delete_scheduled
Follows-delete_scheduled i db = Follows-of_same db _ refl

pub insert_dead_letter_same :
    (d : DeadLetter) (db : Db) → (insert_dead_letter d db).1.notifications ≡ db.notifications
unfolding insert_dead_letter
insert_dead_letter_same d db = ground arith

pub insert_delivery_attempt_same :
    (a : DeliveryAttempt) (db : Db)
    → (insert_delivery_attempt a db).1.notifications ≡ db.notifications
unfolding insert_delivery_attempt
insert_delivery_attempt_same a db = ground arith

pub Follows-insert_dead_letter : (d : DeadLetter) (db : Db) → Follows db (insert_dead_letter d db).1
Follows-insert_dead_letter d db = Follows-of_same db _ (insert_dead_letter_same d db)

pub Follows-insert_delivery_attempt :
    (a : DeliveryAttempt) (db : Db) → Follows db (insert_delivery_attempt a db).1
Follows-insert_delivery_attempt a db = Follows-of_same db _ (insert_delivery_attempt_same a db)

pub Follows-delete_dead_letter : (i : ℕ) (db : Db) → Follows db (delete_dead_letter i db)
unfolding delete_dead_letter
Follows-delete_dead_letter i db = Follows-of_same db _ refl

pub Follows-insert_audit_entry : (e : AuditEntry) (db : Db) → Follows db (insert_audit_entry e db)
unfolding insert_audit_entry
Follows-insert_audit_entry e db = Follows-of_same db _ refl
