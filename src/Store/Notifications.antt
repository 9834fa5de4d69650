-- ===== src/Store/Notifications.antt =====
-- internal/store/gen/notifications.sql.go and MarkScheduledPending of scheduled.sql.go: the
-- statements on the notifications table, as functions from a database to the reply and the new
-- database.
use event_driven_notificatio.Prelude.{
  ℕ, ◌+◌, ◌*◌, Bool, true, false, ◌&&◌, List, [], ◌∷◌, ◌++◌, map, Option, none, some, ltb,
  if◌then◌else◌, ◌==◌, filter,
}
use event_driven_notificatio.Prelude.Table.{find_row, update_row, update_where}
use event_driven_notificatio.Domain.{
  Status, pending, scheduled, queued, sending, sent, cancelled, dead_letter,
}
use event_driven_notificatio.Store.{Bytes, second, Notification, Db, Reply, row, no_rows, failure}

abbrev pub id_of : Notification → ℕ
id_of n = n.id

unfoldable pub find : ℕ → Db → Option Notification
find i db = find_row id_of i db.notifications

-- UPDATE notifications SET f WHERE id = i AND p RETURNING *
unfoldable pub cas : ℕ → (Notification → Bool) → (Notification → Notification) → Db → Db
cas i p f db = record db { notifications = update_row id_of i p f db.notifications }

abbrev pub answer :
    (Notification → Bool) → (Notification → Notification) → Option Notification → Reply Notification
answer p f none = no_rows
answer p f (some n) = if p n then row (f n) else no_rows

unfoldable pub returning :
    ℕ → (Notification → Bool) → (Notification → Notification) → Db → Reply Notification
returning i p f db = answer p f (find i db)

-- The tests of the WHERE clauses.
abbrev pub pending_only : Status → Bool
pending_only pending = true
pending_only _ = false

abbrev pub scheduled_only : Status → Bool
scheduled_only scheduled = true
scheduled_only _ = false

abbrev pub pending_or_queued : Status → Bool
pending_or_queued pending = true
pending_or_queued queued = true
pending_or_queued _ = false

abbrev pub sending_only : Status → Bool
sending_only sending = true
sending_only _ = false

abbrev pub before_sending : Status → Bool
before_sending pending = true
before_sending queued = true
before_sending scheduled = true
before_sending _ = false

abbrev pub is_pending : Notification → Bool
is_pending n = pending_only n.status

abbrev pub is_scheduled : Notification → Bool
is_scheduled n = scheduled_only n.status

abbrev pub is_claimable : Notification → Bool
is_claimable n = pending_or_queued n.status

abbrev pub is_sending : Notification → Bool
is_sending n = sending_only n.status

abbrev pub is_cancellable : Notification → Bool
is_cancellable n = before_sending n.status

-- CHECK ((status = 'sent') = (sent_at IS NOT NULL)) lets a row become 'dead_letter' only if it has
-- no sent_at.
abbrev pub is_unsent : Notification → Bool
is_unsent n = elim n.sent_at [ none ↦ true | some _ ↦ false ]

-- The SET clauses.
abbrev pub to_queued : ℕ → Notification → Notification
to_queued now n = record n { status = queued; updated_at = now }

abbrev pub to_sending : ℕ → Notification → Notification
to_sending now n = record n { status = sending; updated_at = now }

abbrev pub to_sent : ℕ → Notification → Notification
to_sent now n = record n { status = sent; sent_at = some now; updated_at = now }

abbrev pub to_cancelled : ℕ → Notification → Notification
to_cancelled now n = record n { status = cancelled; updated_at = now }

abbrev pub to_pending : ℕ → Notification → Notification
to_pending now n = record n { status = pending; updated_at = now }

abbrev pub to_dead_letter : Option Bytes → ℕ → Notification → Notification
to_dead_letter err now n = record n { status = dead_letter; last_error = err; updated_at = now }

abbrev pub to_retry : Option Bytes → ℕ → Notification → Notification
to_retry err now n = record n {
  status = queued;
  attempt_count = n.attempt_count + 1;
  last_error = err;
  updated_at = now;
}

abbrev pub to_retry_no_attempt : Option Bytes → ℕ → Notification → Notification
to_retry_no_attempt err now n = record n { status = queued; last_error = err; updated_at = now }

-- ' [sweep: stuck in sending]'
abbrev sweep_note : Bytes
sweep_note =
    32 ∷ 91 ∷ 115 ∷ 119 ∷ 101 ∷ 101 ∷ 112 ∷ 58 ∷ 32 ∷ 115 ∷ 116 ∷ 117 ∷ 99 ∷ 107 ∷ 32 ∷ 105 ∷ 110
    ∷ 32 ∷ 115 ∷ 101 ∷ 110 ∷ 100 ∷ 105 ∷ 110 ∷ 103 ∷ 93 ∷ []

abbrev noted : Option Bytes → Bytes
noted none = sweep_note
noted (some e) = e ++ sweep_note

abbrev pub to_reclaimed : ℕ → Notification → Notification
to_reclaimed now n = record n {
  status = queued;
  attempt_count = n.attempt_count + 1;
  last_error = some (noted n.last_error);
  updated_at = now;
}

abbrev pub to_replayed : ℕ → Notification → Notification
to_replayed now n = record n {
  status = pending;
  attempt_count = 0;
  last_error = none;
  sent_at = none;
  updated_at = now;
}

abbrev always : Notification → Bool
always n = true

-- MarkQueued
unfoldable pub mark_queued : ℕ → ℕ → Db → Reply Notification × Db
mark_queued i now db =
    (returning i is_pending (to_queued now) db, cas i is_pending (to_queued now) db)

-- MarkSendingCAS
unfoldable pub mark_sending_cas : ℕ → ℕ → Db → Reply Notification × Db
mark_sending_cas i now db =
    (returning i is_claimable (to_sending now) db, cas i is_claimable (to_sending now) db)

-- MarkSent
unfoldable pub mark_sent : ℕ → ℕ → Db → Reply Notification × Db
mark_sent i now db = (returning i is_sending (to_sent now) db, cas i is_sending (to_sent now) db)

-- CancelPendingOrQueued
unfoldable pub cancel_pending_or_queued : ℕ → ℕ → Db → Reply Notification × Db
cancel_pending_or_queued i now db =
    (returning i is_cancellable (to_cancelled now) db, cas i is_cancellable (to_cancelled now) db)

abbrev pub owned_by : ℕ → Option ℕ → Bool
owned_by owner none = false
owned_by owner (some o) = o == owner

abbrev pub is_cancellable_by : ℕ → Notification → Bool
is_cancellable_by owner n = owned_by owner n.created_by && is_cancellable n

-- CancelPendingOrQueuedScoped
unfoldable pub cancel_pending_or_queued_scoped : ℕ → ℕ → ℕ → Db → Reply Notification × Db
cancel_pending_or_queued_scoped i owner now db = (
  returning i (is_cancellable_by owner) (to_cancelled now) db,
  cas i (is_cancellable_by owner) (to_cancelled now) db,
)

-- MarkScheduledPending
unfoldable pub mark_scheduled_pending : ℕ → ℕ → Db → Reply Notification × Db
mark_scheduled_pending i now db =
    (returning i is_scheduled (to_pending now) db, cas i is_scheduled (to_pending now) db)

-- RevertToQueued
unfoldable pub revert_to_queued : ℕ → Option Bytes → ℕ → Db → Db
revert_to_queued i err now db = cas i is_sending (to_retry err now) db

-- RevertToQueuedNoAttempt
unfoldable pub revert_to_queued_no_attempt : ℕ → Option Bytes → ℕ → Db → Db
revert_to_queued_no_attempt i err now db = cas i is_sending (to_retry_no_attempt err now) db

abbrev dead_answer : Option Bytes → ℕ → Option Notification → Reply Notification
dead_answer err now none = no_rows
dead_answer err now (some n) = if is_unsent n then row (to_dead_letter err now n) else failure

-- MarkDeadLetter has no test of the status; on a row with a sent_at the CHECK constraint refuses it.
unfoldable pub mark_dead_letter : ℕ → Option Bytes → ℕ → Db → Reply Notification × Db
mark_dead_letter i err now db =
    (dead_answer err now (find i db), cas i is_unsent (to_dead_letter err now) db)

-- The UPDATE of the admin handler's replay (internal/api/admin.go).
unfoldable pub reset_for_replay : ℕ → ℕ → Db → Db
reset_for_replay i now db = cas i always (to_replayed now) db

-- updated_at < now() - make_interval(secs => stuck_seconds)
abbrev pub is_stuck : ℕ → ℕ → Notification → Bool
is_stuck stuck_seconds now n = is_sending n && ltb (n.updated_at + stuck_seconds * second) now

-- SweepStuckSending
unfoldable pub sweep_stuck_sending : ℕ → ℕ → Db → List Notification × Db
sweep_stuck_sending stuck_seconds now db =
    let hit = is_stuck stuck_seconds now in
    (
      map (to_reclaimed now) (filter hit db.notifications),
      record db { notifications = update_where hit (to_reclaimed now) db.notifications },
    )

-- InsertNotification; the primary key refuses an id that is there.
unfoldable pub insert_notification : Notification → Db → Reply Notification × Db
insert_notification n db = elim (find n.id db) [
  | none ↦ (row n, record db { notifications = n ∷ db.notifications })
  | some _ ↦ (failure, db)
]
