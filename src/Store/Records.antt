-- ===== src/Store/Records.antt =====
-- internal/store/gen/dead_letters.sql.go, delivery_attempts.sql.go and admin_audit.sql.go: the
-- statements on the tables that record what happened to a notification.
use event_driven_notificatio.Prelude.{
  ℕ, Bool, false, ◌&&◌, [], ◌∷◌, Option, none, some, leb, if◌then◌else◌, ◌==◌, any, length,
}
use event_driven_notificatio.Prelude.Table.{find_row, delete_row}
use event_driven_notificatio.Store.{
  Bytes, DeadLetter, DeliveryAttempt, AuditEntry, Db, Reply, row, no_rows, failure,
}

abbrev pub key_of : DeadLetter → ℕ
key_of d = d.notification_id

-- GetDeadLetterByNotification
unfoldable pub find_dead_letter : ℕ → Db → Option DeadLetter
find_dead_letter i db = find_row key_of i db.dead_letters

-- CHECK (length(reason) BETWEEN 1 AND 500). The length of a text counts characters; of the bytes
-- that this code passes it is at most the count of bytes.
abbrev reason_fits : Bytes → Bool
reason_fits [] = false
reason_fits (b ∷ bs) = leb (length (b ∷ bs)) 500

abbrev put_dead_letter : DeadLetter → Db → Option DeadLetter → Reply DeadLetter × Db
put_dead_letter d db (some _) = (no_rows, db)
put_dead_letter d db none = (row d, record db { dead_letters = d ∷ db.dead_letters })

-- InsertDeadLetter: ON CONFLICT (notification_id) DO NOTHING
unfoldable pub insert_dead_letter : DeadLetter → Db → Reply DeadLetter × Db
unfolding find_dead_letter
insert_dead_letter d db =
    if reason_fits d.reason
    then put_dead_letter d db (find_dead_letter d.notification_id db)
    else (failure, db)

-- DeleteDeadLetter
unfoldable pub delete_dead_letter : ℕ → Db → Db
delete_dead_letter i db = record db { dead_letters = delete_row key_of i db.dead_letters }

-- UNIQUE (notification_id, attempt_number)
unfoldable pub has_attempt : ℕ → ℕ → Db → Bool
has_attempt i n db =
    any (λ a. (a.notification_id == i) && (a.attempt_number == n)) db.delivery_attempts

-- InsertDeliveryAttempt; the unique constraint refuses a second row for one attempt.
unfoldable pub insert_delivery_attempt : DeliveryAttempt → Db → Reply DeliveryAttempt × Db
unfolding has_attempt
insert_delivery_attempt a db =
    if has_attempt a.notification_id a.attempt_number db
    then (failure, db)
    else (row a, record db { delivery_attempts = a ∷ db.delivery_attempts })

-- InsertAuditEntry
unfoldable pub insert_audit_entry : AuditEntry → Db → Db
insert_audit_entry e db = record db { admin_audit = e ∷ db.admin_audit }
