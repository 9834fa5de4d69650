-- ===== src/Store/ScheduledTable.antt =====
-- internal/store/gen/scheduled.sql.go: the statements on the scheduled_notifications table.
use event_driven_notificatio.Prelude.{
  ℕ, Bool, ◌&&◌, String, List, [], ◌∷◌, map, Option, none, some, leb, if◌then◌else◌, ◌==◌, filter,
  take, any,
}
use event_driven_notificatio.Prelude.Table.{find_row, update_where, delete_row}
use event_driven_notificatio.Store.{Scheduled, Db}
use event_driven_notificatio.Store.OutboxTable.{is_free}

abbrev pub id_of : Scheduled → ℕ
id_of r = r.id

unfoldable pub find : ℕ → Db → Option Scheduled
find i db = find_row id_of i db.scheduled

-- InsertScheduled
unfoldable pub insert_scheduled : ℕ → ℕ → Db → Db
insert_scheduled i due db = record db {
  scheduled = record { id = i; due_at = due; claimed_at = none; claimed_by = none } ∷ db.scheduled;
}

abbrev pub is_due : ℕ → ℕ → Scheduled → Bool
is_due ttl now r = leb r.due_at now && is_free r.claimed_at ttl now

-- ORDER BY due_at
insert_sorted : Scheduled → List Scheduled → List Scheduled
insert_sorted r [] = r ∷ []
insert_sorted r (x ∷ xs) = if leb r.due_at x.due_at then r ∷ x ∷ xs else x ∷ insert_sorted r xs

by_due_at : List Scheduled → List Scheduled
unfolding insert_sorted
by_due_at [] = []
by_due_at (r ∷ rs) = insert_sorted r (by_due_at rs)

abbrev claimed : String → ℕ → Scheduled → Scheduled
claimed by now r = record r { claimed_at = some now; claimed_by = some by }

abbrev in_batch : List Scheduled → Scheduled → Bool
in_batch batch r = any (λ x. x.id == r.id) batch

-- ClaimDueScheduled
unfoldable pub claim_due_scheduled : ℕ → ℕ → String → ℕ → Db → List Scheduled × Db
unfolding by_due_at
claim_due_scheduled ttl batch_size by now db =
    let batch = take batch_size (by_due_at (filter (is_due ttl now) db.scheduled)) in
    (
      map (claimed by now) batch,
      record db { scheduled = update_where (in_batch batch) (claimed by now) db.scheduled },
    )

-- DeleteScheduled
unfoldable pub delete_scheduled : ℕ → Db → Db
delete_scheduled i db = record db { scheduled = delete_row id_of i db.scheduled }
