-- ===== src/Store/Batches.antt =====
-- internal/store/gen/batches.sql.go, and the queries of notifications.sql.go on a batch's
-- notifications.
use event_driven_notificatio.Prelude.{
  ℕ, ◌+◌, Bool, ◌&&◌, ◌||◌, List, [], ◌∷◌, Option, none, some, leb, ltb, if◌then◌else◌, ◌==◌,
  filter,
}
use event_driven_notificatio.Prelude.Table.{find_row}
use event_driven_notificatio.Store.{Notification, Batch, Db, Reply, row, failure}
use event_driven_notificatio.Store.Notifications.{owned_by}

abbrev pub key_of : Batch → ℕ
key_of b = b.id

-- GetBatchByID
unfoldable pub find_batch : ℕ → Db → Option Batch
find_batch i db = find_row key_of i db.batches

-- The constraint batches_counts_consistent.
abbrev pub counts_fit : Batch → Bool
counts_fit b = leb (b.accepted_count + b.rejected_count) b.total_count

-- InsertBatch; created_by is not among the columns that it sets. The primary key refuses an id that
-- is there.
unfoldable pub insert_batch : Batch → Db → Reply Batch × Db
unfolding find_batch
insert_batch b db = elim (find_batch b.id db) [
  | none ↦ if counts_fit b then (row b, record db { batches = b ∷ db.batches }) else (failure, db)
  | some _ ↦ (failure, db)
]

-- The order of (created_at, id), which rows of a listing are sorted by, the latest first.
unfoldable pub earlier : ℕ × ℕ → ℕ × ℕ → Bool
earlier a b = ltb a.0 b.0 || ((a.0 == b.0) && ltb a.1 b.1)

abbrev pub sort_key : Notification → ℕ × ℕ
sort_key n = (n.created_at, n.id)

unfoldable pub insert_row : Notification → List Notification → List Notification
unfolding earlier
insert_row n [] = n ∷ []
insert_row n (m ∷ ms) =
    if earlier (sort_key n) (sort_key m) then m ∷ insert_row n ms else n ∷ m ∷ ms

-- ORDER BY created_at DESC, id DESC
unfoldable pub newest_first : List Notification → List Notification
unfolding insert_row
newest_first [] = []
newest_first (n ∷ ns) = insert_row n (newest_first ns)

abbrev pub in_batch : ℕ → Notification → Bool
in_batch i n = owned_by i n.batch_id

-- GetNotificationsByBatchID
unfoldable pub batch_items : ℕ → Db → List Notification
unfolding newest_first
batch_items i db = newest_first (filter (in_batch i) db.notifications)

-- GetNotificationsByBatchIDScoped
unfoldable pub batch_items_scoped : ℕ → ℕ → Db → List Notification
unfolding newest_first
batch_items_scoped i owner db =
    newest_first (filter (λ n. in_batch i n && owned_by owner n.created_by) db.notifications)
