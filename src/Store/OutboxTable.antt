-- ===== src/Store/OutboxTable.antt =====
-- internal/store/gen/outbox.sql.go: the statements on the outbox table.
use event_driven_notificatio.Prelude.{
  ℕ, ◌+◌, ◌*◌, Bool, true, false, ◌&&◌, String, List, [], ◌∷◌, map, Option, none, some, ltb, leb,
  if◌then◌else◌, ◌==◌, filter, take, any,
}
use event_driven_notificatio.Prelude.Table.{find_row, update_row, update_where}
use event_driven_notificatio.Store.{Bytes, second, Outbox, Db}

abbrev pub id_of : Outbox → ℕ
id_of r = r.id

unfoldable pub find : ℕ → Db → Option Outbox
find i db = find_row id_of i db.outbox

-- The columns that InsertOutbox sets; the others have their defaults.
abbrev pub fresh : ℕ → ℕ → String → Bytes → Bytes → ℕ → ℕ → Outbox
fresh id notification_id routing_key payload headers priority now = record {
  id = id;
  notification_id = notification_id;
  routing_key = routing_key;
  payload = payload;
  headers = headers;
  priority = priority;
  created_at = now;
  claimed_at = none;
  claimed_by = none;
  published_at = none;
  attempt_count = 0;
  last_error = none;
}

-- InsertOutbox
unfoldable pub insert_outbox : Outbox → Db → Db
insert_outbox r db = record db { outbox = r ∷ db.outbox }

-- claimed_at IS NULL OR claimed_at < now() - make_interval(secs => ttl)
abbrev pub is_free : Option ℕ → ℕ → ℕ → Bool
is_free none ttl now = true
is_free (some t) ttl now = ltb (t + ttl * second) now

abbrev pub is_unpublished : Outbox → Bool
is_unpublished r = elim r.published_at [ none ↦ true | some _ ↦ false ]

abbrev pub is_claimable : ℕ → ℕ → Outbox → Bool
is_claimable ttl now r = is_unpublished r && is_free r.claimed_at ttl now

-- ORDER BY created_at
unfoldable pub insert_sorted : Outbox → List Outbox → List Outbox
insert_sorted r [] = r ∷ []
insert_sorted r (x ∷ xs) =
    if leb r.created_at x.created_at then r ∷ x ∷ xs else x ∷ insert_sorted r xs

unfoldable pub by_created_at : List Outbox → List Outbox
unfolding insert_sorted
by_created_at [] = []
by_created_at (r ∷ rs) = insert_sorted r (by_created_at rs)

abbrev pub claimed : String → ℕ → Outbox → Outbox
claimed by now r = record r { claimed_at = some now; claimed_by = some by }

abbrev pub in_batch : List Outbox → Outbox → Bool
in_batch batch r = any (λ x. x.id == r.id) batch

unfoldable pub claim_batch : ℕ → ℕ → ℕ → Db → List Outbox
unfolding by_created_at
claim_batch ttl batch_size now db =
    take batch_size (by_created_at (filter (is_claimable ttl now) db.outbox))

-- ClaimOutboxBatch, with the order in which UPDATE ... RETURNING gives the rows that of the claim.
unfoldable pub claim_outbox_batch : ℕ → ℕ → String → ℕ → Db → List Outbox × Db
unfolding claim_batch
claim_outbox_batch ttl batch_size by now db =
    let batch = claim_batch ttl batch_size now db in
    (
      map (claimed by now) batch,
      record db { outbox = update_where (in_batch batch) (claimed by now) db.outbox },
    )

abbrev always : Outbox → Bool
always r = true

-- MarkOutboxPublished
unfoldable pub mark_outbox_published : ℕ → ℕ → Db → Db
mark_outbox_published i now db = record db {
  outbox = update_row id_of i always (λ r. record r { published_at = some now }) db.outbox;
}

-- MarkOutboxFailed
unfoldable pub mark_outbox_failed : ℕ → Option Bytes → Db → Db
mark_outbox_failed i err db = record db {
  outbox =
      update_row id_of i always
        (λ r. record r {
          attempt_count = r.attempt_count + 1;
          last_error = err;
          claimed_at = none;
          claimed_by = none;
        })
        db.outbox;
}
