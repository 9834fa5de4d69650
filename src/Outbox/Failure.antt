-- ===== src/Outbox/Failure.antt =====
-- What a failed publish costs a row of the outbox (markFailure of internal/outbox/dispatcher.go).
use event_driven_notificatio.Prelude.{
  ℕ, ◌+◌, ◌<◌, ◌≤◌, ◌≡◌, refl, ◌∙◌, ap, Bool, true, false, ◌&&◌, Option, none, some, leb, arith,
}
use event_driven_notificatio.Prelude.Table.{find_row, touched, find_row-update_row_self}
use event_driven_notificatio.Store.{Bytes, Notification, Outbox, DeadLetter, Db}
use event_driven_notificatio.Store.Notifications.{
  is_unsent, to_dead_letter, mark_dead_letter, cas, find as find_notification,
}
use event_driven_notificatio.Store.Records.{insert_dead_letter}
use event_driven_notificatio.Store.OutboxTable.{
  id_of, find, is_claimable, mark_outbox_published, mark_outbox_failed,
}
use event_driven_notificatio.Store.Lookup.{find-cas_self, find_of_same}
use event_driven_notificatio.Store.Lifecycle.Bulk.{insert_dead_letter_same}
use event_driven_notificatio.Outbox.{Parser, Config, RowCalls, target, truncate, bury, mark_failure}

-- The database is up.
pub record Works (calls : RowCalls) : Type 0 where
  pub published : calls.published_fails ≡ false
  pub failed : calls.failed_fails ≡ false
  pub dead : calls.dead_fails ≡ false
  pub dead_row : calls.dead_row_fails ≡ false

abbrev every : Outbox → Bool
every r = true

abbrev pub retried : Option Bytes → Outbox → Outbox
retried err r = record r {
  attempt_count = r.attempt_count + 1;
  last_error = err;
  claimed_at = none;
  claimed_by = none;
}

abbrev pub finished : ℕ → Outbox → Outbox
finished now r = record r { published_at = some now }

mark_dead_letter_found :
    (id : ℕ) (db : Db) (n : Notification) (err : Option Bytes) (now : ℕ)
    → find_notification id db ≡ some n
    → is_unsent n ≡ true
    → find_notification id (mark_dead_letter id err now db).1 ≡ some (to_dead_letter err now n)
unfolding mark_dead_letter
mark_dead_letter_found id db n err now there u =
    rw (find-cas_self id is_unsent (to_dead_letter err now) db (λ m. refl), there, u) refl

mark_outbox_failed_at :
    (i : ℕ) (db : Db) (r : Outbox) (err : Option Bytes)
    → find i db ≡ some r
    → find i (mark_outbox_failed i err db) ≡ some (retried err r)
unfolding find mark_outbox_failed
mark_outbox_failed_at i db r err there =
    find_row-update_row_self id_of i every (retried err) db.outbox (λ x. refl)
    ∙ ap (touched every (retried err)) there

mark_outbox_published_at :
    (i now : ℕ) (db : Db) (r : Outbox)
    → find i db ≡ some r
    → find i (mark_outbox_published i now db) ≡ some (finished now r)
unfolding find mark_outbox_published
mark_outbox_published_at i now db r there =
    find_row-update_row_self id_of i every (finished now) db.outbox (λ x. refl)
    ∙ ap (touched every (finished now)) there

insert_dead_letter_outbox :
    (d : DeadLetter) (db : Db) → (insert_dead_letter d db).1.outbox ≡ db.outbox
unfolding insert_dead_letter
insert_dead_letter_outbox d db = ground arith

bury_outbox :
    (calls : RowCalls) (error : Bytes) (r : Outbox) (o : Option ℕ) (db : Db)
    → Works calls
    → (bury calls error r o db).outbox ≡ db.outbox
unfolding bury mark_dead_letter cas
bury_outbox calls error r none db works = refl
bury_outbox calls error r (some id) db works =
    rw (works.dead_row, works.dead) (insert_dead_letter_outbox _ _)

bury_status :
    (calls : RowCalls) (error : Bytes) (r : Outbox) (id : ℕ) (db : Db) (n : Notification)
    → Works calls
    → find_notification id db ≡ some n
    → is_unsent n ≡ true
    → find_notification id (bury calls error r (some id) db)
      ≡ some (to_dead_letter (some error) calls.now n)
unfolding bury
bury_status calls error r id db n works there u =
    rw (works.dead_row, works.dead)
      (find_of_same id _ _ (insert_dead_letter_same _ _)
        ∙ mark_dead_letter_found id db n (some error) calls.now there u)

again : (p : Option ℕ) → p ≡ none → (elim p [ none ↦ true | some _ ↦ false ] && true) ≡ true
again none e = refl
again (some t) e = cc

found_after_failed :
    (i id : ℕ) (err : Option Bytes) (db : Db) (n : Notification)
    → find_notification id db ≡ some n
    → find_notification id (mark_outbox_failed i err db) ≡ some n
unfolding mark_outbox_failed
found_after_failed i id err db n found =
    find_of_same id db (mark_outbox_failed i err db) refl ∙ found

found_after_published :
    (i id now : ℕ) (db : Db) (o : Option Notification)
    → find_notification id db ≡ o
    → find_notification id (mark_outbox_published i now db) ≡ o
unfolding mark_outbox_published
found_after_published i id now db o found =
    find_of_same id db (mark_outbox_published i now db) refl ∙ found

find_of_outbox : (i : ℕ) (db db' : Db) → db'.outbox ≡ db.outbox → find i db' ≡ find i db
unfolding find
find_of_outbox i db db' e = ap (find_row id_of i) e

-- With the database up, a publish fails of an unpublished row whose payload names a stored
-- notification that has not been sent. If the row has attempts left, it counts one more, is claimable
-- again at any time, and the notification is untouched. If not, the row is never claimable again, and
-- the notification becomes 'dead_letter' with the broker's error.
pub failure_accounted :
    (parser : Parser) (cfg : Config) (calls : RowCalls) (r : Outbox) (error : Bytes) (db : Db)
    (ttl later id : ℕ) (n : Notification)
    → Works calls
    → find r.id db ≡ some r
    → r.published_at ≡ none
    → target parser r ≡ some id
    → find_notification id db ≡ some n
    → is_unsent n ≡ true
    → let db' = mark_failure parser cfg calls r error db in
      (r.attempt_count + 1 < cfg.max_attempts
        → (find r.id db' ≡ some (retried (some (truncate error 1024)) r))
          × (is_claimable ttl later (retried (some (truncate error 1024)) r) ≡ true)
          × (find_notification id db' ≡ some n))
      × (cfg.max_attempts ≤ r.attempt_count + 1
          → (find r.id db' ≡ some (finished calls.now r))
            × (is_claimable ttl later (finished calls.now r) ≡ false)
            × (find_notification id db' ≡ some (to_dead_letter (some error) calls.now n)))
unfolding mark_failure
failure_accounted parser cfg calls r error db ttl later id n works there unpublished t found u = (
  λ below.
      let e : leb cfg.max_attempts (r.attempt_count + 1) ≡ false = ground arith in
      rw (e, works.failed)
        (
          mark_outbox_failed_at r.id db r (some (truncate error 1024)) there,
          again r.published_at unpublished,
          found_after_failed r.id id (some (truncate error 1024)) db n found,
        ),
  λ over.
      let e : leb cfg.max_attempts (r.attempt_count + 1) ≡ true = ground arith in
      rw (e, works.published)
        (
          mark_outbox_published_at r.id calls.now (bury calls error r (target parser r) db) r (
              find_of_outbox r.id _ _ (bury_outbox calls error r (target parser r) db works)
              ∙ there),
          refl,
          found_after_published r.id id calls.now (bury calls error r (target parser r) db) _ (
              ap (λ o. find_notification id (bury calls error r o db)) t
              ∙ bury_status calls error r id db n works found u),
        ),
)
