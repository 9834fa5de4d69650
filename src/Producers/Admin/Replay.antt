-- ===== src/Producers/Admin/Replay.antt =====
-- What a replay or a purge (internal/api/admin.go) does to a dead letter.
use event_driven_notificatio.Prelude.{
  ℕ, ◌≡◌, ◌≢◌, refl, ap, ◌∙◌, inl, inr, Bool, true, false, List, [], ◌∷◌, Option, none, some, arith,
  if◌then◌else◌, if_true, any, ◌&&◌, Bool-cases, ◌==◌,
}
use event_driven_notificatio.Prelude.Table.{find_row, delete_row, touched, find_row-update_row_ne}
use event_driven_notificatio.Domain.{Status, pending, dead_letter}
use event_driven_notificatio.Store.{Notification, DeadLetter, DeliveryAttempt, Db, failure}
use event_driven_notificatio.Store.Notifications.{id_of, find, cas, to_replayed, reset_for_replay}
use event_driven_notificatio.Store.OutboxTable.{insert_outbox}
use event_driven_notificatio.Store.Records.{
  key_of, find_dead_letter, delete_dead_letter, insert_audit_entry, has_attempt,
  insert_delivery_attempt,
}
use event_driven_notificatio.Store.Lookup.{find-cas_self}
use event_driven_notificatio.Store.Lifecycle.{message, Follows, Follows-refl, Follows-trans}
use event_driven_notificatio.Store.Lifecycle.Endings.{
  MayRestart, MayRestart-refl, MayRestart-reset_for_replay,
}
use event_driven_notificatio.Store.Lifecycle.Bulk.{
  Follows-delete_dead_letter, Follows-insert_audit_entry,
}
use event_driven_notificatio.Producers.{Encoder}
use event_driven_notificatio.Producers.Transactions.{Holds, step_then, step_last}
use event_driven_notificatio.Producers.Admin.{
  ReplayCalls, Response, replayed, server_error, no_content, is_dead_letter, replay_row,
  audit_entry, reset, answered, replay_found, replay, purge,
}

-- The row of a notification that starts again.
pub record Fresh (now : ℕ) (n : Notification) (o : Option Notification) : Type 0 where
  pub row : Notification
  pub found : o ≡ some row
  pub status : row.status ≡ pending
  pub counted : row.attempt_count ≡ 0
  pub no_error : row.last_error ≡ none
  pub unsent : row.sent_at ≡ none
  pub touched : row.updated_at ≡ now
  pub same : message row ≡ message n

fresh_row :
    (now : ℕ) (n : Notification) (o : Option Notification)
    → o ≡ some (to_replayed now n)
    → Fresh now n o
fresh_row now n o e = record {
  row = to_replayed now n;
  found = e;
  status = refl;
  counted = refl;
  no_error = refl;
  unsent = refl;
  touched = refl;
  same = refl;
}

-- The notification is 'pending' with its counters reset and its message kept, the outbox has one new row for it, its dead
-- letter is gone, and the replay is on record.
pub record Restarted (encoder : Encoder) (calls : ReplayCalls) (n : Notification) (db db' : Db)
    : Type 0 where
  pub fresh : Fresh calls.now n (find n.id db')
  pub written : db'.outbox ≡ replay_row encoder calls n ∷ db.outbox
  pub gone : find_dead_letter n.id db' ≡ none
  pub recorded : db'.admin_audit ≡ audit_entry calls "dlq_replay" n.id ∷ db.admin_audit
  pub attempts : db'.delivery_attempts ≡ db.delivery_attempts
  pub others : (j : ℕ) → (n.id == j) ≡ false → find j db' ≡ find j db

find_row-delete_row :
    (i : ℕ) (rs : List DeadLetter) → find_row key_of i (delete_row key_of i rs) ≡ none
unfolding find_row delete_row
find_row-delete_row i [] = refl
find_row-delete_row i (r ∷ rs) = ground (arith, find_row-delete_row i rs)

is_dead : (s : Status) → is_dead_letter s ≡ true → s ≡ dead_letter
is_dead dead_letter h = refl
is_dead _ h = cc

abbrev every : Notification → Bool
every n = true

module _ (encoder : Encoder) (calls : ReplayCalls) (n : Notification) (db : Db)
    (there : find n.id db ≡ some n) where
  abbrev changed : Db
  changed = insert_audit_entry (audit_entry calls "dlq_replay" n.id) (
      insert_outbox (replay_row encoder calls n)
        (delete_dead_letter n.id (reset_for_replay n.id calls.now db)))

  restarted : n.status ≡ dead_letter → Restarted encoder calls n db changed
  unfolding find cas find_dead_letter insert_audit_entry insert_outbox delete_dead_letter
      reset_for_replay
  restarted dead = record {
    fresh = fresh_row calls.now n (find n.id changed) (
        find-cas_self n.id every (to_replayed calls.now) db (λ m. refl)
        ∙ ap (touched every (to_replayed calls.now)) there);
    written = refl;
    gone = find_row-delete_row n.id db.dead_letters;
    recorded = refl;
    attempts = refl;
    others = λ j other.
        find_row-update_row_ne id_of n.id j every (to_replayed calls.now) db.notifications
          (λ m. refl) other;
  }

  reset-Holds :
      n.status ≡ dead_letter → Holds (Restarted encoder calls n db) (reset encoder calls n.id n db)
  unfolding reset
  reset-Holds dead =
      let P = Restarted encoder calls n db in
      step_then P calls.reset_fails _ _ (
        step_then P calls.delete_fails _ _ (
          step_then P calls.outbox_fails _ _ (
            step_then P calls.audit_fails _ _ (step_last P calls.commit_fails _ (restarted dead)))))

  abbrev Told : Response × Db → Type 0
  Told r =
      (r.0 ≡ replayed → (n.status ≡ dead_letter) × Restarted encoder calls n db r.1)
      × (r.0 ≢ replayed → r.1 ≡ db)

  answered-Told :
      n.status ≡ dead_letter
      → (o : Option Db) → Holds (Restarted encoder calls n db) o
      → Told (answered db o)
  answered-Told dead none h = (λ e. cc, λ ne. refl)
  answered-Told dead (some db') h = (λ e. (dead, h), λ ne. elim (ne refl) [ ])

  found-Told :
      (b : Bool) → is_dead_letter n.status ≡ b → Told (replay_found encoder calls n.id (some n) db)
  unfolding replay_found
  found-Told true e = rw e (
      answered-Told (is_dead n.status e) (reset encoder calls n.id n db)
        (reset-Holds (is_dead n.status e)))
  found-Told false e = rw e (λ e'. cc, λ ne. refl)

  refused-Told :
      (fails : Bool) (r : Response × Db) → Told r → Told (if fails then (server_error, db) else r)
  refused-Told true r h = (λ e. cc, λ ne. refl)
  refused-Told false r h = h

  ap_Told : {r r' : Response × Db} → r ≡ r' → Told r' → Told r
  ap_Told e h = rw e h

  -- A replay of a notification that exists, whatever calls fail. If the answer is 200, the
  -- notification was 'dead_letter', and now it is 'pending' with its count of attempts at 0, no error, and the message that it had, the
  -- correlation id included; the outbox has
  -- one new row for it, its dead letter is gone, and the replay is in the audit table; the records of
  -- the attempts and all other notifications are as they were. With any other answer nothing has changed.
  pub replay_atomic :
      let r = replay encoder calls (some n.id) db in
      (r.0 ≡ replayed → (n.status ≡ dead_letter) × Restarted encoder calls n db r.1)
      × (r.0 ≢ replayed → r.1 ≡ db)
  unfolding replay
  replay_atomic = refused-Told calls.begin_fails _ (
      refused-Told calls.get_fails _ (
        ap_Told (ap (λ o. replay_found encoder calls n.id o db) there)
          (found-Told (is_dead_letter n.status) refl)))

abbrev pub count_in : Option Notification → Option ℕ
count_in none = none
count_in (some n) = some n.attempt_count

any_of_same :
    (i k : ℕ) (db db' : Db)
    → db'.delivery_attempts ≡ db.delivery_attempts
    → has_attempt i k db' ≡ has_attempt i k db
unfolding has_attempt
any_of_same i k db db' e = ap (any (λ a. (a.notification_id == i) && (a.attempt_number == k))) e

refused_insert :
    (a : DeliveryAttempt) (db : Db)
    → has_attempt a.notification_id a.attempt_number db ≡ true
    → insert_delivery_attempt a db ≡ (failure, db)
unfolding insert_delivery_attempt
refused_insert a db e = if_true _ _ e

-- A replayed notification that had a first attempt before: the replay resets its count of attempts
-- to 0, but keeps the record of the attempts, so that the record of its next attempt, which has the
-- number 1 again, is refused by the unique constraint.
pub replay_loses_attempts :
    (encoder : Encoder) (calls : ReplayCalls) (n : Notification) (db : Db) (a : DeliveryAttempt)
    → find n.id db ≡ some n
    → (replay encoder calls (some n.id) db).0 ≡ replayed
    → has_attempt n.id 1 db ≡ true
    → a.notification_id ≡ n.id
    → a.attempt_number ≡ 1
    → let db' = (replay encoder calls (some n.id) db).1 in
      (count_in (find n.id db') ≡ some 0) × (insert_delivery_attempt a db' ≡ (failure, db'))
replay_loses_attempts encoder calls n db a there ok had same first =
    let told = (replay_atomic encoder calls n db there).0 ok in
    let db' = (replay encoder calls (some n.id) db).1 in
    (
      ap count_in told.1.fresh.found ∙ ap (λ k. some k) told.1.fresh.counted,
      refused_insert a db' (
          ap (λ i. has_attempt i a.attempt_number db') same
          ∙ (ap (λ k. has_attempt n.id k db') first
              ∙ (any_of_same n.id 1 db db' told.1.attempts ∙ had))),
    )

reset-MayRestart :
    (encoder : Encoder) (calls : ReplayCalls) (i : ℕ) (n : Notification) (db : Db)
    → find i db ≡ some n
    → n.status ≡ dead_letter
    → Holds (MayRestart db) (reset encoder calls i n db)
unfolding reset MayRestart find delete_dead_letter insert_outbox insert_audit_entry
reset-MayRestart encoder calls i n db there dead =
    let P = MayRestart db in
    step_then P calls.reset_fails _ _ (
      step_then P calls.delete_fails _ _ (
        step_then P calls.outbox_fails _ _ (
          step_then P calls.audit_fails _ _ (
            step_last P calls.commit_fails _
              (MayRestart-reset_for_replay i calls.now db n there dead)))))

answered-MayRestart :
    (o : Option Db) (db : Db) → Holds (MayRestart db) o → MayRestart db (answered db o).1
answered-MayRestart none db h = MayRestart-refl db
answered-MayRestart (some db') db h = h

found-MayRestart :
    (encoder : Encoder) (calls : ReplayCalls) (i : ℕ) (o : Option Notification) (db : Db)
    → find i db ≡ o
    → MayRestart db (replay_found encoder calls i o db).1
unfolding replay_found
found-MayRestart encoder calls i none db e = MayRestart-refl db
found-MayRestart encoder calls i (some n) db e = elim (Bool-cases (is_dead_letter n.status)) [
  | inl yes_p ↦
      rw yes_p (
        answered-MayRestart _ db (reset-MayRestart encoder calls i n db e (is_dead n.status yes_p)))
  | inr no_p ↦ rw no_p (MayRestart-refl db)
]

refused-MayRestart :
    (fails : Bool) (r : Response × Db) (db : Db)
    → MayRestart db r.1
    → MayRestart db (if fails then (server_error, db) else r).1
refused-MayRestart true r db h = MayRestart-refl db
refused-MayRestart false r db h = h

pub replay-MayRestart :
    (encoder : Encoder) (calls : ReplayCalls) (o : Option ℕ) (db : Db)
    → MayRestart db (replay encoder calls o db).1
unfolding replay
replay-MayRestart encoder calls none db = MayRestart-refl db
replay-MayRestart encoder calls (some i) db =
    refused-MayRestart calls.begin_fails _ db (
      refused-MayRestart calls.get_fails _ db
        (found-MayRestart encoder calls i (find i db) db refl))

purged-Follows :
    (a b : Bool) (db x y : Db)
    → Follows db x
    → Follows db y
    → Follows db (
        let r : Response × Db =
          if a then (server_error, db) else if b then (no_content, x) else (no_content, y) in
        r.1)
purged-Follows true b db x y h h' = Follows-refl db
purged-Follows false true db x y h h' = h
purged-Follows false false db x y h h' = h'

pub purge-Follows : (calls : ReplayCalls) (o : Option ℕ) (db : Db) → Follows db (purge calls o db).1
unfolding purge
purge-Follows calls none db = Follows-refl db
purge-Follows calls (some i) db =
    let gone = delete_dead_letter i db in
    let entry = audit_entry calls "dlq_purge" i in
    purged-Follows calls.delete_fails calls.audit_fails db gone (insert_audit_entry entry gone)
      (Follows-delete_dead_letter i db)
      (Follows-trans db gone _ (Follows-delete_dead_letter i db)
        (Follows-insert_audit_entry entry gone))
