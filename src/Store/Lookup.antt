-- ===== src/Store/Lookup.antt =====
-- What the statements of internal/store/gen make of the row that they are about.
use event_driven_notificatio.Prelude.{
  ℕ, ◌≡◌, refl, ap, ◌∙◌, Bool, true, false, Option, none, some, arith, ◌==◌, Bool-cases, inl, inr,
}
use event_driven_notificatio.Prelude.Table.{
  find_row, touched, find_row-update_row_self, find_row-update_row_ne,
}
use event_driven_notificatio.Domain.{Status, sending}
use event_driven_notificatio.Store.{
  Bytes, Notification, DeadLetter, DeliveryAttempt, Db, Reply, row, no_rows, failure,
}
use event_driven_notificatio.Store.Notifications.{
  id_of, find, cas, is_claimable, is_sending, is_unsent, sending_only, pending_or_queued,
  to_sending, to_sent, to_retry, to_retry_no_attempt, to_dead_letter, mark_sending_cas, mark_sent,
  mark_dead_letter, revert_to_queued, revert_to_queued_no_attempt,
}

-- The status that a reader sees.
abbrev pub status_in : Option Notification → Option Status
status_in none = none
status_in (some n) = some n.status

unfoldable pub status_of : ℕ → Db → Option Status
status_of i db = status_in (find i db)

pub find-cas_self :
    (i : ℕ) (p : Notification → Bool) (f : Notification → Notification) (db : Db)
    → ((n : Notification) → (f n).id ≡ n.id)
    → find i (cas i p f db) ≡ touched p f (find i db)
unfolding find cas
find-cas_self i p f db keeps = find_row-update_row_self id_of i p f db.notifications keeps

pub find-cas_ne :
    (i j : ℕ) (p : Notification → Bool) (f : Notification → Notification) (db : Db)
    → ((n : Notification) → (f n).id ≡ n.id)
    → (i == j) ≡ false
    → find j (cas i p f db) ≡ find j db
unfolding find cas
find-cas_ne i j p f db keeps h = find_row-update_row_ne id_of i j p f db.notifications keeps h

pub find_of_same :
    (i : ℕ) (db db' : Db) → db'.notifications ≡ db.notifications → find i db' ≡ find i db
unfolding find
find_of_same i db db' e = ap (find_row id_of i) e

module _ (i : ℕ) (db : Db) (n : Notification) (there : find i db ≡ some n) where
  pub mark_sending_cas_claims :
      (now : ℕ)
      → is_claimable n ≡ true
      → ((mark_sending_cas i now db).0 ≡ row (to_sending now n))
        × (find i (mark_sending_cas i now db).1 ≡ some (to_sending now n))
  unfolding mark_sending_cas event_driven_notificatio.Store.Notifications.returning
  mark_sending_cas_claims now h = (
    rw (there, h) refl,
    rw (find-cas_self i is_claimable (to_sending now) db (λ m. refl), there, h) refl,
  )

  pub mark_sending_cas_misses :
      (now : ℕ) → is_claimable n ≡ false → (mark_sending_cas i now db).0 ≡ no_rows
  unfolding mark_sending_cas event_driven_notificatio.Store.Notifications.returning
  mark_sending_cas_misses now h = rw (there, h) refl

-- An update whose test the row fails leaves every row as it was.
pub find-cas_miss :
    (i j : ℕ) (p : Notification → Bool) (f : Notification → Notification) (db : Db)
    → ((n : Notification) → (f n).id ≡ n.id)
    → touched p f (find i db) ≡ find i db
    → find j (cas i p f db) ≡ find j db
find-cas_miss i j p f db keeps h = elim (Bool-cases (i == j)) [
  | inl same ↦ let e : i ≡ j = ground arith in rw (← e) (find-cas_self i p f db keeps ∙ h)
  | inr other ↦ find-cas_ne i j p f db keeps other
]

-- A row in 'sending', as the worker holds it.
module _ (i : ℕ) (db : Db) (n : Notification) (there : find i db ≡ some n)
    (held : n.status ≡ sending) where
  sending_holds : is_sending n ≡ true
  sending_holds = rw held

  pub revert_to_queued_at :
      (err : Option Bytes) (now : ℕ)
      → find i (revert_to_queued i err now db) ≡ some (to_retry err now n)
  unfolding revert_to_queued
  revert_to_queued_at err now =
      rw (find-cas_self i is_sending (to_retry err now) db (λ m. refl), there, sending_holds) refl

  pub revert_to_queued_no_attempt_at :
      (err : Option Bytes) (now : ℕ)
      → find i (revert_to_queued_no_attempt i err now db) ≡ some (to_retry_no_attempt err now n)
  unfolding revert_to_queued_no_attempt
  revert_to_queued_no_attempt_at err now =
      rw
        (
          find-cas_self i is_sending (to_retry_no_attempt err now) db (λ m. refl),
          there,
          sending_holds,
        )
        refl

  pub mark_sent_at :
      (now : ℕ)
      → ((mark_sent i now db).0 ≡ row (to_sent now n))
        × (find i (mark_sent i now db).1 ≡ some (to_sent now n))
  unfolding mark_sent event_driven_notificatio.Store.Notifications.returning
  mark_sent_at now = (
    rw (there, sending_holds) refl,
    rw (find-cas_self i is_sending (to_sent now) db (λ m. refl), there, sending_holds) refl,
  )

  pub mark_dead_letter_at :
      (err : Option Bytes) (now : ℕ)
      → is_unsent n ≡ true
      → find i (mark_dead_letter i err now db).1 ≡ some (to_dead_letter err now n)
  unfolding mark_dead_letter
  mark_dead_letter_at err now u =
      rw (find-cas_self i is_unsent (to_dead_letter err now) db (λ m. refl), there, u) refl
