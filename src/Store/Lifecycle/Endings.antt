-- ===== src/Store/Lifecycle/Endings.antt =====
-- MarkDeadLetter and the scoped cancel move rows along the life cycle; the reset of a replay starts it
-- again.
use event_driven_notificatio.Prelude.{
  ℕ, ◌≡◌, ◌⊎◌, ◌∙◌, ap, refl, true, false, Option, none, some, arith, Bool-cases, inl, inr, ◌==◌,
}
use event_driven_notificatio.Prelude.Table.{
  find_row, touched, find_row-update_row_self, find_row-update_row_ne,
}
use event_driven_notificatio.Domain.{
  Status, pending, scheduled, queued, sending, sent, failed, cancelled, dead_letter,
}
use event_driven_notificatio.Store.{Bytes, Notification, Db}
use event_driven_notificatio.Store.Notifications.{
  id_of, find, cas, is_cancellable, is_unsent, is_cancellable_by, to_cancelled, to_dead_letter,
  to_replayed, cancel_pending_or_queued_scoped, mark_dead_letter, reset_for_replay,
}
use event_driven_notificatio.Store.Lifecycle.{
  ◌⟶*◌, here, next, bury_pending, bury_scheduled, bury_queued, bury, bury_failed, bury_cancelled,
  bury_again, sent_at_fits, message, is_consistent, Step, Follows, Follows-cas,
}
use event_driven_notificatio.Store.Lifecycle.Statements.{Step-to_cancelled}

-- A row with no sent_at that meets the CHECK constraint is not 'sent'.
path_dead :
    (s : Status) (t : Option ℕ)
    → (elim t [ none ↦ true | some _ ↦ false ]) ≡ true
    → sent_at_fits s t ≡ true
    → s ⟶* dead_letter
path_dead pending t h c = next bury_pending here
path_dead scheduled t h c = next bury_scheduled here
path_dead queued t h c = next bury_queued here
path_dead sending t h c = next bury here
path_dead sent none h c = cc
path_dead sent (some _) h c = cc
path_dead failed t h c = next bury_failed here
path_dead cancelled t h c = next bury_cancelled here
path_dead dead_letter t h c = next bury_again here

Step-to_dead_letter :
    (n : Notification) (err : Option Bytes) (now : ℕ)
    → is_unsent n ≡ true
    → Step n (to_dead_letter err now n)
Step-to_dead_letter n err now h = record {
  same = refl;
  moves = λ c. path_dead n.status n.sent_at h c;
  stays = λ c. ground arith;
}

pub Follows-mark_dead_letter :
    (i : ℕ) (err : Option Bytes) (now : ℕ) (db : Db) → Follows db (mark_dead_letter i err now db).1
unfolding mark_dead_letter
Follows-mark_dead_letter i err now db =
    Follows-cas i is_unsent (to_dead_letter err now) db (λ n. refl)
      (λ n h. Step-to_dead_letter n err now h)

scoped_cancellable :
    (owner : ℕ) (n : Notification) → is_cancellable_by owner n ≡ true → is_cancellable n ≡ true
scoped_cancellable owner n h = ground arith

pub Follows-cancel_pending_or_queued_scoped :
    (i owner now : ℕ) (db : Db) → Follows db (cancel_pending_or_queued_scoped i owner now db).1
unfolding cancel_pending_or_queued_scoped
Follows-cancel_pending_or_queued_scoped i owner now db =
    Follows-cas i (is_cancellable_by owner) (to_cancelled now) db (λ n. refl)
      (λ n h. Step-to_cancelled n now (scoped_cancellable owner n h))

-- A row of a dead notification that was replayed.
pub record Restarts (n n' : Notification) : Type 0 where
  pub dead : n.status ≡ dead_letter
  pub waits : n'.status ≡ pending
  pub same : message n' ≡ message n
  pub consistent : is_consistent n' ≡ true

-- The same row, or one that was replayed.
abbrev pub RestartsAt : Option Notification → Option Notification → Type 0
RestartsAt o o' =
    (o' ≡ o)
    ⊎ ((n : Notification) × (n' : Notification) × (o ≡ some n) × (o' ≡ some n') × Restarts n n')

unfoldable pub MayRestart : Db → Db → Type 0
MayRestart db db' = (j : ℕ) → RestartsAt (find j db) (find j db')

pub MayRestart-refl : (db : Db) → MayRestart db db
unfolding MayRestart
MayRestart-refl db j = inl refl

replayed_at :
    (o o' : Option Notification) (n : Notification) (now : ℕ)
    → o ≡ some n
    → n.status ≡ dead_letter
    → o' ≡ touched (λ _. true) (to_replayed now) o
    → RestartsAt o o'
replayed_at o o' n now e h e' = inr (
  n,
  to_replayed now n,
  e,
  e' ∙ ap (touched (λ _. true) (to_replayed now)) e,
  record { dead = h; waits = refl; same = refl; consistent = refl },
)

-- The reset of a replay, of a row that has been seen to be dead.
pub MayRestart-reset_for_replay :
    (i now : ℕ) (db : Db) (n : Notification)
    → find i db ≡ some n
    → n.status ≡ dead_letter
    → MayRestart db (reset_for_replay i now db)
unfolding MayRestart reset_for_replay find cas
MayRestart-reset_for_replay i now db n e h j = elim (Bool-cases (i == j)) [
  | inl same ↦
      let e' : i ≡ j = ground arith in
      rw (← e') (
        replayed_at (find_row id_of i db.notifications) _ n now e h (
          find_row-update_row_self id_of i (λ _. true) (to_replayed now) db.notifications
            (λ n. refl)))
  | inr other ↦ inl (
      find_row-update_row_ne id_of i j (λ _. true) (to_replayed now) db.notifications (λ n. refl)
        other)
]
