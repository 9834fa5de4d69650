-- ===== src/Store/Lifecycle/Statements.antt =====
-- The statements of internal/store/gen on one row, and the life cycle.
use event_driven_notificatio.Prelude.{ℕ, ◌≡◌, refl, true, Option, arith}
use event_driven_notificatio.Domain.{Status, pending, scheduled, queued, sending, sent, cancelled}
use event_driven_notificatio.Store.{Bytes, Notification, Db}
use event_driven_notificatio.Store.Notifications.{
  pending_only, scheduled_only, pending_or_queued, sending_only, before_sending, is_pending,
  is_scheduled, is_claimable, is_sending, is_cancellable, to_queued, to_sending, to_sent,
  to_cancelled, to_pending, to_retry, to_retry_no_attempt, mark_queued, mark_sending_cas, mark_sent,
  cancel_pending_or_queued, mark_scheduled_pending, revert_to_queued, revert_to_queued_no_attempt,
}
use event_driven_notificatio.Store.Lifecycle.{
  ◌⟶*◌, here, next, due, publish, claim, pick_up, deliver, revert, withdraw, withdraw_queued,
  withdraw_scheduled, Step, Follows, Follows-cas,
}

path_pending_only_queued : (s : Status) → pending_only s ≡ true → s ⟶* queued
path_pending_only_queued pending _ = next publish here
path_pending_only_queued _ h = cc

Step-to_queued : (n : Notification) (now : ℕ) → is_pending n ≡ true → Step n (to_queued now n)
Step-to_queued n now h = record {
  same = refl;
  moves = λ _. path_pending_only_queued n.status h;
  stays = λ c. ground arith;
}

pub Follows-mark_queued : (i : ℕ) (now : ℕ) (db : Db) → Follows db (mark_queued i now db).1
unfolding mark_queued
Follows-mark_queued i now db =
    Follows-cas i is_pending (to_queued now) db (λ n. refl) (λ n h. Step-to_queued n now h)

path_pending_or_queued_sending : (s : Status) → pending_or_queued s ≡ true → s ⟶* sending
path_pending_or_queued_sending pending _ = next claim here
path_pending_or_queued_sending queued _ = next pick_up here
path_pending_or_queued_sending _ h = cc

Step-to_sending : (n : Notification) (now : ℕ) → is_claimable n ≡ true → Step n (to_sending now n)
Step-to_sending n now h = record {
  same = refl;
  moves = λ _. path_pending_or_queued_sending n.status h;
  stays = λ c. ground arith;
}

pub Follows-mark_sending_cas :
    (i : ℕ) (now : ℕ) (db : Db) → Follows db (mark_sending_cas i now db).1
unfolding mark_sending_cas
Follows-mark_sending_cas i now db =
    Follows-cas i is_claimable (to_sending now) db (λ n. refl) (λ n h. Step-to_sending n now h)

path_sending_only_sent : (s : Status) → sending_only s ≡ true → s ⟶* sent
path_sending_only_sent sending _ = next deliver here
path_sending_only_sent _ h = cc

Step-to_sent : (n : Notification) (now : ℕ) → is_sending n ≡ true → Step n (to_sent now n)
Step-to_sent n now h = record {
  same = refl;
  moves = λ _. path_sending_only_sent n.status h;
  stays = λ c. ground arith;
}

pub Follows-mark_sent : (i : ℕ) (now : ℕ) (db : Db) → Follows db (mark_sent i now db).1
unfolding mark_sent
Follows-mark_sent i now db =
    Follows-cas i is_sending (to_sent now) db (λ n. refl) (λ n h. Step-to_sent n now h)

path_before_sending_cancelled : (s : Status) → before_sending s ≡ true → s ⟶* cancelled
path_before_sending_cancelled pending _ = next withdraw here
path_before_sending_cancelled queued _ = next withdraw_queued here
path_before_sending_cancelled scheduled _ = next withdraw_scheduled here
path_before_sending_cancelled _ h = cc

pub Step-to_cancelled :
    (n : Notification) (now : ℕ) → is_cancellable n ≡ true → Step n (to_cancelled now n)
Step-to_cancelled n now h = record {
  same = refl;
  moves = λ _. path_before_sending_cancelled n.status h;
  stays = λ c. ground arith;
}

pub Follows-cancel_pending_or_queued :
    (i : ℕ) (now : ℕ) (db : Db) → Follows db (cancel_pending_or_queued i now db).1
unfolding cancel_pending_or_queued
Follows-cancel_pending_or_queued i now db =
    Follows-cas i is_cancellable (to_cancelled now) db (λ n. refl)
      (λ n h. Step-to_cancelled n now h)

path_scheduled_only_pending : (s : Status) → scheduled_only s ≡ true → s ⟶* pending
path_scheduled_only_pending scheduled _ = next due here
path_scheduled_only_pending _ h = cc

Step-to_pending : (n : Notification) (now : ℕ) → is_scheduled n ≡ true → Step n (to_pending now n)
Step-to_pending n now h = record {
  same = refl;
  moves = λ _. path_scheduled_only_pending n.status h;
  stays = λ c. ground arith;
}

pub Follows-mark_scheduled_pending :
    (i : ℕ) (now : ℕ) (db : Db) → Follows db (mark_scheduled_pending i now db).1
unfolding mark_scheduled_pending
Follows-mark_scheduled_pending i now db =
    Follows-cas i is_scheduled (to_pending now) db (λ n. refl) (λ n h. Step-to_pending n now h)

pub path_sending_only_queued : (s : Status) → sending_only s ≡ true → s ⟶* queued
path_sending_only_queued sending _ = next revert here
path_sending_only_queued _ h = cc

Step-to_retry :
    (n : Notification) (err : Option Bytes) (now : ℕ)
    → is_sending n ≡ true
    → Step n (to_retry err now n)
Step-to_retry n err now h = record {
  same = refl;
  moves = λ _. path_sending_only_queued n.status h;
  stays = λ c. ground arith;
}

pub Follows-revert_to_queued :
    (i : ℕ) (err : Option Bytes) (now : ℕ) (db : Db) → Follows db (revert_to_queued i err now db)
unfolding revert_to_queued
Follows-revert_to_queued i err now db =
    Follows-cas i is_sending (to_retry err now) db (λ n. refl) (λ n h. Step-to_retry n err now h)

Step-to_retry_no_attempt :
    (n : Notification) (err : Option Bytes) (now : ℕ)
    → is_sending n ≡ true
    → Step n (to_retry_no_attempt err now n)
Step-to_retry_no_attempt n err now h = record {
  same = refl;
  moves = λ _. path_sending_only_queued n.status h;
  stays = λ c. ground arith;
}

pub Follows-revert_to_queued_no_attempt :
    (i : ℕ) (err : Option Bytes) (now : ℕ) (db : Db)
    → Follows db (revert_to_queued_no_attempt i err now db)
unfolding revert_to_queued_no_attempt
Follows-revert_to_queued_no_attempt i err now db =
    Follows-cas i is_sending (to_retry_no_attempt err now) db (λ n. refl)
      (λ n h. Step-to_retry_no_attempt n err now h)
