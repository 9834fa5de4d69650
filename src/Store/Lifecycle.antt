-- ===== src/Store/Lifecycle.antt =====
-- The life of a notification between two replays: which statuses the statements of
-- internal/store/gen/notifications.sql.go lead to, and what they leave alone.
pub mod Statements
pub mod Endings
pub mod Bulk
use event_driven_notificatio.Prelude.{
  ℕ, ◌≡◌, refl, ◌∙◌, Bool, true, false, ◌&&◌, String, List, [], ◌∷◌, Option, none, some, arith,
  if◌then◌else◌, ◌==◌, Bool-cases, Option-cases, inl, inr,
}
use event_driven_notificatio.Prelude.Table.{
  find_row, update_row, update_where, touched, find_row-update_row_self, find_row-update_row_ne,
  find_row-update_where,
}
use event_driven_notificatio.Domain.{
  Status, pending, scheduled, queued, sending, sent, failed, cancelled, dead_letter,
}
use event_driven_notificatio.Store.{Notification, Db}
use event_driven_notificatio.Store.Notifications.{id_of, find, cas}

infix 40 ◌⟶◌ ◌⟶*◌
pub data ◌⟶◌ : Status → Status → Type 0 where
  due : scheduled ⟶ pending
  publish : pending ⟶ queued
  claim : pending ⟶ sending
  pick_up : queued ⟶ sending
  deliver : sending ⟶ sent
  revert : sending ⟶ queued
  withdraw : pending ⟶ cancelled
  withdraw_queued : queued ⟶ cancelled
  withdraw_scheduled : scheduled ⟶ cancelled
  bury_pending : pending ⟶ dead_letter
  bury_scheduled : scheduled ⟶ dead_letter
  bury_queued : queued ⟶ dead_letter
  bury : sending ⟶ dead_letter
  bury_failed : failed ⟶ dead_letter
  bury_cancelled : cancelled ⟶ dead_letter
  bury_again : dead_letter ⟶ dead_letter

pub data ◌⟶*◌ : Status → Status → Type 0 where
  here : {s : Status} → s ⟶* s
  next : {s t u : Status} → s ⟶ t → t ⟶* u → s ⟶* u

pub ⟶*_trans : {s t u : Status} → s ⟶* t → t ⟶* u → s ⟶* u
⟶*_trans here q = q
⟶*_trans (next e p) q = next e (⟶*_trans p q)

-- CHECK ((status = 'sent') = (sent_at IS NOT NULL))
abbrev pub sent_at_fits : Status → Option ℕ → Bool
sent_at_fits sent (some _) = true
sent_at_fits sent none = false
sent_at_fits _ none = true
sent_at_fits _ (some _) = false

abbrev pub is_consistent : Notification → Bool
is_consistent n = sent_at_fits n.status n.sent_at

-- What was accepted from the client: no statement may alter it.
pub record Message : Type 0 where
  pub id : ℕ
  pub batch_id : Option ℕ
  pub channel : String
  pub recipient : String
  pub content : String
  pub priority : ℕ
  pub idempotency_key : Option String
  pub scheduled_at : Option ℕ
  pub created_at : ℕ
  pub correlation_id : String
  pub template_id : Option ℕ
  pub template_version : Option ℕ
  pub created_by : Option ℕ

abbrev pub message : Notification → Message
message n = record {
  id = n.id;
  batch_id = n.batch_id;
  channel = n.channel;
  recipient = n.recipient;
  content = n.content;
  priority = n.priority;
  idempotency_key = n.idempotency_key;
  scheduled_at = n.scheduled_at;
  created_at = n.created_at;
  correlation_id = n.correlation_id;
  template_id = n.template_id;
  template_version = n.template_version;
  created_by = n.created_by;
}

-- From one state of a row to a later one.
pub record Step (n n' : Notification) : Type 0 where
  pub same : message n' ≡ message n
  pub moves : is_consistent n ≡ true → n.status ⟶* n'.status
  pub stays : is_consistent n ≡ true → is_consistent n' ≡ true

pub Step-refl : (n : Notification) → Step n n
Step-refl n = record { same = refl; moves = λ _. here; stays = λ h. h }

pub Step-trans : (a b c : Notification) → Step a b → Step b c → Step a c
Step-trans a b c p q = record {
  same = q.same ∙ p.same;
  moves = λ h. ⟶*_trans (p.moves h) (q.moves (p.stays h));
  stays = λ h. q.stays (p.stays h);
}

-- A row may appear, never disappear.
abbrev pub Evolves : Option Notification → Option Notification → Type 0
Evolves none none = Unit
Evolves none (some n) = is_consistent n ≡ true
Evolves (some n) none = ⊥
Evolves (some n) (some n') = Step n n'

pub Evolves-refl : (o : Option Notification) → Evolves o o
Evolves-refl none = tt
Evolves-refl (some n) = Step-refl n

pub Evolves-trans : (a b c : Option Notification) → Evolves a b → Evolves b c → Evolves a c
Evolves-trans none none c p q = q
Evolves-trans none (some b) none p q = tt
Evolves-trans none (some b) (some c) p q = q.stays p
Evolves-trans (some a) none c p q = elim p [ ]
Evolves-trans (some a) (some b) none p q = q
Evolves-trans (some a) (some b) (some c) p q = Step-trans a b c p q

unfoldable pub Follows : Db → Db → Type 0
Follows db db' = (j : ℕ) → Evolves (find j db) (find j db')

pub Follows-refl : (db : Db) → Follows db db
unfolding Follows
Follows-refl db j = Evolves-refl (find j db)

pub Follows-trans : (a b c : Db) → Follows a b → Follows b c → Follows a c
unfolding Follows
Follows-trans a b c p q j = Evolves-trans (find j a) (find j b) (find j c) (p j) (q j)

pub Evolves-touched :
    (p : Notification → Bool) (f : Notification → Notification)
    → ((n : Notification) → p n ≡ true → Step n (f n))
    → (o : Option Notification) → Evolves o (touched p f o)
Evolves-touched p f ok none = tt
Evolves-touched p f ok (some n) = elim (Bool-cases (p n)) [
  | inl yes_p ↦ rw yes_p (ok n yes_p)
  | inr no_p ↦ rw no_p (Step-refl n)
]

-- One guarded update of one row.
pub Follows-cas :
    (i : ℕ) (p : Notification → Bool) (f : Notification → Notification) (db : Db)
    → ((n : Notification) → (f n).id ≡ n.id)
    → ((n : Notification) → p n ≡ true → Step n (f n))
    → Follows db (cas i p f db)
unfolding Follows cas find
Follows-cas i p f db keeps ok j = elim (Bool-cases (i == j)) [
  | inl same ↦
      let e : i ≡ j = ground arith in
      rw (← e) (
        rw (find_row-update_row_self id_of i p f db.notifications keeps)
          (Evolves-touched p f ok (find_row id_of i db.notifications)))
  | inr other ↦
      rw (find_row-update_row_ne id_of i j p f db.notifications keeps other)
        (Evolves-refl (find_row id_of j db.notifications))
]
