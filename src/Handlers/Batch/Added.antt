-- ===== src/Handlers/Batch/Added.antt =====
-- What the items of a batch add to the database.
use event_driven_notificatio.Prelude.{
  ℕ, ◌+◌, Bool-cases, str_eq, if◌then◌else◌, ◌≡◌, refl, ap, ◌∙◌, sym, inl, inr, String, List, [],
  ◌∷◌, ◌++◌, Option, none, some, length, length-append, arith, Option-cases,
}
use event_driven_notificatio.Domain.{pending, priority_int16}
use event_driven_notificatio.Topology.{routing_key}
use event_driven_notificatio.Store.{Notification, Outbox, Db}
use event_driven_notificatio.Store.Notifications.{find, insert_notification}
use event_driven_notificatio.Store.OutboxTable.{insert_outbox}
use event_driven_notificatio.Store.Lifecycle.{Follows, Follows-refl, Follows-trans}
use event_driven_notificatio.Store.Lifecycle.Bulk.{
  Follows-insert_notification, Follows-insert_outbox,
}
use event_driven_notificatio.Api.Persist.{fresh_insert, taken_insert}
use event_driven_notificatio.Producers.{Encoder, envelope_of}
use event_driven_notificatio.Api.{CreateRequest}
use event_driven_notificatio.Http.{Failure, Outcome, done, failed, ◌>>=◌, call, in_call}
use event_driven_notificatio.Handlers.Batch.{
  max_batch_items, ItemCalls, BatchCalls, ItemResult, BatchResponse, taken, with_priority,
  batch_notification, batch_outbox, insert_batch_item, item_errors, valid_count, insert_items,
  batch_row, batch_transaction, batch_response, batch_answer, create_batch, rejected_item,
  accepted_item, rejections,
}

-- A notification of a batch and the row of the outbox that will deliver it.
pub record Queued (encoder : Encoder) (owner : Option ℕ) (batch_id : ℕ) (n : Notification)
    (o : Outbox) : Type 0 where
  pub waits : n.status ≡ pending
  pub of_batch : n.batch_id ≡ some batch_id
  pub of_owner : n.created_by ≡ owner
  pub of_notification : o.notification_id ≡ n.id
  pub routed : o.routing_key ≡ routing_key n.channel
  pub carried : (p : String) × (o.payload ≡ encoder.envelope (envelope_of encoder (λ _. p) n))

abbrev pub Paired : Encoder → Option ℕ → ℕ → List Notification → List Outbox → Type 0
Paired encoder owner batch_id [] [] = Unit
Paired encoder owner batch_id (n ∷ ns) (o ∷ os) =
    Queued encoder owner batch_id n o × Paired encoder owner batch_id ns os
Paired encoder owner batch_id [] (o ∷ os) = ⊥
Paired encoder owner batch_id (n ∷ ns) [] = ⊥

-- The text of an item's priority.
abbrev pub priority_of : CreateRequest → String
priority_of it = if str_eq it.priority "" then "normal" else it.priority

-- The notification and the row of the outbox that carry what an item asks for.
pub record Carries (encoder : Encoder) (owner : Option ℕ) (batch_id now : ℕ) (calls : ItemCalls)
    (corr_id : String) (it : CreateRequest) (n : Notification) (o : Outbox) : Type 0 where
  pub id : n.id ≡ calls.id
  pub of_batch : n.batch_id ≡ some batch_id
  pub of_owner : n.created_by ≡ owner
  pub channel : n.channel ≡ it.channel
  pub recipient : n.recipient ≡ it.recipient
  pub content : n.content ≡ it.content
  pub priority : n.priority ≡ priority_int16 it.priority
  pub waits : n.status ≡ pending
  pub at_once : n.scheduled_at ≡ none
  pub unsent : n.sent_at ≡ none
  pub untried : n.attempt_count ≡ 0
  pub correlation_id : n.correlation_id ≡ corr_id
  pub created_at : n.created_at ≡ now
  pub of_notification : o.notification_id ≡ calls.id
  pub routed : o.routing_key ≡ routing_key it.channel
  pub unpublished : o.published_at ≡ none
  pub payload :
      o.payload
      ≡ encoder.envelope (record {
        notification_id = encoder.uuid_text calls.id;
        channel = it.channel;
        recipient = it.recipient;
        content = it.content;
        priority = it.priority;
        correlation_id = corr_id;
      })

pub with_priority_lem :
    (it : CreateRequest) → with_priority it ≡ record it { priority = priority_of it }
unfolding with_priority
with_priority_lem it = elim (Bool-cases (str_eq it.priority "")) [
  | inl yes_p ↦ rw yes_p refl
  | inr no_p ↦ rw no_p refl
]

-- Rows put before a table one after the other.
abbrev pub pushed {ℓ} : {A : Type ℓ} → List A → List A → List A
pushed [] rows = rows
pushed (r ∷ rs) rows = pushed rs (r ∷ rows)

pub pushed-append {ℓ} :
    {A : Type ℓ} → (xs ys rows : List A) → pushed (xs ++ ys) rows ≡ pushed ys (pushed xs rows)
pushed-append [] ys rows = refl
pushed-append (x ∷ xs) ys rows = pushed-append xs ys (x ∷ rows)

-- What some items of a batch add: as many notifications, each with its row of the outbox.
pub record Added (encoder : Encoder) (owner : Option ℕ) (batch_id count : ℕ) (db db' : Db)
    : Type 0 where
  pub new : List Notification
  pub new_outbox : List Outbox
  pub paired : Paired encoder owner batch_id new new_outbox
  pub counted : length new ≡ count
  pub stored : db'.notifications ≡ pushed new db.notifications
  pub queued : db'.outbox ≡ pushed new_outbox db.outbox
  pub scheduled : db'.scheduled ≡ db.scheduled
  pub batches : db'.batches ≡ db.batches
  pub follows : Follows db db'

-- What holds of the result of a chain that gets to its end.
abbrev pub Ends {ℓ κ} : {A : Type ℓ} → (A → Type κ) → Outcome A → Type κ
Ends P (done a) = P a
Ends P (failed e) = Unit

module _ {A B : Type 0} where
  pub call_then :
      (Q : B → Type 0) (e : Option Failure) (a : A) (k : A → Outcome B)
      → Ends Q (k a)
      → Ends Q (call e a >>= k)
  call_then Q none a k h = h
  call_then Q (some e) a k h = tt

  pub and_then :
      (P : A → Type 0) (Q : B → Type 0) (o : Outcome A) (k : A → Outcome B)
      → Ends P o
      → ((a : A) → P a → Ends Q (k a))
      → Ends Q (o >>= k)
  and_then P Q (done a) k h next = next a h
  and_then P Q (failed e) k h next = tt

pub in_call-Ends :
    {A : Type 0}
    → (P : A → Type 0) (prefix : String) (o : Outcome A) → Ends P o
    → Ends P (in_call prefix o)
unfolding in_call
in_call-Ends P prefix (done a) h = h
in_call-Ends P prefix (failed e) h = tt

pub call-Ends :
    {A : Type 0} → (P : A → Type 0) (e : Option Failure) (a : A) → P a → Ends P (call e a)
call-Ends P none a h = h
call-Ends P (some e) a h = tt

module _ (encoder : Encoder) (owner : Option ℕ) (batch_id : ℕ) where
  pub Paired-append :
      (ns : List Notification) (os : List Outbox) (ms : List Notification) (ps : List Outbox)
      → Paired encoder owner batch_id ns os
      → Paired encoder owner batch_id ms ps
      → Paired encoder owner batch_id (ns ++ ms) (os ++ ps)
  Paired-append [] [] ms ps h h' = h'
  Paired-append (n ∷ ns) (o ∷ os) ms ps h h' = (h.0, Paired-append ns os ms ps h.1 h')
  Paired-append [] (o ∷ os) ms ps h h' = elim h [ ]
  Paired-append (n ∷ ns) [] ms ps h h' = elim h [ ]

  unfoldable pub Added-refl : (db : Db) → Added encoder owner batch_id 0 db db
  Added-refl db = record {
    new = [];
    new_outbox = [];
    paired = tt;
    counted = refl;
    stored = refl;
    queued = refl;
    scheduled = refl;
    batches = refl;
    follows = Follows-refl db;
  }

  unfoldable pub Added-trans :
      (j k c : ℕ) (db db1 db2 : Db)
      → j + k ≡ c
      → Added encoder owner batch_id j db db1
      → Added encoder owner batch_id k db1 db2
      → Added encoder owner batch_id c db db2
  Added-trans j k c db db1 db2 sum a b = record {
    new = a.new ++ b.new;
    new_outbox = a.new_outbox ++ b.new_outbox;
    paired = Paired-append a.new a.new_outbox b.new b.new_outbox a.paired b.paired;
    counted =
        length-append a.new b.new ∙ (let e = a.counted in let e' = b.counted in omega (arith, sum));
    stored =
        b.stored ∙ (ap (pushed b.new) a.stored ∙ sym (pushed-append a.new b.new db.notifications));
    queued =
        b.queued
        ∙ (ap (pushed b.new_outbox) a.queued
            ∙ sym (pushed-append a.new_outbox b.new_outbox db.outbox));
    scheduled = b.scheduled ∙ a.scheduled;
    batches = b.batches ∙ a.batches;
    follows = Follows-trans db db1 db2 a.follows b.follows;
  }

  unfoldable pub Inserted : ℕ → ItemCalls → CreateRequest → String → Db → Notification × Db → Type 0
  Inserted now calls it corr_id db r =
      (a : Added encoder owner batch_id 1 db r.1) × ((o : Outbox) × (a.new ≡ r.0 ∷ [])
        × (a.new_outbox ≡ o ∷ [])
        × Carries encoder owner batch_id now calls corr_id it r.0 o)

  module _ (now : ℕ) (calls : ItemCalls) (it : CreateRequest) (corr_id : String) (db : Db) where
    abbrev n : Notification
    unfolding batch_notification
    n = batch_notification owner batch_id now calls it corr_id

    abbrev o : Outbox
    unfolding batch_outbox
    o = batch_outbox encoder now calls it corr_id

    item-Queued : Queued encoder owner batch_id n o
    unfolding batch_notification batch_outbox event_driven_notificatio.Handlers.Batch.batch_envelope
        envelope_of
    item-Queued = record {
      waits = refl;
      of_batch = refl;
      of_owner = refl;
      of_notification = refl;
      routed = refl;
      carried = (it.priority, refl);
    }

    item-Carries : Carries encoder owner batch_id now calls corr_id it n o
    unfolding batch_notification batch_outbox event_driven_notificatio.Handlers.Batch.batch_envelope
    item-Carries = record {
      id = refl;
      of_batch = refl;
      of_owner = refl;
      channel = refl;
      recipient = refl;
      content = refl;
      priority = refl;
      waits = refl;
      at_once = refl;
      unsent = refl;
      untried = refl;
      correlation_id = refl;
      created_at = refl;
      of_notification = refl;
      routed = refl;
      unpublished = refl;
      payload = refl;
    }

    item_added :
        find n.id db ≡ none
        → Added encoder owner batch_id 1 db
            (insert_outbox o (record db { notifications = n ∷ db.notifications }))
    unfolding insert_outbox insert_notification batch_notification
    item_added unused =
        let db1 : Db = record db { notifications = n ∷ db.notifications } in
        record {
          new = n ∷ [];
          new_outbox = o ∷ [];
          paired = (item-Queued, tt);
          counted = refl;
          stored = refl;
          queued = refl;
          scheduled = refl;
          batches = refl;
          follows =
              Follows-trans db db1 (insert_outbox o db1)
                (rw (← ap (λ r. r.1) (fresh_insert n db unused))
                  (Follows-insert_notification n db refl))
                (Follows-insert_outbox o db1);
        }

    abbrev P : Notification × Db → Type 0
    P = Inserted now calls it corr_id db

    pub item-Ends : Ends P (insert_batch_item encoder owner batch_id now calls it corr_id db)
    unfolding insert_batch_item Inserted item_added
    item-Ends = elim (Option-cases (find n.id db)) [
      | inl unused ↦ call_then P calls.insert_fails (insert_notification n db) _ (
          rw (fresh_insert n db unused)
            (call_then P calls.outbox_fails _ _ (item_added unused, (o, refl, refl, item-Carries))))
      | inr (m, there) ↦
          call_then P calls.insert_fails (insert_notification n db) _
            (rw (taken_insert n db m there) tt)
    ]
