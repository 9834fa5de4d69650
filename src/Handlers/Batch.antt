-- ===== src/Handlers/Batch.antt =====
-- createBatch and insertBatchItem of internal/api/notifications_batch.go: many notifications in one
-- transaction.
pub mod Added
pub mod Items
pub mod Whole
pub mod Detail
use event_driven_notificatio.Prelude.{
  ℕ, suc, ◌+◌, ◌-◌, Bool, true, false, String, str_eq, List, [], ◌∷◌, Option, none, some, ltb,
  if◌then◌else◌, ◌==◌, length,
}
use Prim.Native.String.{◌++◌ as append}
use event_driven_notificatio.Domain.{Status, pending, priority_int16}
use event_driven_notificatio.Topology.{routing_key}
use event_driven_notificatio.Store.{Notification, Outbox, Batch, Db, Reply, row, no_rows, failure}
use event_driven_notificatio.Store.Notifications.{insert_notification}
use event_driven_notificatio.Store.OutboxTable.{fresh, insert_outbox}
use event_driven_notificatio.Store.Batches.{insert_batch}
use event_driven_notificatio.Worker.Calls.{Envelope}
use event_driven_notificatio.Producers.{Encoder}
use event_driven_notificatio.Api.{CreateRequest, FieldError, Text, validate_create}
use event_driven_notificatio.Api.Persist.{nullable_string}
use event_driven_notificatio.Http.{
  Failure, unmapped, Problem, problem, write_validation_problem, write_error_as_problem, Response,
  written, refused, Outcome, done, failed, ◌>>=◌, call, in_call, Decoded, decoded, malformed,
}
use event_driven_notificatio.Auth.{Context, owner_from_ctx}

abbrev pub max_batch_items : ℕ
max_batch_items = 1000

-- What the handling of one item is given from outside.
pub record ItemCalls : Type 0 where
  pub id : ℕ
  pub outbox_id : ℕ
  pub clock : ℕ
  pub insert_fails : Option Failure
  pub outbox_fails : Option Failure

-- With `decimal` for fmt's %d.
pub record BatchCalls : Type 0 where
  pub decimal : ℕ → String
  pub batch_id : ℕ
  pub now : ℕ
  pub begin_fails : Option Failure
  pub batch_fails : Option Failure
  pub commit_fails : Option Failure
  pub item : ℕ → ItemCalls

-- batchItemResult
pub record ItemResult : Type 0 where
  pub index : ℕ
  pub id : Option ℕ
  pub status : Option Status
  pub error : Option Problem

-- batchCreateResponse
pub record BatchResponse : Type 0 where
  pub batch_id : ℕ
  pub status : String
  pub total_count : ℕ
  pub accepted_count : ℕ
  pub rejected_count : ℕ
  pub items : List ItemResult

-- The row of an inserted notification, or the error of the insert.
abbrev pub taken {ℓ} : {A : Type ℓ} → Reply A × Db → Outcome (A × Db)
taken (row a, db) = done (a, db)
taken (no_rows, db) = failed (record { sentinel = unmapped; text = "no rows in result set" })
taken (failure, db) = failed (record { sentinel = unmapped; text = "constraint" })

-- The default of a priority that is left out.
unfoldable pub with_priority : CreateRequest → CreateRequest
with_priority req = if str_eq req.priority "" then record req { priority = "normal" } else req

unfoldable pub batch_notification :
    Option ℕ → ℕ → ℕ → ItemCalls → CreateRequest → String → Notification
batch_notification owner batch_id now calls it corr_id = record {
  id = calls.id;
  batch_id = some batch_id;
  channel = it.channel;
  recipient = it.recipient;
  content = it.content;
  priority = priority_int16 it.priority;
  status = pending;
  idempotency_key = none;
  attempt_count = 0;
  last_error = none;
  scheduled_at = none;
  created_at = now;
  updated_at = now;
  sent_at = none;
  correlation_id = corr_id;
  template_id = none;
  template_version = none;
  created_by = owner;
}

unfoldable pub batch_envelope : Encoder → ItemCalls → CreateRequest → String → Envelope
batch_envelope encoder calls it corr_id = record {
  notification_id = encoder.uuid_text calls.id;
  channel = it.channel;
  recipient = it.recipient;
  content = it.content;
  priority = it.priority;
  correlation_id = corr_id;
}

unfoldable pub batch_outbox : Encoder → ℕ → ItemCalls → CreateRequest → String → Outbox
unfolding batch_envelope
batch_outbox encoder now calls it corr_id =
    fresh calls.outbox_id calls.id (routing_key it.channel)
      (encoder.envelope (batch_envelope encoder calls it corr_id))
      (encoder.headers (("x-correlation-id", corr_id) ∷ [])) (priority_int16 it.priority) now

-- insertBatchItem
unfoldable pub insert_batch_item :
    Encoder
    → Option ℕ
    → ℕ
    → ℕ
    → ItemCalls
    → CreateRequest
    → String
    → Db
    → Outcome (Notification × Db)
unfolding batch_notification batch_outbox
insert_batch_item encoder owner batch_id now calls it corr_id db = do
  answer ←
      call calls.insert_fails
        (insert_notification (batch_notification owner batch_id now calls it corr_id) db)
  (n, db1) ← taken answer
  db2 ← call calls.outbox_fails (insert_outbox (batch_outbox encoder now calls it corr_id) db1)
  done (n, db2)

-- The result of an item that its checks refuse.
unfoldable pub rejected_item : ℕ → List FieldError → ItemResult
rejected_item index errors = record {
  index = index;
  id = none;
  status = none;
  error =
      some
        (record (problem "/problems/validation" "Validation Failed" 400 "field validation failed") {
          errors = errors;
        });
}

unfoldable pub accepted_item : ℕ → Notification → ItemResult
accepted_item index n = record {
  index = index;
  id = some n.id;
  status = some n.status;
  error = none;
}

module _ (text : Text) (calls : BatchCalls) where
  -- The errors of the item at an index.
  unfoldable pub item_errors : ℕ → CreateRequest → List FieldError
  unfolding with_priority
  item_errors i it = validate_create text (calls.item i).clock (with_priority it)

  -- len(valid), from an index on
  unfoldable pub valid_count : ℕ → List CreateRequest → ℕ
  unfolding item_errors
  valid_count i [] = 0
  valid_count i (it ∷ its) = elim (item_errors i it) [
    | [] ↦ suc (valid_count (suc i) its)
    | _ ∷ _ ↦ valid_count (suc i) its
  ]

  -- The results where nothing is written.
  unfoldable pub rejections : ℕ → List CreateRequest → List ItemResult
  unfolding item_errors rejected_item
  rejections i [] = []
  rejections i (it ∷ its) = rejected_item i (item_errors i it) ∷ rejections (suc i) its

  -- The loop over the valid items, with the results of the others in their places.
  unfoldable pub insert_items :
      Encoder → Option ℕ → String → ℕ → List CreateRequest → Db → Outcome (List ItemResult × Db)
  unfolding item_errors insert_batch_item rejected_item accepted_item
  insert_items encoder owner corr_id i [] db = done ([], db)
  insert_items encoder owner corr_id i (it ∷ its) db = elim (item_errors i it) [
    | [] ↦ do
      (n, db1) ← in_call (append "insert batch item " (calls.decimal i)) (
          insert_batch_item encoder owner calls.batch_id calls.now (calls.item i) (with_priority it)
            corr_id db)
      (rs, db2) ← insert_items encoder owner corr_id (suc i) its db1
      done (accepted_item i n ∷ rs, db2)
    | e ∷ es ↦ do
      (rs, db2) ← insert_items encoder owner corr_id (suc i) its db
      done (rejected_item i (e ∷ es) ∷ rs, db2)
  ]

  unfoldable pub batch_row : String → List CreateRequest → Batch
  unfolding valid_count
  batch_row idem_key items =
      let valid = valid_count 0 items in
      record {
        id = calls.batch_id;
        total_count = length items;
        accepted_count = valid;
        rejected_count = length items - valid;
        idempotency_key = nullable_string idem_key;
        status = if ltb valid (length items) then "partial" else "accepted";
        created_at = calls.now;
        created_by = none;
      }

  -- The transaction.
  unfoldable pub batch_transaction :
      Encoder
      → Option ℕ
      → String
      → String
      → List CreateRequest
      → Db
      → Outcome (List ItemResult × Db)
  unfolding batch_row insert_items
  batch_transaction encoder owner corr_id idem_key items db = do
    _ ← in_call "begin tx" (call calls.begin_fails db)
    answer ←
        in_call "insert batch" (call calls.batch_fails (insert_batch (batch_row idem_key items) db))
    (b, db1) ← in_call "insert batch" (taken answer)
    (results, db2) ← insert_items encoder owner corr_id 0 items db1
    in_call "commit" (call calls.commit_fails (results, db2))

  unfoldable pub batch_response : String → List CreateRequest → List ItemResult → BatchResponse
  unfolding batch_row
  batch_response status items results = record {
    batch_id = calls.batch_id;
    status = status;
    total_count = length items;
    accepted_count = valid_count 0 items;
    rejected_count = length items - valid_count 0 items;
    items = results;
  }

  abbrev pub batch_answer :
      Context
      → List CreateRequest
      → Db
      → Outcome (List ItemResult × Db)
      → Response BatchResponse × Db
  unfolding batch_response
  batch_answer ctx items db (failed e) = (refused (write_error_as_problem ctx.correlation_id e), db)
  batch_answer ctx items db (done (results, db')) =
      let partial = ltb (valid_count 0 items) (length items) in
      (
        written (if partial then 207 else 201)
            (batch_response (if partial then "partial" else "accepted") items results),
        db',
      )

  abbrev pub create_batch_decoded :
      Encoder → Context → String → Decoded (List CreateRequest) → Db → Response BatchResponse × Db
  unfolding batch_transaction batch_response rejections
  create_batch_decoded encoder ctx idem_key (malformed message) db = (
    refused (
        write_validation_problem ctx.correlation_id
          (record { field = "body"; message = message } ∷ [])),
    db,
  )
  create_batch_decoded encoder ctx idem_key (decoded items) db =
      if length items == 0
      then (
        refused (
            write_validation_problem ctx.correlation_id
              (record { field = "items"; message = "must not be empty" } ∷ [])),
        db,
      )
      else if ltb max_batch_items (length items)
      then (
        refused (
            write_validation_problem ctx.correlation_id
              (record { field = "items"; message = "max 1000 items per batch" } ∷ [])),
        db,
      )
      else if valid_count 0 items == 0
      then (written 400 (batch_response "rejected" items (rejections 0 items)), db)
      else batch_answer ctx items db
          (batch_transaction encoder (owner_from_ctx ctx) ctx.correlation_id idem_key items db)

  -- createBatch
  unfoldable pub create_batch :
      Encoder → Context → String → Decoded (List CreateRequest) → Db → Response BatchResponse × Db
  unfolding batch_transaction batch_response rejections
  create_batch encoder ctx idem_key body db = create_batch_decoded encoder ctx idem_key body db
