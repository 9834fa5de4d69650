-- ===== src/Outbox.antt =====
-- internal/outbox/dispatcher.go: one cycle of the dispatcher, which publishes the rows of the outbox
-- table. json.Unmarshal and uuid.Parse are the fields of `Parser`; what a call to the broker or the
-- database answers is in `RowCalls`. Logs, spans and the lag gauge are left out.
pub mod Moves
pub mod Claims
pub mod Failure
use event_driven_notificatio.Prelude.{
  ℕ, ◌+◌, ◌%◌, Bool, true, false, String, List, [], ◌∷◌, Option, none, some, ltb, leb, take,
  if◌then◌else◌,
}
use event_driven_notificatio.Store.{Bytes, Outbox, Db}
use event_driven_notificatio.Store.Notifications.{mark_queued, mark_dead_letter}
use event_driven_notificatio.Store.OutboxTable.{
  claim_outbox_batch, mark_outbox_published, mark_outbox_failed,
}
use event_driven_notificatio.Store.Records.{insert_dead_letter}

-- Lengths of time in seconds, the poll interval in milliseconds.
pub record Config : Type 0 where
  pub poll_interval : ℕ
  pub batch_size : ℕ
  pub claim_ttl : ℕ
  pub max_attempts : ℕ
  pub dispatcher_id : String

-- Default
unfoldable pub default : String → Config
default dispatcher_id = record {
  poll_interval = 250;
  batch_size = 50;
  claim_ttl = 60;
  max_attempts = 10;
  dispatcher_id = dispatcher_id;
}

-- A header's value is its JSON text.
abbrev pub Headers : Type 0
Headers = List (String × Bytes)

pub record Parser : Type 0 where
  pub headers : Bytes → Option Headers
  pub notification_id : Bytes → Option String
  pub parse_uuid : String → Option ℕ

pub record PublishMessage : Type 0 where
  pub routing_key : String
  pub payload : Bytes
  pub headers : Headers
  pub priority : ℕ

-- What Publish answers (the text of its error), and which statements fail.
pub record RowCalls : Type 0 where
  pub now : ℕ
  pub publish_error : Option Bytes
  pub published_fails : Bool
  pub queued_fails : Bool
  pub failed_fails : Bool
  pub dead_fails : Bool
  pub dead_row_fails : Bool

pub record World : Type 0 where
  pub db : Db
  pub messages : List PublishMessage

unfoldable pub truncate : Bytes → ℕ → Bytes
truncate s n = take n s

unfoldable pub extract_notification_id : Parser → Bytes → String
extract_notification_id parser payload = elim (parser.notification_id payload) [
  | none ↦ ""
  | some id ↦ id
]

-- The id of the notification, where the payload has one.
unfoldable pub target : Parser → Outbox → Option ℕ
unfolding extract_notification_id
target parser r = parser.parse_uuid (extract_notification_id parser r.payload)

abbrev decoded_headers : Parser → Bytes → Headers
decoded_headers parser [] = []
decoded_headers parser (b ∷ bs) = elim (parser.headers (b ∷ bs)) [ none ↦ [] | some hdrs ↦ hdrs ]

-- uint8(row.Priority), at most 9
unfoldable pub amqp_priority : ℕ → ℕ
amqp_priority p = if ltb 9 (p % 256) then 9 else p % 256

unfoldable pub message_of : Parser → Outbox → PublishMessage
unfolding amqp_priority
message_of parser r = record {
  routing_key = r.routing_key;
  payload = r.payload;
  headers = decoded_headers parser r.headers;
  priority = amqp_priority r.priority;
}

-- A statement whose call may fail.
abbrev pub unless : Bool → (Db → Db) → Db → Db
unless true statement db = db
unless false statement db = statement db

-- The terminal branch's statements on the notification.
unfoldable pub bury : RowCalls → Bytes → Outbox → Option ℕ → Db → Db
unfolding truncate
bury calls error r none db = db
bury calls error r (some id) db =
    unless calls.dead_row_fails
      (λ db'.
        (insert_dead_letter
          (record {
            notification_id = id;
            reason = truncate error 500;
            payload = r.payload;
            dlq_at = calls.now;
          })
          db').1)
      (unless calls.dead_fails (λ db'. (mark_dead_letter id (some error) calls.now db').1) db)

-- markFailure
unfoldable pub mark_failure : Parser → Config → RowCalls → Outbox → Bytes → Db → Db
unfolding bury truncate target
mark_failure parser cfg calls r error db =
    if leb cfg.max_attempts (r.attempt_count + 1)
    then unless calls.published_fails (mark_outbox_published r.id calls.now)
        (bury calls error r (target parser r) db)
    else unless calls.failed_fails (mark_outbox_failed r.id (some (truncate error 1024))) db

unfoldable pub queued_if : RowCalls → Option ℕ → Db → Db
queued_if calls none db = db
queued_if calls (some id) db =
    unless calls.queued_fails (λ db'. (mark_queued id calls.now db').1) db

-- What follows a publish that the broker confirmed.
unfoldable pub after_publish : Parser → RowCalls → Outbox → Db → Db
unfolding queued_if target
after_publish parser calls r db =
    if calls.published_fails
    then db
    else queued_if calls (target parser r) (mark_outbox_published r.id calls.now db)

-- publishRow
unfoldable pub publish_row : Parser → Config → RowCalls → Outbox → World → World
unfolding mark_failure after_publish message_of
publish_row parser cfg calls r w = elim calls.publish_error [
  | some error ↦ record w { db = mark_failure parser cfg calls r error w.db }
  | none ↦ record {
    db = after_publish parser calls r w.db;
    messages = message_of parser r ∷ w.messages;
  }
]

-- The rows of a batch in order, the calls for each in order too.
unfoldable pub publish_rows : Parser → Config → (ℕ → RowCalls) → ℕ → List Outbox → World → World
unfolding publish_row
publish_rows parser cfg calls k [] w = w
publish_rows parser cfg calls k (r ∷ rs) w =
    publish_rows parser cfg calls (k + 1) rs (publish_row parser cfg (calls k) r w)

-- tick
unfoldable pub tick : Parser → Config → Bool → ℕ → (ℕ → RowCalls) → World → World
unfolding publish_rows
tick parser cfg claim_fails now calls w =
    if claim_fails
    then w
    else (let (rows, db) =
          claim_outbox_batch cfg.claim_ttl cfg.batch_size cfg.dispatcher_id now w.db in
        publish_rows parser cfg calls 0 rows (record w { db = db }))
