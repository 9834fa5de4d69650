-- ===== src/Store.antt =====
-- internal/store: the tables (internal/store/gen/models.go, with the constraints of
-- internal/store/migrations) and, in the children, the queries of internal/store/gen.
-- A uuid is a number, a byte string a list of numbers below 256, a time a number of nanoseconds.
-- A query gets `now`, the transaction's clock. Postgres itself is outside the repository: that a
-- call fails (connection, timeout) is an argument of the code that makes it, and a failed
-- statement changes nothing.
pub mod Notifications
pub mod OutboxTable
pub mod ScheduledTable
pub mod Records
pub mod Lookup
pub mod Batches
pub mod Templates
pub mod Lifecycle
use event_driven_notificatio.Prelude.{ℕ, ◌*◌, Bool, String, List, Option}
use event_driven_notificatio.Domain.{Status}

abbrev pub Bytes : Type 0
Bytes = List ℕ

abbrev pub second : ℕ
second = 1000000000

pub record Notification : Type 0 where
  pub id : ℕ
  pub batch_id : Option ℕ
  pub channel : String
  pub recipient : String
  pub content : String
  pub priority : ℕ
  pub status : Status
  pub idempotency_key : Option String
  pub attempt_count : ℕ
  pub last_error : Option Bytes
  pub scheduled_at : Option ℕ
  pub created_at : ℕ
  pub updated_at : ℕ
  pub sent_at : Option ℕ
  pub correlation_id : String
  pub template_id : Option ℕ
  pub template_version : Option ℕ
  pub created_by : Option ℕ

pub record Outbox : Type 0 where
  pub id : ℕ
  pub notification_id : ℕ
  pub routing_key : String
  pub payload : Bytes
  pub headers : Bytes
  pub priority : ℕ
  pub created_at : ℕ
  pub claimed_at : Option ℕ
  pub claimed_by : Option String
  pub published_at : Option ℕ
  pub attempt_count : ℕ
  pub last_error : Option Bytes

pub record Scheduled : Type 0 where
  pub id : ℕ
  pub due_at : ℕ
  pub claimed_at : Option ℕ
  pub claimed_by : Option String

pub record DeadLetter : Type 0 where
  pub notification_id : ℕ
  pub reason : Bytes
  pub payload : Bytes
  pub dlq_at : ℕ

pub record DeliveryAttempt : Type 0 where
  pub notification_id : ℕ
  pub attempt_number : ℕ
  pub started_at : ℕ
  pub completed_at : Option ℕ
  pub success : Bool
  pub provider_message_id : Option String
  pub http_status : Option ℕ
  pub error : Option Bytes
  pub response_body : Option Bytes

pub record AuditEntry : Type 0 where
  pub actor : String
  pub actor_id : Option ℕ
  pub action : String
  pub target_id : Option ℕ

pub record Batch : Type 0 where
  pub id : ℕ
  pub total_count : ℕ
  pub accepted_count : ℕ
  pub rejected_count : ℕ
  pub idempotency_key : Option String
  pub status : String
  pub created_at : ℕ
  pub created_by : Option ℕ

pub record Template : Type 0 where
  pub id : ℕ
  pub name : String
  pub channel : String
  pub version : ℕ
  pub body : String
  pub required_vars : List String
  pub created_at : ℕ
  pub updated_at : ℕ
  pub deprecated_at : Option ℕ
  pub created_by : Option ℕ

pub record Db : Type 0 where
  pub notifications : List Notification
  pub outbox : List Outbox
  pub scheduled : List Scheduled
  pub dead_letters : List DeadLetter
  pub delivery_attempts : List DeliveryAttempt
  pub admin_audit : List AuditEntry
  pub batches : List Batch
  pub templates : List Template

-- The answer of a `:one` query: a row, `pgx.ErrNoRows`, or another error.
pub data Reply {ℓ} (A : Type ℓ) : Type ℓ where
  row : A → Reply A
  no_rows : Reply A
  failure : Reply A

abbrev pub of_option {ℓ} : {A : Type ℓ} → Option A → Reply A
of_option (Option.some a) = row a
of_option Option.none = no_rows
