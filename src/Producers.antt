-- ===== src/Producers.antt =====
-- The background and admin code that puts a notification into the outbox again: the scheduler
-- (internal/scheduler/dispatcher.go), the sweeper (internal/sweeper/sending.go) and the admin
-- handler (internal/api/admin.go). A transaction is a chain of steps on the database, each of which
-- may fail; a chain that fails leaves the database as it was.
pub mod Transactions
pub mod Scheduler
pub mod Sweeper
pub mod Admin
use event_driven_notificatio.Prelude.{
  ℕ, ◌≡◌, Bool, true, false, String, List, [], ◌∷◌, Option, none, some, str_eq, ◌==◌, if◌then◌else◌,
}
use event_driven_notificatio.Topology.{routing_key}
use event_driven_notificatio.Store.{Bytes, Notification, Outbox, Db}
use event_driven_notificatio.Store.OutboxTable.{fresh}
use event_driven_notificatio.Worker.Calls.{Envelope, Codec}

-- json.Marshal of an envelope and of a header map, and uuid.UUID.String.
pub record Encoder : Type 0 where
  pub envelope : Envelope → Bytes
  pub headers : List (String × String) → Bytes
  pub uuid_text : ℕ → String

-- The envelope of a notification, with its priority as `label` writes it.
unfoldable pub envelope_of : Encoder → (ℕ → String) → Notification → Envelope
envelope_of encoder label n = record {
  notification_id = encoder.uuid_text n.id;
  channel = n.channel;
  recipient = n.recipient;
  content = n.content;
  priority = label n.priority;
  correlation_id = n.correlation_id;
}

-- The row that InsertOutbox gets, under the id and at the time that the database gives it.
unfoldable pub outbox_row :
    Encoder → (ℕ → String) → List (String × String) → ℕ → ℕ → Notification → Outbox
unfolding envelope_of
outbox_row encoder label hdrs id now n =
    fresh id n.id (routing_key n.channel) (encoder.envelope (envelope_of encoder label n))
      (encoder.headers hdrs) n.priority now

infixl 20 ◌>>=◌
abbrev pub ◌>>=◌ {ℓ κ} : {A : Type ℓ} {B : Type κ} → Option A → (A → Option B) → Option B
none >>= f = none
some a >>= f = f a

-- A step of a transaction, given whether its call fails.
abbrev pub step {ℓ} : {A : Type ℓ} → Bool → A → Option A
step true a = none
step false a = some a

-- The database after a transaction.
abbrev pub committed : Option Db → Db → Db
committed none db = db
committed (some db') db = db'
