-- ===== src/Worker/Calls.antt =====
-- internal/worker/pipeline.go: the data of the pipeline, and the outcomes of the calls that leave
-- the process, which are arguments of one run of the handler.
use event_driven_notificatio.Prelude.{ℕ, Bool, String, str_eq, List, Option, if◌then◌else◌}
use event_driven_notificatio.Store.{Bytes, Db}
use event_driven_notificatio.Provider.{SendRequest, SendError, Outcome}
use event_driven_notificatio.RateLimit.Reservoir.{TakeResult}

pub record Envelope : Type 0 where
  pub notification_id : String
  pub channel : String
  pub recipient : String
  pub content : String
  pub priority : String
  pub correlation_id : String

-- The x-redeliveries header: missing (or no headers), an int32, or of another type. The counter
-- starts at 1 and only grows, so negative values do not occur.
pub data Header : Type 0 where
  absent : Header
  int32 : ℕ → Header
  odd : Header

pub record Delivery : Type 0 where
  pub body : Bytes
  pub redeliveries : Header

-- What PublishToWait hands to the broker.
pub record WaitMessage : Type 0 where
  pub channel : String
  pub tier : String
  pub payload : Bytes
  pub priority : ℕ
  pub redeliveries : Header
  pub attempt : Option ℕ

pub record StatusEvent : Type 0 where
  pub notification_id : ℕ
  pub batch_id : Option ℕ
  pub channel : String
  pub status : String
  pub correlation_id : String
  pub created_by : Option ℕ

-- What a run reads and writes: the database, the messages handed to the broker, the status events
-- and the requests sent to the provider, newest first.
pub record World : Type 0 where
  pub db : Db
  pub waits : List WaitMessage
  pub events : List StatusEvent
  pub requests : List SendRequest

-- json.Unmarshal of an envelope, what it leaves behind where it fails, uuid.Parse, SendError.Error
-- and the json.Unmarshal of a response.
pub record Codec : Type 0 where
  pub decode : Bytes → Option Envelope
  pub leftover : Bytes → Envelope
  pub parse_uuid : String → Option ℕ
  pub describe : SendError → Bytes
  pub parse_response : Bytes → String × String

pub data Lock : Type 0 where
  lock_taken lock_held lock_error : Lock

-- The outcomes of one run's external calls. A flag that ends in `_fails` says that this call returns
-- an error; for a statement of the database it then has no effect.
pub record Calls : Type 0 where
  pub now : ℕ
  pub cas_fails : Bool
  pub lock : Lock
  -- the first Take, and for the k-th round of the throttle loop: whether ctx.Done wins, how much
  -- later than asked the timer and the next Take return, and what that Take answers
  pub first_take : TakeResult
  pub cancelled : ℕ → Bool
  pub lag : ℕ → ℕ
  pub takes : ℕ → TakeResult
  pub revert_fails : Bool
  -- the breaker refuses (ErrOpenState, ErrTooManyRequests) with this text
  pub refused : Bool
  pub refusal : Bytes
  pub http : Outcome
  pub attempt_fails : Bool
  pub dead_fails : Bool
  pub dead_row_fails : Bool
  pub sent_fails : Bool
  pub sent_error : Bytes
  pub has_publisher : Bool
  pub publish_fails : Bool
  -- the publish of requeueViaWaitTier
  pub requeue_fails : Bool

-- What the handler returns: nil, an error that wraps ErrTerminal, any other error.
pub data Verdict : Type 0 where
  ack terminal retry : Verdict

abbrev pub max_attempts : ℕ
max_attempts = 10

abbrev pub max_redeliveries : ℕ
max_redeliveries = 20

-- priorityToAMQP
unfoldable pub priority_to_amqp : String → ℕ
priority_to_amqp s = if str_eq s "high" then 9 else if str_eq s "low" then 1 else 5
