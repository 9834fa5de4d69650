-- ===== src/Examples/Data.antt =====
-- A small database and the surroundings of a run, for the tests.
use event_driven_notificatio.Prelude.{ℕ, true, false, [], ◌∷◌, Option, none, some}
use event_driven_notificatio.Domain.{Status, queued}
use event_driven_notificatio.Store.{Notification, Outbox, Db}
use event_driven_notificatio.Store.OutboxTable.{fresh}
use event_driven_notificatio.Provider.{answered}
use event_driven_notificatio.RateLimit.Reservoir.{allowed, denied, failed}
use event_driven_notificatio.Worker.Calls.{
  Envelope, Delivery, absent, World, Codec, Calls, lock_taken,
}
use event_driven_notificatio.Producers.{Encoder}

abbrev pub at_status : Status → Option ℕ → Notification
at_status s sent_at = record {
  id = 1;
  batch_id = none;
  channel = "sms";
  recipient = "+905551234567";
  content = "hello";
  priority = 5;
  status = s;
  idempotency_key = none;
  attempt_count = 2;
  last_error = none;
  scheduled_at = none;
  created_at = 10;
  updated_at = 10;
  sent_at = sent_at;
  correlation_id = "c";
  template_id = none;
  template_version = none;
  created_by = some 7;
}

abbrev pub outbox_example : Outbox
outbox_example = fresh 11 1 "notification.sms" (123 ∷ []) [] 5 10

abbrev pub db_of : Notification → Db
db_of n = record {
  notifications = n ∷ [];
  outbox = outbox_example ∷ [];
  scheduled = [];
  dead_letters = [];
  delivery_attempts =
      record {
        notification_id = 1;
        attempt_number = 1;
        started_at = 11;
        completed_at = none;
        success = false;
        provider_message_id = none;
        http_status = none;
        error = none;
        response_body = none;
      }
      ∷ [];
  admin_audit = [];
  batches = [];
  templates = [];
}

abbrev pub waiting : Notification
waiting = at_status queued none

abbrev pub world_of : Db → World
world_of db = record { db = db; waits = []; events = []; requests = [] }

abbrev pub envelope : Envelope
envelope = record {
  notification_id = "1";
  channel = "sms";
  recipient = "+905551234567";
  content = "hello";
  priority = "normal";
  correlation_id = "c";
}

abbrev pub codec : Codec
codec = record {
  decode = λ body. some envelope;
  leftover = λ body. envelope;
  parse_uuid = λ s. some 1;
  describe = λ e. 101 ∷ [];
  parse_response = λ body. ("m", "accepted");
}

abbrev pub delivery : Delivery
delivery = record { body = 123 ∷ []; redeliveries = absent }

-- The provider answers with this status; nothing else fails.
abbrev pub calls_for : ℕ → Calls
calls_for code = record {
  now = 100;
  cas_fails = false;
  lock = lock_taken;
  first_take = allowed;
  cancelled = λ k. false;
  lag = λ k. 0;
  takes = λ k. allowed;
  revert_fails = false;
  refused = false;
  refusal = [];
  http = answered code (record { blank = true; seconds = none; date = none }) [];
  attempt_fails = false;
  dead_fails = false;
  dead_row_fails = false;
  sent_fails = false;
  sent_error = [];
  has_publisher = true;
  publish_fails = false;
  requeue_fails = false;
}

abbrev pub calls_broken : Calls
calls_broken = record (calls_for 202) { first_take = denied 10; takes = λ k. failed }

abbrev pub encoder : Encoder
encoder = record { envelope = λ e. 123 ∷ []; headers = λ hs. []; uuid_text = λ i. "1" }
