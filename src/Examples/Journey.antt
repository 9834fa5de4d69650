-- ===== src/Examples/Journey.antt =====
-- A run from the create endpoint to the provider.
use event_driven_notificatio.Prelude.{◌≡◌, refl, false, [], ◌∷◌, none, some}
use event_driven_notificatio.Prelude.Table.{find_row}
use event_driven_notificatio.Domain.{pending, priority_int16}
use event_driven_notificatio.Topology.{routing_key}
use event_driven_notificatio.Producers.{Encoder}
use event_driven_notificatio.Api.{CreateRequest}
use event_driven_notificatio.Api.Persist.{
  transaction, second_row, new_notification, new_envelope, new_outbox,
}
use event_driven_notificatio.Outbox.{
  Parser, RowCalls, PublishMessage, target, default, extract_notification_id, publish_row,
  message_of,
}
use event_driven_notificatio.Provider.{send}
use event_driven_notificatio.Store.{Notification, Outbox, Db}
use event_driven_notificatio.Store.OutboxTable.{fresh, insert_outbox}
use event_driven_notificatio.Store.Notifications.{find, to_queued, to_sent, insert_notification}
use event_driven_notificatio.Worker.Calls.{Envelope, Delivery, absent, World, Codec, ack}
use event_driven_notificatio.Worker.Gate.{gate}
use event_driven_notificatio.Worker.Handle.{handle_delivery}
use event_driven_notificatio.System.Journey.{Succeeds, delivered_end_to_end}
use event_driven_notificatio.Examples.Data.{db_of, waiting, outbox_example, world_of, calls_for}
use event_driven_notificatio.Examples.Edge as Edge
use event_driven_notificatio.Examples.Edge.{persist_calls}

abbrev request : CreateRequest
request = record Edge.request { scheduled_at = none }

abbrev encoder : Encoder
encoder = record { envelope = λ e. 123 ∷ []; headers = λ hs. []; uuid_text = λ i. "2" }

abbrev encoded : Envelope
encoded = record {
  notification_id = "2";
  channel = "sms";
  recipient = "+90";
  content = "hi!";
  priority = "";
  correlation_id = "c";
}

abbrev codec : Codec
codec = record {
  decode = λ body. some encoded;
  leftover = λ body. encoded;
  parse_uuid = λ s. some 2;
  describe = λ e. [];
  parse_response = λ body. ("m", "accepted");
}

abbrev parser : Parser
parser = record { headers = λ b. none; notification_id = λ b. some "2"; parse_uuid = λ s. some 2 }

abbrev row_calls : RowCalls
row_calls = record {
  now = 110;
  publish_error = none;
  published_fails = false;
  queued_fails = false;
  failed_fails = false;
  dead_fails = false;
  dead_row_fails = false;
}

abbrev stored : Notification
stored = record {
  id = 2;
  batch_id = none;
  channel = "sms";
  recipient = "+90";
  content = "hi!";
  priority = 5;
  status = pending;
  idempotency_key = none;
  attempt_count = 0;
  last_error = none;
  scheduled_at = none;
  created_at = 100;
  updated_at = 100;
  sent_at = none;
  correlation_id = "c";
  template_id = none;
  template_version = none;
  created_by = some 7;
}

abbrev new_db : Db
new_db = record (db_of waiting) {
  notifications = stored ∷ waiting ∷ [];
  outbox = fresh 12 2 "notification.sms" (123 ∷ []) [] 5 100 ∷ outbox_example ∷ [];
}

abbrev message : PublishMessage
message = record {
  routing_key = "notification.sms";
  payload = 123 ∷ [];
  headers = [];
  priority = 5;
}

abbrev row : Outbox
row = fresh 12 2 "notification.sms" (123 ∷ []) [] 5 100

abbrev published_db : Db
published_db =
    (publish_row parser (default "d") row_calls row (record { db = new_db; messages = [] })).db

abbrev start : World
start = world_of published_db

committed : transaction encoder persist_calls request "" "c" none (db_of waiting) ≡ some new_db
unfolding transaction second_row new_notification new_outbox insert_notification find find_row
    insert_outbox priority_int16 routing_key
committed = refl

target_example : target parser (new_outbox encoder persist_calls request "" "c") ≡ some 2
unfolding target extract_notification_id
target_example = refl

decoded :
    codec.decode (encoder.envelope (new_envelope encoder persist_calls request "c"))
    ≡ some (new_envelope encoder persist_calls request "c")
unfolding new_envelope
decoded = refl

unused : find 2 (db_of waiting) ≡ none
unfolding find find_row
unused = refl

works : Succeeds codec (calls_for 202)
unfolding gate send
works = record {
  cas = refl;
  lock = refl;
  passed = refl;
  willing = refl;
  response = record { message_id = "m"; status = "accepted"; http_status = 202; raw_body = [] };
  answer = refl;
  recorded = refl;
}

delivered_end_to_end_example :
    let p =
      publish_row parser (default "d") row_calls row (record { db = new_db; messages = [] }) in
    let d : Delivery = record { body = 123 ∷ []; redeliveries = absent } in
    let (verdict, w') = handle_delivery codec (calls_for 202) "sms" d start in
    (find 2 p.db ≡ some (to_queued 110 stored))
    × (p.messages ≡ message ∷ [])
    × (verdict ≡ ack)
    × (find 2 w'.db ≡ some (to_sent 100 stored))
    × (w'.requests ≡ record { to = "+90"; channel = "sms"; content = "hi!" } ∷ [])
unfolding new_notification new_outbox message_of routing_key priority_int16
delivered_end_to_end_example =
    delivered_end_to_end encoder persist_calls request "" "c" none (db_of waiting) new_db unused
      committed refl parser (default "d") row_calls refl refl refl [] target_example codec
      (calls_for 202) works decoded refl start refl
