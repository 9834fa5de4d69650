-- ===== src/Worker/Deliver.antt =====
-- Steps 6 to 8 of handle (internal/worker/pipeline.go): the provider call behind the breaker, the
-- record of the attempt, and retry, dead letter or success.
use event_driven_notificatio.Prelude.{
  ℕ, ◌+◌, ◌-◌, ◌*◌, Bool, true, false, ◌&&◌, not, String, ◌∷◌, Option, none, some, ltb, leb,
  if◌then◌else◌, length, take,
}
use event_driven_notificatio.Domain.{Status, sent, dead_letter, status_text}
use event_driven_notificatio.Topology.{wait_tier_for_attempt}
use event_driven_notificatio.Store.{
  Bytes, Notification, DeliveryAttempt, Db, Reply, row, no_rows, failure,
}
use event_driven_notificatio.Store.Notifications.{
  mark_sent, mark_dead_letter, revert_to_queued, revert_to_queued_no_attempt,
}
use event_driven_notificatio.Store.Records.{insert_dead_letter, insert_delivery_attempt}
use event_driven_notificatio.Provider.{
  SendResponse, SendError, Sent, accepted, rejected, send, is_retryable,
}
use event_driven_notificatio.Worker.Calls.{
  WaitMessage, Envelope, absent, Delivery, World, Codec, Calls, Verdict, ack, terminal, retry,
  max_attempts, priority_to_amqp,
}

-- truncate
unfoldable pub truncate : Bytes → ℕ → Bytes
truncate s n = if leb (length s) n then s else take n s

abbrev pub retry_message : ℕ → Bytes → Envelope → WaitMessage
retry_message attempt body env = record {
  channel = env.channel;
  tier = wait_tier_for_attempt attempt;
  payload = body;
  priority = priority_to_amqp env.priority;
  redeliveries = absent;
  attempt = some attempt;
}

-- routeToRetryTier: whether the publish succeeded
unfoldable pub route_to_retry_tier : Calls → ℕ → Bytes → Envelope → World → Bool × World
route_to_retry_tier calls attempt body env w =
    if not calls.has_publisher
    then (false, w)
    else if calls.publish_fails
    then (false, w)
    else (true, record w { waits = retry_message attempt body env ∷ w.waits })

-- The caller acks after a publish, and returns its error otherwise.
abbrev pub acked_if : Bool × World → Verdict × World
acked_if (published, w) = (if published then ack else retry, w)

-- `_ = p.q.RevertTo...`: an error is ignored.
abbrev pub reverted : Bool → Db → World → World
reverted fails db w = if fails then w else record w { db = db }

-- emitStatus; Publish drops its errors.
unfoldable pub emit_status : String → Notification → Status → String → World → World
emit_status channel n status correlation_id w = record w {
  events =
      record {
        notification_id = n.id;
        batch_id = n.batch_id;
        channel = channel;
        status = status_text status;
        correlation_id = correlation_id;
        created_by = n.created_by;
      }
      ∷ w.events;
}

-- httpStatusOf
unfoldable pub http_status_of : SendError → Option ℕ
http_status_of e = if ltb 0 e.http_status then some e.http_status else none

abbrev pub started : ℕ → ℕ
started now = now - 100 * 1000000

abbrev pub failed_attempt : Codec → ℕ → ℕ → ℕ → SendError → DeliveryAttempt
failed_attempt codec id attempt now e = record {
  notification_id = id;
  attempt_number = attempt;
  started_at = started now;
  completed_at = some now;
  success = false;
  provider_message_id = none;
  http_status = if ltb 0 e.http_status then some e.http_status else none;
  error = some (codec.describe e);
  response_body = none;
}

abbrev pub good_attempt : ℕ → ℕ → ℕ → SendResponse → DeliveryAttempt
good_attempt id attempt now r = record {
  notification_id = id;
  attempt_number = attempt;
  started_at = started now;
  completed_at = some now;
  success = true;
  provider_message_id = some r.message_id;
  http_status = some r.http_status;
  error = none;
  response_body = some r.raw_body;
}

-- An insert or update whose error is only logged.
abbrev pub attempted : Bool → DeliveryAttempt → World → World
attempted fails a w = reverted fails (insert_delivery_attempt a w.db).1 w

-- 8a, terminal: MarkDeadLetter, the dead_letters row and the event, whatever fails.
unfoldable pub give_up :
    Codec
    → Calls
    → String
    → Notification
    → Delivery
    → Envelope
    → SendError
    → World
    → Verdict × World
unfolding emit_status
give_up codec calls channel n d env e w =
    let text = codec.describe e in
    let w₁ = reverted calls.dead_fails (mark_dead_letter n.id (some text) calls.now w.db).1 w in
    let w₂ =
      reverted calls.dead_row_fails
        (insert_dead_letter
          (record {
            notification_id = n.id;
            reason = truncate text 500;
            payload = d.body;
            dlq_at = calls.now;
          })
          w₁.db).1
        w₁ in
    (terminal, emit_status channel n dead_letter env.correlation_id w₂)

-- 8a, retry: RevertToQueued and the wait tier.
unfoldable pub retry_later :
    Codec → Calls → Notification → ℕ → Delivery → Envelope → SendError → World → Verdict × World
unfolding route_to_retry_tier
retry_later codec calls n attempt d env e w = acked_if (
    route_to_retry_tier calls attempt d.body env (
      reverted calls.revert_fails (revert_to_queued n.id (some (codec.describe e)) calls.now w.db)
        w))

-- 7a and 8a
unfoldable pub on_rejected :
    Codec
    → Calls
    → String
    → Notification
    → Delivery
    → Envelope
    → SendError
    → World
    → Verdict × World
unfolding give_up retry_later
on_rejected codec calls channel n d env e w =
    let attempt = n.attempt_count + 1 in
    let w₁ = attempted calls.attempt_fails (failed_attempt codec n.id attempt calls.now e) w in
    if is_retryable e.kind && ltb attempt max_attempts
    then retry_later codec calls n attempt d env e w₁
    else give_up codec calls channel n d env e w₁

-- What follows the reply of MarkSent.
unfoldable pub after_mark_sent :
    Calls → String → Notification → Envelope → Reply Notification → World → World → Verdict × World
unfolding emit_status
after_mark_sent calls channel n env (row _) w w' =
    (ack, emit_status channel n sent env.correlation_id w')
after_mark_sent calls channel n env no_rows w w' = (
  retry,
  reverted calls.revert_fails (revert_to_queued n.id (some calls.sent_error) calls.now w.db) w,
)
after_mark_sent calls channel n env failure w w' = (
  retry,
  reverted calls.revert_fails (revert_to_queued n.id (some calls.sent_error) calls.now w.db) w,
)

-- 7b
unfoldable pub on_accepted :
    Calls → String → Notification → Envelope → SendResponse → World → Verdict × World
unfolding after_mark_sent
on_accepted calls channel n env r w =
    let w₁ =
      attempted calls.attempt_fails (good_attempt n.id (n.attempt_count + 1) calls.now r) w in
    let (reply, db) = mark_sent n.id calls.now w₁.db in
    after_mark_sent calls channel n env (if calls.sent_fails then failure else reply) w₁
      (record w₁ { db = db })

unfoldable pub on_sent :
    Codec → Calls → String → Notification → Delivery → Envelope → Sent → World → Verdict × World
unfolding on_accepted on_rejected
on_sent codec calls channel n d env (accepted r) w = on_accepted calls channel n env r w
on_sent codec calls channel n d env (rejected e) w = on_rejected codec calls channel n d env e w

-- From step 6 on: `n` is the row that the CAS returned.
unfoldable pub deliver :
    Codec → Calls → String → Notification → Delivery → Envelope → World → Verdict × World
unfolding on_sent route_to_retry_tier
deliver codec calls channel n d env w =
    if calls.refused
    then acked_if (
        route_to_retry_tier calls (n.attempt_count + 1) d.body env (
          reverted calls.revert_fails
            (revert_to_queued_no_attempt n.id (some calls.refusal) calls.now w.db) w))
    else on_sent codec calls channel n d env (send codec.parse_response calls.now calls.http)
        (record w {
          requests =
              record { to = env.recipient; channel = env.channel; content = env.content }
              ∷ w.requests;
        })
