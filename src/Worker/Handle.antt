-- ===== src/Worker/Handle.antt =====
-- Handle, handle and requeueViaWaitTier of internal/worker/pipeline.go, and the ack policy of
-- Consumer.Run (internal/queue/consumer.go). The in-flight lock is an outcome of the run
-- (`calls.lock`); its release at the end changes nothing that a run reads.
pub mod Moves
pub mod Verdicts
pub mod Settled
pub mod Stranded
pub mod Attempts
use event_driven_notificatio.Prelude.{
  ℕ, ◌+◌, Bool, true, false, String, List, [], ◌∷◌, Option, none, some, leb, if◌then◌else◌,
}
use event_driven_notificatio.Store.{Bytes, Notification, Db, Reply, row, no_rows, failure}
use event_driven_notificatio.Store.Notifications.{mark_sending_cas, revert_to_queued_no_attempt}
use event_driven_notificatio.Worker.Calls.{
  Envelope, Header, absent, int32, odd, Delivery, WaitMessage, World, Codec, Lock, lock_taken,
  lock_held, lock_error, Calls, Verdict, ack, terminal, retry, max_redeliveries, priority_to_amqp,
}
use event_driven_notificatio.Worker.Gate.{Gate, pass, sustained, stopped, broken, gate}
use event_driven_notificatio.Worker.Deliver.{route_to_retry_tier, acked_if, reverted, deliver}

-- Step 4: what the gate's decision leads to. A gate that gives none has run out of fuel; what is done
-- then is arbitrary.
unfoldable pub after_gate :
    Codec
    → Calls
    → String
    → Notification
    → Delivery
    → Envelope
    → Option Gate
    → World
    → Verdict × World
after_gate codec calls channel n d env none w = (retry, w)
after_gate codec calls channel n d env (some pass) w = deliver codec calls channel n d env w
after_gate codec calls channel n d env (some broken) w = (retry, w)
after_gate codec calls channel n d env (some stopped) w =
    (retry, reverted calls.revert_fails (revert_to_queued_no_attempt n.id none calls.now w.db) w)
after_gate codec calls channel n d env (some (sustained wait)) w = acked_if (
    route_to_retry_tier calls 1 d.body env
      (reverted calls.revert_fails (revert_to_queued_no_attempt n.id none calls.now w.db) w))

-- Step 3: the in-flight lock.
unfoldable pub after_cas :
    Codec → Calls → String → Notification → Delivery → Envelope → Lock → World → Verdict × World
unfolding after_gate
after_cas codec calls channel n d env lock_error w = (retry, w)
after_cas codec calls channel n d env lock_held w =
    (ack, reverted calls.revert_fails (revert_to_queued_no_attempt n.id none calls.now w.db) w)
after_cas codec calls channel n d env lock_taken w =
    after_gate codec calls channel n d env (gate calls) w

-- Step 2: the reply of MarkSendingCAS.
unfoldable pub on_claim :
    Codec → Calls → String → Delivery → Envelope → Reply Notification → World → Verdict × World
unfolding after_cas
on_claim codec calls channel d env (row n) w = after_cas codec calls channel n d env calls.lock w
on_claim codec calls channel d env no_rows w = (ack, w)
on_claim codec calls channel d env failure w = (retry, w)

unfoldable pub handle_id :
    Codec → Calls → String → Delivery → Envelope → Option ℕ → World → Verdict × World
unfolding on_claim
handle_id codec calls channel d env none w = (terminal, w)
handle_id codec calls channel d env (some id) w =
    if calls.cas_fails
    then (retry, w)
    else (let (reply, db) = mark_sending_cas id calls.now w.db in
        on_claim codec calls channel d env reply (record w { db = db }))

unfoldable pub handle_envelope :
    Codec → Calls → String → Delivery → Option Envelope → World → Verdict × World
unfolding handle_id
handle_envelope codec calls channel d none w = (terminal, w)
handle_envelope codec calls channel d (some env) w =
    handle_id codec calls channel d env (codec.parse_uuid env.notification_id) w

-- handle
unfoldable pub handle : Codec → Calls → String → Delivery → World → Verdict × World
unfolding handle_envelope
handle codec calls channel d w = handle_envelope codec calls channel d (codec.decode d.body) w

-- currentRedeliveries
unfoldable pub current_redeliveries : Header → ℕ
current_redeliveries absent = 0
current_redeliveries (int32 n) = n
current_redeliveries odd = 0

abbrev or_leftover : Codec → Bytes → Option Envelope → Envelope
or_leftover codec body none = codec.leftover body
or_leftover codec body (some env) = env

-- requeueViaWaitTier
unfoldable pub requeue_via_wait_tier : Codec → Delivery → ℕ → World → World
requeue_via_wait_tier codec d prev w =
    let env = or_leftover codec d.body (codec.decode d.body) in
    record w {
      waits =
          record {
            channel = env.channel;
            tier = "5s";
            payload = d.body;
            priority = priority_to_amqp env.priority;
            redeliveries = int32 (prev + 1);
            attempt = none;
          }
          ∷ w.waits;
    }

-- What Handle does with the answer of handle.
unfoldable pub after_handle : Codec → Calls → Delivery → Verdict × World → Verdict × World
unfolding requeue_via_wait_tier current_redeliveries
after_handle codec calls d (ack, w) = (ack, w)
after_handle codec calls d (terminal, w) = (terminal, w)
after_handle codec calls d (retry, w) =
    if calls.has_publisher
    then if calls.requeue_fails
      then (retry, w)
      else (ack, requeue_via_wait_tier codec d (current_redeliveries d.redeliveries) w)
    else (retry, w)

abbrev pub over_cap : Header → Bool
over_cap (int32 n) = leb max_redeliveries n
over_cap _ = false

-- Handle
unfoldable pub handle_delivery : Codec → Calls → String → Delivery → World → Verdict × World
unfolding handle after_handle
handle_delivery codec calls channel d w =
    if over_cap d.redeliveries
    then (terminal, w)
    else after_handle codec calls d (handle codec calls channel d w)

-- What Consumer.Run tells the broker.
pub data Answer : Type 0 where
  acked nacked_dlq nacked_requeue : Answer

unfoldable pub answer_of : Verdict → Answer
answer_of ack = acked
answer_of terminal = nacked_dlq
answer_of retry = nacked_requeue
