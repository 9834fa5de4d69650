-- ===== src/Worker/Handle/Attempts.antt =====
-- What a failed send costs a notification (step 8a of handle, internal/worker/pipeline.go).
use event_driven_notificatio.Prelude.{◌≡◌, true, false}
use event_driven_notificatio.Worker.Calls.{Calls}

-- The statements reach the database, and the broker takes the message.
pub record Works (calls : Calls) : Type 0 where
  pub revert : calls.revert_fails ≡ false
  pub dead : calls.dead_fails ≡ false
  pub publisher : calls.has_publisher ≡ true
  pub publish : calls.publish_fails ≡ false
