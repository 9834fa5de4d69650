-- ===== src/Domain.antt =====
-- internal/notification/notification.go: channels, priorities and statuses.
-- A Go string type with named constants is a `String`; the status column, which a CHECK
-- constraint holds to eight words, is a data type with its wire words in `status_text`.
use event_driven_notificatio.Prelude.{ℕ, Bool, ◌||◌, String, str_eq, if◌then◌else◌, ◌==◌}

pub data Status : Type 0 where
  pending scheduled queued sending sent failed cancelled dead_letter : Status

pub Status-discrete : Discrete Status
Status-discrete = hlevel

-- The words of the status column.
unfoldable pub status_text : Status → String
status_text pending = "pending"
status_text scheduled = "scheduled"
status_text queued = "queued"
status_text sending = "sending"
status_text sent = "sent"
status_text failed = "failed"
status_text cancelled = "cancelled"
status_text dead_letter = "dead_letter"

-- Status.Valid
unfoldable pub status_valid : String → Bool
status_valid s =
    str_eq s "pending"
    || str_eq s "scheduled"
    || str_eq s "queued"
    || str_eq s "sending"
    || str_eq s "sent"
    || str_eq s "failed"
    || str_eq s "cancelled"
    || str_eq s "dead_letter"

-- Channel.Valid
unfoldable pub channel_valid : String → Bool
channel_valid c = str_eq c "sms" || str_eq c "email" || str_eq c "push"

-- Priority.Int16
unfoldable pub priority_int16 : String → ℕ
priority_int16 p = if str_eq p "high" then 9 else if str_eq p "low" then 1 else 5

-- Priority.Valid
unfoldable pub priority_valid : String → Bool
priority_valid p = str_eq p "high" || str_eq p "normal" || str_eq p "low" || str_eq p ""

-- PriorityFromInt
unfoldable pub priority_from_int : ℕ → String
priority_from_int v = if v == 9 then "high" else if v == 1 then "low" else "normal"
