-- ===== src/Provider.antt =====
-- internal/provider/httpclient.go: the outbound call and the classification of its failures, which
-- decides between retry and dead letter. The HTTP client is outside the repository: what it answers
-- is the argument `Outcome`, and `parse` is what json.Unmarshal finds in a body.
pub mod Classification
pub mod Ssrf
use event_driven_notificatio.Prelude.{
  ℕ, ◌-◌, ◌*◌, Bool, true, false, ◌&&◌, ◌||◌, String, str_eq, [], Option, none, some, ltb, leb,
  if◌then◌else◌, ◌==◌,
}
use event_driven_notificatio.Store.{Bytes, second}

pub data ErrorKind : Type 0 where
  unknown network timeout ssrf_blocked server rate_limited client : ErrorKind

-- IsRetryable
unfoldable pub is_retryable : ErrorKind → Bool
is_retryable network = true
is_retryable timeout = true
is_retryable server = true
is_retryable rate_limited = true
is_retryable _ = false

pub record SendRequest : Type 0 where
  pub to : String
  pub channel : String
  pub content : String

pub record SendResponse : Type 0 where
  pub message_id : String
  pub status : String
  pub http_status : ℕ
  pub raw_body : Bytes

pub record SendError : Type 0 where
  pub kind : ErrorKind
  pub http_status : ℕ
  pub retry_after : ℕ
  pub body : Bytes

-- What classifyTransportError finds in the chain of a transport error.
pub data Transport : Type 0 where
  deadline_or_cancel ssrf other : Transport

-- The Retry-After header: blank, and what Sscanf("%d") and http.ParseTime make of it.
pub record RetryAfter : Type 0 where
  pub blank : Bool
  pub seconds : Option ℕ
  pub date : Option ℕ

pub data Outcome : Type 0 where
  -- json.Marshal or http.NewRequest failed
  not_built : Outcome
  not_sent : Transport → Outcome
  answered : ℕ → RetryAfter → Bytes → Outcome

pub data Sent : Type 0 where
  accepted : SendResponse → Sent
  rejected : SendError → Sent

-- classifyTransportError
unfoldable pub classify_transport_error : Transport → SendError
classify_transport_error deadline_or_cancel = record {
  kind = timeout;
  http_status = 0;
  retry_after = 0;
  body = [];
}
classify_transport_error ssrf = record {
  kind = ssrf_blocked;
  http_status = 0;
  retry_after = 0;
  body = [];
}
classify_transport_error other = record {
  kind = network;
  http_status = 0;
  retry_after = 0;
  body = [];
}

until : Option ℕ → ℕ → ℕ
until none now = 0
until (some t) now = t - now

after_seconds : Option ℕ → Option ℕ → ℕ → ℕ
unfolding until
after_seconds none date now = until date now
after_seconds (some n) date now = if ltb 0 n then n * second else until date now

-- parseRetryAfter, in nanoseconds
unfoldable pub parse_retry_after : RetryAfter → ℕ → ℕ
unfolding after_seconds
parse_retry_after h now = if h.blank then 0 else after_seconds h.seconds h.date now

abbrev or_accepted : String → String
or_accepted s = if str_eq s "" then "accepted" else s

respond : (Bytes → String × String) → ℕ → ℕ → RetryAfter → Bytes → Sent
unfolding parse_retry_after
respond parse now code header body =
    if leb 200 code && ltb code 300
    then accepted (record {
      message_id = (parse body).0;
      status = or_accepted (parse body).1;
      http_status = code;
      raw_body = body;
    })
    else if code == 408 || code == 429
    then rejected (record {
      kind = if code == 408 then timeout else rate_limited;
      http_status = code;
      retry_after = parse_retry_after header now;
      body = body;
    })
    else if leb 500 code
    then rejected (record { kind = server; http_status = code; retry_after = 0; body = body })
    else rejected (record { kind = client; http_status = code; retry_after = 0; body = body })

-- Send
unfoldable pub send : (Bytes → String × String) → ℕ → Outcome → Sent
unfolding respond classify_transport_error
send parse now not_built =
    rejected (record { kind = unknown; http_status = 0; retry_after = 0; body = [] })
send parse now (not_sent t) = rejected (classify_transport_error t)
send parse now (answered code header body) = respond parse now code header body
