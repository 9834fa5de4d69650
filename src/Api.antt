-- ===== src/Api.antt =====
-- The create endpoint of the API: the checks of a request (internal/api/validate.go and
-- validateCreate of internal/api/notifications.go) and its durable side (persist, in Api/Persist.antt).
pub mod Valid
pub mod Persist
use event_driven_notificatio.Prelude.{
  ℕ, ◌+◌, ◌*◌, Bool, true, false, not, ◌&&◌, ◌||◌, String, str_eq, List, [], ◌∷◌, ◌++◌, Option,
  none, some, ltb, leb, length, if◌then◌else◌, ◌==◌,
}
use event_driven_notificatio.Domain.{channel_valid, priority_valid}
use event_driven_notificatio.Store.{Bytes, second}

-- notificationCreateRequest, without the variables of a template; a template has been rendered into
-- the content before `persist` gets the request.
pub record CreateRequest : Type 0 where
  pub channel : String
  pub recipient : String
  pub content : String
  pub priority : String
  pub template_id : Option ℕ
  pub scheduled_at : Option ℕ

pub record FieldError : Type 0 where
  pub field : String
  pub message : String

-- The bytes of a string, and mail.ParseAddress of net/mail (whether it accepts).
pub record Text : Type 0 where
  pub bytes : String → Bytes
  pub is_address : String → Bool

abbrev is_digit : ℕ → Bool
is_digit b = leb 48 b && leb b 57

unfoldable pub all_digits : Bytes → Bool
all_digits [] = true
all_digits (b ∷ bs) = is_digit b && all_digits bs

-- The regular expression `^\+[1-9]\d{1,14}$`.
unfoldable pub e164 : Bytes → Bool
unfolding all_digits
e164 (plus ∷ d ∷ ds) =
    (plus == 43) && leb 49 d && leb d 57 && leb 1 (length ds) && leb (length ds) 14 && all_digits ds
e164 _ = false

abbrev pub sms_max_chars : ℕ
sms_max_chars = 1000

abbrev pub email_max_bytes : ℕ
email_max_bytes = 256 * 1024

abbrev pub push_max_bytes : ℕ
push_max_bytes = 4 * 1024

abbrev error : String → String → List FieldError
error field message = record { field = field; message = message } ∷ []

-- validateRecipient
unfoldable pub validate_recipient : Text → String → String → List FieldError
unfolding e164
validate_recipient text channel recipient =
    if str_eq recipient ""
    then error "recipient" "must not be empty"
    else if str_eq channel "sms"
    then if e164 (text.bytes recipient)
      then []
      else error "recipient" "must be E.164 (e.g. +905551234567)"
    else if str_eq channel "email"
    then if text.is_address recipient then [] else error "recipient" "must be a valid email address"
    else if str_eq channel "push"
    then if ltb (length (text.bytes recipient)) 16 || ltb 512 (length (text.bytes recipient))
      then error "recipient" "device token length must be 16..512"
      else []
    else error "channel" "must be sms | email | push"

-- validateContent
unfoldable pub validate_content : Text → String → String → List FieldError
validate_content text channel content =
    if str_eq content ""
    then error "content" "must not be empty"
    else if str_eq channel "sms" && ltb sms_max_chars (length (text.bytes content))
    then error "content" "max 1000 chars for SMS"
    else if str_eq channel "email" && ltb email_max_bytes (length (text.bytes content))
    then error "content" "max 262144 bytes for email"
    else if str_eq channel "push" && ltb push_max_bytes (length (text.bytes content))
    then error "content" "max 4096 bytes for push"
    else []

abbrev pub is_set : Option ℕ → Bool
is_set none = false
is_set (some _) = true

-- The oneOf of content and template.
unfoldable pub validate_shape : Text → CreateRequest → List FieldError
unfolding validate_content
validate_shape text req =
    let empty = str_eq req.content "" in
    if not empty && is_set req.template_id
    then error "content" "must not be set when template_id is provided"
    else if empty && not (is_set req.template_id)
    then error "content" "must be set when template_id is not provided"
    else if not empty
    then validate_content text req.channel req.content
    else []

unfoldable pub validate_priority : String → List FieldError
validate_priority p =
    if priority_valid p then [] else error "priority" "must be high | normal | low"

abbrev pub horizon : ℕ
horizon = 30 * 24 * 3600 * second

unfoldable pub validate_schedule : ℕ → Option ℕ → List FieldError
validate_schedule now none = []
validate_schedule now (some at) =
    if ltb (now + horizon) at then error "scheduled_at" "must be ≤ 30 days in the future" else []

-- validateCreate
unfoldable pub validate_create : Text → ℕ → CreateRequest → List FieldError
unfolding validate_recipient validate_shape validate_priority validate_schedule
validate_create text now req =
    if channel_valid req.channel
    then validate_recipient text req.channel req.recipient
      ++ (validate_shape text req
          ++ (validate_priority req.priority ++ validate_schedule now req.scheduled_at))
    else error "channel" "must be sms | email | push"
