-- ===== src/Api/Valid.antt =====
-- Which requests the create endpoint lets through (internal/api/validate.go,
-- internal/api/notifications.go).
use event_driven_notificatio.Prelude.{
  ℕ, ◌+◌, ◌≤◌, ◌≡◌, refl, ap, sym, ◌∙◌, if_true, if_false, inl, inr, Bool, true, false, ◌&&◌, ◌||◌,
  String, str_eq, List, [], ◌∷◌, ◌++◌, Option, none, some, arith, leb, length, Bool-cases,
}
use event_driven_notificatio.Domain.{channel_valid, priority_valid}
use event_driven_notificatio.Api.{
  CreateRequest, FieldError, Text, e164, sms_max_chars, email_max_bytes, push_max_bytes, is_set,
  horizon, validate_recipient, validate_content, validate_shape, validate_priority,
  validate_schedule, validate_create,
}

both_empty : (xs ys : List FieldError) → xs ++ ys ≡ [] → (xs ≡ []) × (ys ≡ [])
both_empty [] ys e = (refl, e)
both_empty (x ∷ xs) ys e = cc

schedule_fits :
    (now : ℕ) (o : Option ℕ)
    → validate_schedule now o ≡ []
    → (at : ℕ) → o ≡ some at
    → at ≤ now + horizon
unfolding validate_schedule
schedule_fits now none h at e = cc
schedule_fits now (some t) h at e = ground arith

priority_fits : (p : String) → validate_priority p ≡ [] → priority_valid p ≡ true
unfolding validate_priority
priority_fits p h = ground arith

shape_fits :
    (text : Text) (req : CreateRequest)
    → validate_shape text req ≡ []
    → (str_eq req.content "" ≡ is_set req.template_id)
      × (str_eq req.content "" ≡ false → validate_content text req.channel req.content ≡ [])
unfolding validate_shape
shape_fits text req h = ground arith

-- The recipient is a shape that its channel can reach.
abbrev pub reaches : Text → String → String → Bool
reaches text channel recipient =
    (str_eq channel "sms" && e164 (text.bytes recipient))
    || (str_eq channel "email" && text.is_address recipient)
    || (str_eq channel "push"
        && leb 16 (length (text.bytes recipient))
        && leb (length (text.bytes recipient)) 512)

recipient_fits :
    (text : Text) (channel recipient : String)
    → validate_recipient text channel recipient ≡ []
    → reaches text channel recipient ≡ true
unfolding validate_recipient
recipient_fits text channel recipient h = ground arith

sms_fits :
    (text : Text) (content : String)
    → validate_content text "sms" content ≡ []
    → length (text.bytes content) ≤ sms_max_chars
unfolding validate_content
sms_fits text content h = ground arith

email_fits :
    (text : Text) (content : String)
    → validate_content text "email" content ≡ []
    → length (text.bytes content) ≤ email_max_bytes
unfolding validate_content
email_fits text content h = ground arith

push_fits :
    (text : Text) (content : String)
    → validate_content text "push" content ≡ []
    → length (text.bytes content) ≤ push_max_bytes
unfolding validate_content
push_fits text content h = ground arith

-- What the database and the worker rely on.
pub record Sound (text : Text) (now : ℕ) (req : CreateRequest) : Type 0 where
  pub channel : channel_valid req.channel ≡ true
  pub priority : priority_valid req.priority ≡ true
  pub recipient : reaches text req.channel req.recipient ≡ true
  pub one_of : str_eq req.content "" ≡ is_set req.template_id
  pub sms :
      str_eq req.content "" ≡ false
      → req.channel ≡ "sms"
      → length (text.bytes req.content) ≤ sms_max_chars
  pub email :
      str_eq req.content "" ≡ false
      → req.channel ≡ "email"
      → length (text.bytes req.content) ≤ email_max_bytes
  pub push :
      str_eq req.content "" ≡ false
      → req.channel ≡ "push"
      → length (text.bytes req.content) ≤ push_max_bytes
  pub schedule : (at : ℕ) → req.scheduled_at ≡ some at → at ≤ now + horizon

for_channel :
    (text : Text) (channel channel' content : String)
    → channel ≡ channel'
    → validate_content text channel content ≡ []
    → validate_content text channel' content ≡ []
for_channel text channel channel' content e h =
    ap (λ c. validate_content text c content) (sym e) ∙ h

refused_channel : {A : Type 0} {l : List FieldError} {e : FieldError} → l ≡ e ∷ [] → l ≡ [] → A
refused_channel e h = cc

accepted_channel :
    (text : Text) (now : ℕ) (req : CreateRequest)
    → validate_create text now req ≡ []
    → channel_valid req.channel ≡ true
unfolding validate_create
accepted_channel text now req h = elim (Bool-cases (channel_valid req.channel)) [
  | inl yes_p ↦ yes_p
  | inr no_p ↦ refused_channel (if_false _ _ no_p) h
]

-- A request in which validateCreate finds no error has a known channel and priority, a recipient
-- that has the shape of its channel, either a content or a template but not both, a content within
-- its channel's limit where it has one, and a scheduled time at most 30 days ahead.
pub accepted-Sound :
    (text : Text) (now : ℕ) (req : CreateRequest)
    → validate_create text now req ≡ []
    → Sound text now req
unfolding validate_create
accepted-Sound text now req h =
    let good = accepted_channel text now req h in
    let h' = sym (if_true _ _ good) ∙ h in
    let a = both_empty (validate_recipient text req.channel req.recipient) _ h' in
    let b = both_empty (validate_shape text req) _ a.1 in
    let c = both_empty (validate_priority req.priority) _ b.1 in
    let shape = shape_fits text req b.0 in
    record {
      channel = good;
      priority = priority_fits req.priority c.0;
      recipient = recipient_fits text req.channel req.recipient a.0;
      one_of = shape.0;
      sms = λ given e.
          sms_fits text req.content
            (for_channel text req.channel "sms" req.content e (shape.1 given));
      email = λ given e.
          email_fits text req.content
            (for_channel text req.channel "email" req.content e (shape.1 given));
      push = λ given e.
          push_fits text req.content
            (for_channel text req.channel "push" req.content e (shape.1 given));
      schedule = schedule_fits now req.scheduled_at c.1;
    }
