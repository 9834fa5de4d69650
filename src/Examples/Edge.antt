-- ===== src/Examples/Edge.antt =====
-- Runs of the create endpoint.
use event_driven_notificatio.Prelude.{◌≡◌, refl, false, [], ◌∷◌, none, some}
use event_driven_notificatio.Api.{CreateRequest, Text, validate_create}
use event_driven_notificatio.Api.Valid.{Sound, accepted-Sound}
use event_driven_notificatio.Api.Persist.{PersistCalls}

-- "+90" and "hi" in bytes.
abbrev pub text : Text
text = record { bytes = λ s. 43 ∷ 57 ∷ 48 ∷ []; is_address = λ s. false }

abbrev pub request : CreateRequest
request = record {
  channel = "sms";
  recipient = "+90";
  content = "hi!";
  priority = "";
  template_id = none;
  scheduled_at = some 500;
}

pub valid_example : validate_create text 100 request ≡ []
unfolding validate_create event_driven_notificatio.Api.validate_recipient
    event_driven_notificatio.Api.validate_shape event_driven_notificatio.Api.validate_content
    event_driven_notificatio.Api.validate_priority event_driven_notificatio.Api.validate_schedule
    event_driven_notificatio.Api.e164 event_driven_notificatio.Api.all_digits
    event_driven_notificatio.Domain.channel_valid event_driven_notificatio.Domain.priority_valid
valid_example = refl

accepted-Sound_example : Sound text 100 request
accepted-Sound_example = accepted-Sound text 100 request valid_example

abbrev pub persist_calls : PersistCalls
persist_calls = record {
  id = 2;
  outbox_id = 12;
  clock = 100;
  now = 100;
  owner = some 7;
  inject = λ hs. hs;
  begin_fails = false;
  insert_fails = false;
  outbox_fails = false;
  scheduled_fails = false;
  commit_fails = false;
}
