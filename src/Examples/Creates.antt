-- ===== src/Examples/Creates.antt =====
-- Runs of the create handler with an idempotency key, and of the listing.
use event_driven_notificatio.Prelude.{
  ℕ, ◌≡◌, refl, Bool, true, false, str_eq, [], ◌∷◌, ◌++◌, none, some, arith, if◌then◌else◌,
}
use event_driven_notificatio.Prelude.Table.{find_row}
use event_driven_notificatio.Store.{Db}
use event_driven_notificatio.Store.Notifications.{find, insert_notification}
use event_driven_notificatio.Api.{CreateRequest}
use event_driven_notificatio.Api.Persist.{persist, transaction, new_notification, second_row}
use event_driven_notificatio.Idempotency.{proceed, begin_or_replay, default_ttl}
use event_driven_notificatio.Http.{err_idempotency_conflict, unmapped, written, Decoded, decoded}
use event_driven_notificatio.Auth.{owner_from_ctx}
use event_driven_notificatio.Handlers.{refuse, row_to_response}
use event_driven_notificatio.Handlers.Create.{Variables, Engine, CreateCalls, rendered, prepare}
use event_driven_notificatio.Handlers.Create.Submit.{
  persist_calls as persist_given, slot_owner, create,
}
use event_driven_notificatio.Handlers.Create.Once.{Accepted, create_once}
use event_driven_notificatio.Handlers.Create.Canceled.{canceled_forgets}
use event_driven_notificatio.Examples.Data.{db_of, waiting, encoder}
use event_driven_notificatio.Examples.Edge.{text, request, persist_calls}
use event_driven_notificatio.Examples.Keys.{redis, redis_laws, calls_at, calls_work, empty, Slots}
use event_driven_notificatio.Examples.Handlers.{stranger}

abbrev engine : Engine
engine = record {
  render = λ body variables. rendered body;
  canonical_hash = λ req variables. some "h";
  marshal = λ r. some (123 ∷ []);
}

abbrev create_calls : ℕ → Bool → CreateCalls
create_calls now canceled = record {
  persist = persist_calls;
  checked_at = 100;
  persist_error = record { sentinel = unmapped; text = "down" };
  template_fails = none;
  hash_error = record { sentinel = unmapped; text = "down" };
  begin = calls_at now;
  begin_error = record { sentinel = unmapped; text = "down" };
  marshal_error = record { sentinel = unmapped; text = "down" };
  finalized_at = now;
  finalize_fails = false;
  release_fails = false;
  canceled = canceled;
}

abbrev body : Decoded (CreateRequest × Variables)
body = decoded (record request { priority = "normal" }, [])

abbrev accepted_request : CreateRequest
accepted_request = record request { priority = "normal" }

unfoldable accepted :
    (now : ℕ) (canceled : Bool) (db : Db)
    → Accepted stranger engine text true (create_calls now canceled) body db
unfolding prepare event_driven_notificatio.Handlers.Batch.with_priority
    event_driven_notificatio.Api.validate_create event_driven_notificatio.Api.validate_recipient
    event_driven_notificatio.Api.validate_shape event_driven_notificatio.Api.validate_content
    event_driven_notificatio.Api.validate_priority event_driven_notificatio.Api.validate_schedule
    event_driven_notificatio.Api.e164 event_driven_notificatio.Api.all_digits
    event_driven_notificatio.Domain.channel_valid event_driven_notificatio.Domain.priority_valid
accepted now canceled db = record {
  request = accepted_request;
  version = none;
  hash = "h";
  prepared = refl;
  hashed = refl;
}

abbrev slots : Slots
slots =
    (begin_or_replay redis (calls_at 5)
      (slot_owner redis encoder engine stranger (create_calls 5 false) "k") "k" "h" empty).1

begun :
    (canceled : Bool)
    → begin_or_replay redis
        (calls_at 5)
        (slot_owner redis encoder engine stranger (create_calls 5 canceled) "k")
        "k"
        "h"
        empty
      ≡ (proceed, slots)
unfolding begin_or_replay slot_owner owner_from_ctx event_driven_notificatio.Idempotency.set_nx
    event_driven_notificatio.Idempotency.after_claim event_driven_notificatio.Idempotency.key
begun canceled = refl

abbrev given : event_driven_notificatio.Api.Persist.PersistCalls
given = record persist_calls { owner = some 9 }

abbrev after : Db
after = persist encoder given accepted_request "k" "c" none (db_of waiting)

stored :
    (canceled : Bool)
    → transaction encoder
        (persist_given redis encoder engine stranger (create_calls 5 canceled) "k")
        accepted_request
        "k"
        "c"
        none
        (db_of waiting)
      ≡ some after
unfolding persist transaction persist_given owner_from_ctx insert_notification find find_row
    second_row new_notification
stored canceled = refl

create_once_example :
    let first =
      create redis encoder engine stranger
        (create_calls 5 false)
        "k"
        text
        true
        body
        (db_of waiting)
        empty in
    let again =
      create redis encoder engine stranger
        (create_calls 9 false)
        "k"
        text
        true
        body
        after
        first.2 in
    (first.0 ≡ written 201 (record { replayed = false; body = (123 ∷ []) ++ (10 ∷ []) }))
    × (first.1 ≡ after)
    × (again ≡ (
      if str_eq "h" "h"
          then written 201 (record { replayed = true; body = 123 ∷ [] })
          else refuse stranger err_idempotency_conflict,
      after,
      first.2,
    ))
unfolding accepted
create_once_example =
    create_once redis encoder engine text true "k" refl redis_laws stranger stranger
      (create_calls 5 false) (create_calls 9 false) body body (db_of waiting) after empty slots
      (123 ∷ []) (accepted 5 false (db_of waiting)) (accepted 9 false after) (begun false)
      (stored false) refl refl refl refl (calls_work 9) (omega arith) (omega arith)

canceled_forgets_example :
    let first =
      create redis encoder engine stranger
        (create_calls 5 true)
        "k"
        text
        true
        body
        (db_of waiting)
        empty in
    (first.1 ≡ after)
    × ((begin_or_replay redis
          (calls_at 9)
          (slot_owner redis encoder engine stranger (create_calls 5 true) "k")
          "k"
          "g"
          first.2).0
        ≡ proceed)
unfolding accepted
canceled_forgets_example =
    canceled_forgets redis redis_laws encoder engine text true "k" refl stranger
      (create_calls 5 true) body (db_of waiting) after empty slots (123 ∷ [])
      (accepted 5 true (db_of waiting)) (begun true) (stored true) refl refl refl (calls_at 9) "g"
      (calls_work 9)
