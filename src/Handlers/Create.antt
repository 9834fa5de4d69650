-- ===== src/Handlers/Create.antt =====
-- create of internal/api/notifications.go: a single notification, with the template that it names and
-- the idempotency key that it carries. CheckRequired of internal/template/template.go is here too;
-- parsing and rendering are text/template, a parameter.
pub mod Submit
pub mod Once
pub mod Canceled
use event_driven_notificatio.Prelude.{
  ℕ, Bool, true, false, not, ◌&&◌, String, str_eq, List, [], ◌∷◌, ◌++◌, map, Option, none, some,
  if◌then◌else◌, ◌==◌, any, filter,
}
use Prim.Native.String.{◌++◌ as append}
use event_driven_notificatio.Store.{Bytes, Notification, Template, Db, of_option}
use event_driven_notificatio.Store.Notifications.{owned_by}
use event_driven_notificatio.Store.Templates.{find_template, is_active}
use event_driven_notificatio.Producers.{Encoder}
use event_driven_notificatio.Api.{
  CreateRequest, FieldError, Text, validate_create, validate_content,
}
use event_driven_notificatio.Api.Persist.{PersistCalls, transaction, new_notification}
use event_driven_notificatio.Idempotency.{
  Record, Redis, Begun, proceed, replay, conflict, in_flight, broken as begin_broken, BeginCalls,
  begin_or_replay, finalize, release,
}
use event_driven_notificatio.Http.{
  Failure, unmapped, wrapped, Problem, write_validation_problem, write_error_as_problem,
  err_template_not_found, err_idempotency_conflict, err_idempotency_in_flight, Response, written,
  refused, Decoded, decoded, malformed,
}
use event_driven_notificatio.Auth.{Context, is_admin, owner_from_ctx}
use event_driven_notificatio.Handlers.{
  NotificationResponse, row_to_response, Fetched, fetched, missing, broken, fetch, refuse,
}
use event_driven_notificatio.Handlers.Batch.{with_priority}

-- The variables of a request: a name and the JSON text of its value.
abbrev pub Variables : Type 0
Variables = List (String × String)

-- Render of internal/template/template.go, which is text/template's Parse and Execute.
pub data Rendered : Type 0 where
  rendered : String → Rendered
  render_error : String → Rendered

-- What the handler uses of text/template, encoding/json and crypto/sha256.
pub record Engine : Type 0 where
  pub render : String → Variables → Rendered
  pub canonical_hash : CreateRequest → Variables → Option String
  pub marshal : NotificationResponse → Option Bytes

-- Which calls fail and how, and the times of the commands.
pub record CreateCalls : Type 0 where
  pub persist : PersistCalls
  pub checked_at : ℕ
  pub persist_error : Failure
  pub template_fails : Option Failure
  pub hash_error : Failure
  pub begin : BeginCalls
  pub begin_error : Failure
  pub marshal_error : Failure
  pub finalized_at : ℕ
  pub finalize_fails : Bool
  pub release_fails : Bool
  pub canceled : Bool

-- CheckRequired
unfoldable pub check_required : List String → Variables → List String
check_required required variables = filter (λ r. not (any (λ v. str_eq v.0 r) variables)) required

-- The request as it is to be stored, with the version of its template, or the answer that ends it.
pub data Prepared : Type 0 where
  ready : CreateRequest → Option ℕ → Prepared
  stopped : Problem → Prepared

abbrev pub invalid : Context → List FieldError → Prepared
unfolding write_validation_problem
invalid ctx errors = stopped (write_validation_problem ctx.correlation_id errors)

abbrev pub stop : Context → Failure → Prepared
unfolding write_error_as_problem
stop ctx e = stopped (write_error_as_problem ctx.correlation_id e)

-- The owner-or-admin gate.
abbrev pub same_owner : Option ℕ → Option ℕ → Bool
same_owner none created_by = false
same_owner (some owner) created_by = owned_by owner created_by

unfoldable pub may_use : Context → Template → Bool
may_use ctx t = if is_admin ctx then true else same_owner (owner_from_ctx ctx) t.created_by

abbrev pub with_content : Context → Text → CreateRequest → ℕ → Rendered → Prepared
unfolding validate_content invalid
with_content ctx text req version (render_error message) =
    invalid ctx (record { field = "variables"; message = message } ∷ [])
with_content ctx text req version (rendered content) =
    elim (validate_content text req.channel content) [
      | [] ↦ ready (record req { content = content }) (some version)
      | e ∷ es ↦ invalid ctx (e ∷ es)
    ]

abbrev pub with_template :
    Context → Engine → Text → CreateRequest → Variables → Fetched Template → Prepared
unfolding may_use check_required with_content invalid stop
with_template ctx engine text req variables missing = stop ctx err_template_not_found
with_template ctx engine text req variables (broken e) = stop ctx (wrapped "get template" e)
with_template ctx engine text req variables (fetched t) =
    if not (may_use ctx t)
    then stop ctx err_template_not_found
    else if not (is_active t)
    then invalid ctx (record { field = "template_id"; message = "template is deprecated" } ∷ [])
    else elim (check_required t.required_vars variables) [
      | [] ↦ with_content ctx text req t.version (engine.render t.body variables)
      | m ∷ ms ↦ invalid ctx (
          map (λ v. record { field = append "variables." v; message = "missing required variable" })
            (m ∷ ms))
    ]

abbrev pub resolved :
    Context → Engine → Text → CreateCalls → CreateRequest → Variables → Db → Option ℕ → Prepared
unfolding with_template find_template
resolved ctx engine text calls req variables db none = ready req none
resolved ctx engine text calls req variables db (some t) =
    with_template ctx engine text req variables
      (fetch calls.template_fails (of_option (find_template t db)))

abbrev pub is_scheduled : Option ℕ → Bool
is_scheduled none = false
is_scheduled (some _) = true

abbrev pub checked :
    Context → Engine → Text → Bool → CreateCalls → CreateRequest → Variables → Db → Prepared
unfolding resolved validate_create invalid
checked ctx engine text scheduler_enabled calls req variables db =
    elim (validate_create text calls.checked_at req) [
      | e ∷ es ↦ invalid ctx (e ∷ es)
      | [] ↦
          if is_scheduled req.scheduled_at && not scheduler_enabled
          then invalid ctx (
              record {
                field = "scheduled_at";
                message = "scheduler is disabled on this deployment; submit without scheduled_at";
              }
              ∷ [])
          else resolved ctx engine text calls req variables db req.template_id
    ]

-- The handler up to the idempotency key.
unfoldable pub prepare :
    Context
    → Engine
    → Text
    → Bool
    → CreateCalls
    → Decoded (CreateRequest × Variables)
    → Db
    → Prepared
unfolding checked with_priority invalid
prepare ctx engine text scheduler_enabled calls (malformed message) db =
    invalid ctx (record { field = "body"; message = message } ∷ [])
prepare ctx engine text scheduler_enabled calls (decoded (req, variables)) db =
    checked ctx engine text scheduler_enabled calls (with_priority req) variables db
