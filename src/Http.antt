-- ===== src/Http.antt =====
-- internal/api/errors.go and internal/notification/errors.go: the errors of a handler and the
-- problem that each becomes, and what a handler writes.
use event_driven_notificatio.Prelude.{
  ℕ, String, List, [], Option, none, some, str_eq, if◌then◌else◌,
}
use Prim.Native.String.{◌++◌ as append}
use event_driven_notificatio.Api.{FieldError}

-- The errors that errors.Is tells apart, and every other.
pub data Sentinel : Type 0 where
  not_found template_not_found idempotency_conflict idempotency_in_flight : Sentinel
  invalid_state validation unknown_channel template_render rate_limited : Sentinel
  deadline_exceeded canceled unmapped : Sentinel

-- An error: the sentinel that it wraps and its text.
pub record Failure : Type 0 where
  pub sentinel : Sentinel
  pub text : String

-- fmt.Errorf("prefix: %w", err)
unfoldable pub wrapped : String → Failure → Failure
wrapped prefix e = record e { text = append prefix (append ": " e.text) }

-- Problem, with the errors[] of its Extra and the Retry-After header that is sent with it.
pub record Problem : Type 0 where
  pub kind : String
  pub title : String
  pub status : ℕ
  pub detail : String
  pub instance_path : String
  pub errors : List FieldError
  pub retry_after : Option String

unfoldable pub problem : String → String → ℕ → String → Problem
problem kind title status detail = record {
  kind = kind;
  title = title;
  status = status;
  detail = detail;
  instance_path = "";
  errors = [];
  retry_after = none;
}

-- WriteProblemFull: the instance names the request.
unfoldable pub write_problem_full : String → Problem → Problem
write_problem_full correlation_id p =
    if str_eq p.instance_path ""
    then if str_eq correlation_id ""
      then p
      else record p { instance_path = append "/requests/" correlation_id }
    else p

-- WriteValidationProblem
unfoldable pub write_validation_problem : String → List FieldError → Problem
unfolding write_problem_full problem
write_validation_problem correlation_id errors =
    write_problem_full correlation_id
      (record (problem "/problems/validation" "Validation Failed" 400
        "one or more fields failed validation") { errors = errors })

-- The problem of an error, before its instance.
unfoldable pub problem_of : Sentinel → String → Problem
unfolding problem
problem_of not_found text = problem "/problems/not-found" "Not Found" 404 text
problem_of template_not_found text = problem "/problems/not-found" "Not Found" 404 text
problem_of idempotency_conflict text =
    problem "/problems/idempotency-conflict" "Idempotency-Key Conflict" 409
      "Idempotency-Key reused with a different request body"
problem_of idempotency_in_flight text =
    record (problem "/problems/idempotency-in-flight" "Idempotent Request In Flight" 409
      "an earlier request with this Idempotency-Key is still being processed") {
        retry_after = some "1";
      }
problem_of invalid_state text =
    problem "/problems/invalid-state" "Invalid State Transition" 409 text
problem_of validation text = problem "/problems/validation" "Validation Failed" 400 text
problem_of unknown_channel text = problem "/problems/validation" "Validation Failed" 400 text
problem_of template_render text = problem "/problems/validation" "Validation Failed" 400 text
problem_of rate_limited text =
    record (problem "/problems/rate-limited" "Too Many Requests" 429 text) {
      retry_after = some "1";
    }
problem_of deadline_exceeded text = problem "/problems/timeout" "Request Timeout" 504 text
problem_of canceled text = problem "/problems/timeout" "Request Timeout" 504 text
problem_of unmapped text =
    problem "about:blank" "Internal Server Error" 500 "an unexpected error occurred"

-- WriteErrorAsProblem
unfoldable pub write_error_as_problem : String → Failure → Problem
unfolding problem_of write_problem_full
write_error_as_problem correlation_id e =
    write_problem_full correlation_id (problem_of e.sentinel e.text)

abbrev pub err_not_found : Failure
err_not_found = record { sentinel = not_found; text = "notification: not found" }

abbrev pub err_template_not_found : Failure
err_template_not_found = record {
  sentinel = template_not_found;
  text = "notification: template not found";
}

abbrev pub err_idempotency_conflict : Failure
err_idempotency_conflict = record {
  sentinel = idempotency_conflict;
  text = "notification: idempotency key conflict";
}

abbrev pub err_idempotency_in_flight : Failure
err_idempotency_in_flight = record {
  sentinel = idempotency_in_flight;
  text = "notification: idempotency request in flight";
}

abbrev pub err_invalid_state : Failure
err_invalid_state = record {
  sentinel = invalid_state;
  text = "notification: invalid state transition";
}

-- What a handler writes: a body under a status, or a problem.
pub data Response {ℓ} (A : Type ℓ) : Type ℓ where
  written : ℕ → A → Response A
  refused : Problem → Response A

abbrev pub status_code {ℓ} : {A : Type ℓ} → Response A → ℕ
status_code (written s a) = s
status_code (refused p) = p.status

-- The result of a chain of calls of which the first that fails ends it.
pub data Outcome {ℓ} (A : Type ℓ) : Type ℓ where
  done : A → Outcome A
  failed : Failure → Outcome A

infixl 20 ◌>>=◌
abbrev pub ◌>>=◌ {ℓ κ} : {A : Type ℓ} {B : Type κ} → Outcome A → (A → Outcome B) → Outcome B
done a >>= f = f a
failed e >>= f = failed e

-- A call that fails or has its result.
abbrev pub call {ℓ} : {A : Type ℓ} → Option Failure → A → Outcome A
call none a = done a
call (some e) a = failed e

unfoldable pub in_call {ℓ} : {A : Type ℓ} → String → Outcome A → Outcome A
unfolding wrapped
in_call prefix (done a) = done a
in_call prefix (failed e) = failed (wrapped prefix e)

-- The JSON body of a request: json.Decoder with DisallowUnknownFields accepts it, or has an error.
pub data Decoded {ℓ} (A : Type ℓ) : Type ℓ where
  decoded : A → Decoded A
  malformed : String → Decoded A
