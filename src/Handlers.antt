-- ===== src/Handlers.antt =====
-- The handlers of the notifications API (internal/api/notifications_batch.go and, in the children,
-- notifications.go and notifications_list.go): who may see and cancel what. A handler gets the context of the request, the
-- database, and which of its calls fail.
pub mod Access
pub mod Cancel
pub mod Batch
pub mod Create
pub mod Listing
pub mod Templates
use event_driven_notificatio.Prelude.{
  ℕ, Bool, true, false, String, List, [], ◌∷◌, Option, none, some, ◌==◌, ◌&&◌, if◌then◌else◌,
  filter, map,
}
use event_driven_notificatio.Domain.{Status, priority_from_int}
use event_driven_notificatio.Store.{
  Bytes, Notification, Db, Reply, row, no_rows, failure, of_option,
}
use event_driven_notificatio.Store.Notifications.{
  find, owned_by, cancel_pending_or_queued, cancel_pending_or_queued_scoped,
}
use event_driven_notificatio.Api.{FieldError}
use event_driven_notificatio.Http.{
  Failure, unmapped, wrapped, write_validation_problem, write_error_as_problem, err_not_found,
  err_invalid_state, Response, written, refused,
}
use event_driven_notificatio.Auth.{Context, is_admin, owner_from_ctx}

-- notificationResponse
pub record NotificationResponse : Type 0 where
  pub id : ℕ
  pub batch_id : Option ℕ
  pub channel : String
  pub recipient : String
  pub content : String
  pub template_id : Option ℕ
  pub template_version : Option ℕ
  pub priority : String
  pub status : Status
  pub attempt_count : ℕ
  pub last_error : Option Bytes
  pub scheduled_at : Option ℕ
  pub created_at : ℕ
  pub updated_at : ℕ
  pub sent_at : Option ℕ
  pub correlation_id : String

-- rowToResponse
unfoldable pub row_to_response : Notification → NotificationResponse
row_to_response n = record {
  id = n.id;
  batch_id = n.batch_id;
  channel = n.channel;
  recipient = n.recipient;
  content = n.content;
  template_id = n.template_id;
  template_version = n.template_version;
  priority = priority_from_int n.priority;
  status = n.status;
  attempt_count = n.attempt_count;
  last_error = n.last_error;
  scheduled_at = n.scheduled_at;
  created_at = n.created_at;
  updated_at = n.updated_at;
  sent_at = n.sent_at;
  correlation_id = n.correlation_id;
}

-- What a handler has after a `:one` query: the row, pgx.ErrNoRows, or another error.
pub data Fetched {ℓ} (A : Type ℓ) : Type ℓ where
  fetched : A → Fetched A
  missing : Fetched A
  broken : Failure → Fetched A

-- The answer of a query, unless the call fails.
abbrev pub fetch {ℓ} : {A : Type ℓ} → Option Failure → Reply A → Fetched A
fetch (some e) reply = broken e
fetch none (row a) = fetched a
fetch none no_rows = missing
fetch none failure = broken (record { sentinel = unmapped; text = "constraint" })

-- GetNotificationByIDScoped: WHERE id = $1 AND created_by = $2
abbrev pub if_owned : ℕ → Option Notification → Option Notification
if_owned owner none = none
if_owned owner (some n) = if owned_by owner n.created_by then some n else none

unfoldable pub find_scoped : ℕ → ℕ → Db → Option Notification
find_scoped i owner db = if_owned owner (find i db)

-- The calls of a handler: which of them fail, and the clock of the database.
pub record Calls : Type 0 where
  pub fails : Option Failure
  pub reread_fails : Option Failure
  pub now : ℕ

-- The error that a handler answers with.
unfoldable pub refuse {ℓ} : {A : Type ℓ} → Context → Failure → Response A
refuse ctx e = refused (write_error_as_problem ctx.correlation_id e)

unfoldable pub refuse_id {ℓ} : {A : Type ℓ} → Context → String → Response A
refuse_id ctx field = refused (
    write_validation_problem ctx.correlation_id
      (record { field = field; message = "must be a UUID" } ∷ []))

abbrev pub get_answer : Context → Fetched Notification → Response NotificationResponse
unfolding refuse row_to_response
get_answer ctx (fetched n) = written 200 (row_to_response n)
get_answer ctx missing = refuse ctx err_not_found
get_answer ctx (broken e) = refuse ctx (wrapped "get notification" e)

abbrev pub get_owned : Context → Calls → ℕ → Db → Option ℕ → Response NotificationResponse
unfolding find_scoped refuse
get_owned ctx calls i db none = refuse ctx err_not_found
get_owned ctx calls i db (some owner) =
    get_answer ctx (fetch calls.fails (of_option (find_scoped i owner db)))

abbrev pub get_parsed : Context → Calls → Db → Option ℕ → Response NotificationResponse
unfolding is_admin owner_from_ctx refuse_id
get_parsed ctx calls db none = refuse_id ctx "id"
get_parsed ctx calls db (some i) =
    if is_admin ctx
    then get_answer ctx (fetch calls.fails (of_option (find i db)))
    else get_owned ctx calls i db (owner_from_ctx ctx)

-- get
unfoldable pub get : Context → Calls → String → Db → Response NotificationResponse
unfolding is_admin owner_from_ctx refuse_id find_scoped refuse row_to_response
get ctx calls id db = get_parsed ctx calls db (ctx.parse_uuid id)

-- After pgx.ErrNoRows: whether there is such a row is read again.
abbrev pub not_cancelled : Context → Fetched Notification → Response NotificationResponse
unfolding is_admin refuse
not_cancelled ctx missing = refuse ctx err_not_found
not_cancelled ctx _ =
    if is_admin ctx
    then refuse ctx (record err_invalid_state {
      text = "notification: invalid state transition: cannot cancel from current state";
    })
    else refuse ctx err_not_found

abbrev pub cancel_answer :
    Context → Calls → ℕ → Db → Fetched Notification → Response NotificationResponse
unfolding refuse row_to_response
cancel_answer ctx calls i db (fetched n) = written 200 (row_to_response n)
cancel_answer ctx calls i db missing =
    not_cancelled ctx (fetch calls.reread_fails (of_option (find i db)))
cancel_answer ctx calls i db (broken e) = refuse ctx (wrapped "cancel" e)

-- A statement that fails leaves the database as it was.
abbrev pub kept : Option Failure → Db → Db → Db
kept none db db' = db'
kept (some e) db db' = db

abbrev pub after_cancel :
    Context → Calls → ℕ → Db → Reply Notification × Db → Response NotificationResponse × Db
after_cancel ctx calls i db (reply, db') =
    let db1 = kept calls.fails db db' in
    (cancel_answer ctx calls i db1 (fetch calls.fails reply), db1)

abbrev pub cancel_owned : Context → Calls → ℕ → Db → Option ℕ → Response NotificationResponse × Db
unfolding refuse
cancel_owned ctx calls i db none = (refuse ctx err_not_found, db)
cancel_owned ctx calls i db (some owner) =
    after_cancel ctx calls i db (cancel_pending_or_queued_scoped i owner calls.now db)

abbrev pub cancel_parsed : Context → Calls → Db → Option ℕ → Response NotificationResponse × Db
unfolding is_admin owner_from_ctx refuse_id
cancel_parsed ctx calls db none = (refuse_id ctx "id", db)
cancel_parsed ctx calls db (some i) =
    if is_admin ctx
    then after_cancel ctx calls i db (cancel_pending_or_queued i calls.now db)
    else cancel_owned ctx calls i db (owner_from_ctx ctx)

-- cancel
unfoldable pub cancel : Context → Calls → String → Db → Response NotificationResponse × Db
unfolding is_admin owner_from_ctx refuse_id refuse row_to_response
cancel ctx calls id db = cancel_parsed ctx calls db (ctx.parse_uuid id)
