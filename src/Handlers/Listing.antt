-- ===== src/Handlers/Listing.antt =====
-- internal/api/notifications_list.go: the listing with its filters and its cursors. The query that
-- the builder makes is the function `select_page`. strconv.Atoi gives a natural number here: a negative one is
-- refused as one that does not parse is.
pub mod Sorted
pub mod Pages
use event_driven_notificatio.Prelude.{
  ℕ, ◌+◌, Bool, true, false, ◌&&◌, String, str_eq, List, [], ◌∷◌, ◌++◌, map, Option, none, some,
  ltb, leb, if◌then◌else◌, ◌==◌, filter, take, length,
}
use event_driven_notificatio.Domain.{status_text, status_valid, channel_valid}
use event_driven_notificatio.Store.{Notification, Db}
use event_driven_notificatio.Store.Notifications.{owned_by}
use event_driven_notificatio.Store.Batches.{earlier, sort_key, newest_first}
use event_driven_notificatio.Api.{FieldError}
use event_driven_notificatio.Http.{Failure, write_validation_problem, Response, written, refused}
use event_driven_notificatio.Auth.{Context, is_admin, owner_from_ctx}
use event_driven_notificatio.Handlers.{NotificationResponse, row_to_response, refuse}

abbrev pub default_page_size : ℕ
default_page_size = 50

abbrev pub max_page_size : ℕ
max_page_size = 200

-- The place after which a page begins; none is the zero cursor, the start.
abbrev pub Cursor : Type 0
Cursor = Option (ℕ × ℕ)

-- strconv.Atoi, time.Parse, and the JSON and base64 of a cursor.
pub record Parsers : Type 0 where
  pub atoi : String → Option ℕ
  pub parse_time : String → Option ℕ
  pub encode : ℕ × ℕ → String
  pub decode : String → Option Cursor

-- The parameters of the query.
pub record ListQuery : Type 0 where
  pub limit : String
  pub cursor : String
  pub status : String
  pub channel : String
  pub batch_id : String
  pub created_after : String
  pub created_before : String

-- listResponse
pub record ListResponse : Type 0 where
  pub items : List NotificationResponse
  pub next_cursor : Option String
  pub has_more : Bool

-- decodeCursor
unfoldable pub decode_cursor : Parsers → String → Option Cursor
decode_cursor parsers s = if str_eq s "" then some none else parsers.decode s

-- toResponse of a scanRow, which leaves the template out.
unfoldable pub scan_to_response : Notification → NotificationResponse
unfolding row_to_response
scan_to_response n = record (row_to_response n) { template_id = none; template_version = none }

abbrev pub capped : Option ℕ → Option ℕ
capped none = none
capped (some n) =
    if n == 0 then none else if ltb max_page_size n then some max_page_size else some n

-- The size of a page.
unfoldable pub page_limit : Parsers → String → Option ℕ
page_limit parsers raw = if str_eq raw "" then some default_page_size else capped (parsers.atoi raw)

-- A clause of the WHERE: none for a parameter that is refused.
abbrev pub Clause : Type 0
Clause = Option (Notification → Bool)

abbrev pub parsed_clause : (ℕ → Notification → Bool) → Option ℕ → Clause
parsed_clause p none = none
parsed_clause p (some v) = some (p v)

-- A parameter that is left out restricts nothing.
abbrev pub clause : String → Clause → Clause
clause raw c = if str_eq raw "" then some (λ n. true) else c

abbrev pub status_clause : String → Clause
status_clause s = if status_valid s then some (λ n. str_eq (status_text n.status) s) else none

abbrev pub channel_clause : String → Clause
channel_clause c = if channel_valid c then some (λ n. str_eq n.channel c) else none

abbrev pub field_error : String → String → FieldError
field_error field message = record { field = field; message = message }

-- The clauses in the order in which they are built, each with the error of its parameter.
unfoldable pub clauses : Context → Parsers → ListQuery → List (FieldError × Clause)
clauses ctx parsers q =
    (field_error "status" "invalid", clause q.status (status_clause q.status))
    ∷ (field_error "channel" "invalid", clause q.channel (channel_clause q.channel))
    ∷ (
      field_error "batch_id" "must be a UUID",
      clause q.batch_id (parsed_clause (λ i n. owned_by i n.batch_id) (ctx.parse_uuid q.batch_id)),
    )
    ∷ (
      field_error "created_after" "must be RFC3339",
      clause q.created_after
          (parsed_clause (λ t n. leb t n.created_at) (parsers.parse_time q.created_after)),
    )
    ∷ (
      field_error "created_before" "must be RFC3339",
      clause q.created_before
          (parsed_clause (λ t n. ltb n.created_at t) (parsers.parse_time q.created_before)),
    )
    ∷ []

-- All clauses together, or the error of the first that is refused.
pub data Built : Type 0 where
  built : (Notification → Bool) → Built
  bad : FieldError → Built

abbrev pub and_clause : (Notification → Bool) → Built → Built
and_clause p (built q) = built (λ n. p n && q n)
and_clause p (bad e) = bad e

unfoldable pub conjunction : List (FieldError × Clause) → Built
conjunction [] = built (λ n. true)
conjunction ((e, c) ∷ cs) = elim c [ none ↦ bad e | some p ↦ and_clause p (conjunction cs) ]

-- (created_at, id) < (ts, id)
unfoldable pub after_cursor : Cursor → Notification → Bool
unfolding earlier
after_cursor none n = true
after_cursor (some c) n = earlier (sort_key n) c

-- SELECT ... WHERE p AND keyset ORDER BY created_at DESC, id DESC LIMIT limit + 1
unfoldable pub select_page : (Notification → Bool) → ℕ → Cursor → Db → List Notification
unfolding newest_first after_cursor
select_page p limit cur db =
    take (limit + 1) (newest_first (filter (λ n. p n && after_cursor cur n) db.notifications))

unfoldable pub last_of {ℓ} : {A : Type ℓ} → List A → Option A
last_of [] = none
last_of (x ∷ xs) = elim xs [ [] ↦ some x | _ ∷ _ ↦ last_of xs ]

abbrev pub cursor_text : Parsers → Option Notification → Option String
cursor_text parsers none = none
cursor_text parsers (some n) = some (parsers.encode (sort_key n))

-- The page that is answered: the row beyond the limit only tells that there are more.
unfoldable pub page_of : Parsers → ℕ → List Notification → ListResponse
unfolding scan_to_response last_of
page_of parsers limit out =
    if ltb limit (length out)
    then record {
      items = map scan_to_response (take limit out);
      next_cursor = cursor_text parsers (last_of (take limit out));
      has_more = true;
    }
    else record { items = map scan_to_response out; next_cursor = none; has_more = false }

-- `fails` is the error of the query, of a scan or of the iteration, wrapped as its step wraps it.
module _ (ctx : Context) (parsers : Parsers) (fails : Option Failure) (q : ListQuery)
    (db : Db) where
  unfoldable pub answer_rows : (Notification → Bool) → ℕ → Cursor → Response ListResponse
  unfolding select_page page_of refuse
  answer_rows p limit cur = elim fails [
    | none ↦ written 200 (page_of parsers limit (select_page p limit cur db))
    | some e ↦ refuse ctx e
  ]

  unfoldable pub answer_built : (Notification → Bool) → ℕ → Cursor → Built → Response ListResponse
  unfolding answer_rows
  answer_built own limit cur (bad e) =
      refused (write_validation_problem ctx.correlation_id (e ∷ []))
  answer_built own limit cur (built p) = answer_rows (λ n. own n && p n) limit cur

  unfoldable pub answer_owner : ℕ → Cursor → Option ℕ → Response ListResponse
  unfolding answer_built clauses conjunction
  answer_owner limit cur none =
      written 200 (record { items = []; next_cursor = none; has_more = false })
  answer_owner limit cur (some owner) =
      answer_built (λ n. owned_by owner n.created_by) limit cur
        (conjunction (clauses ctx parsers q))

  unfoldable pub answer_cursor : ℕ → Option Cursor → Response ListResponse
  unfolding is_admin owner_from_ctx answer_built answer_owner clauses conjunction
  answer_cursor limit none =
      refused (write_validation_problem ctx.correlation_id (field_error "cursor" "malformed" ∷ []))
  answer_cursor limit (some cur) =
      if is_admin ctx
      then answer_built (λ n. true) limit cur (conjunction (clauses ctx parsers q))
      else answer_owner limit cur (owner_from_ctx ctx)

  -- list
  unfoldable pub list : Response ListResponse
  unfolding page_limit decode_cursor answer_cursor
  list = elim (page_limit parsers q.limit) [
    | none ↦ refused (
        write_validation_problem ctx.correlation_id
          (field_error "limit" "must be a positive integer" ∷ []))
    | some limit ↦ answer_cursor limit (decode_cursor parsers q.cursor)
  ]
