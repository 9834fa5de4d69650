-- ===== src/Handlers/Templates.antt =====
-- internal/api/templates.go: the handlers of the templates. Parse of internal/template/template.go is
-- text/template, regexp and sort, a parameter; so is the length of a string.
pub mod Names
pub mod Owned
pub mod Rest
use event_driven_notificatio.Prelude.{
  ℕ, Bool, true, false, not, ◌||◌, String, str_eq, List, [], ◌∷◌, ◌++◌, map, Option, none, some,
  ltb, if◌then◌else◌, ◌==◌, length,
}
use event_driven_notificatio.Domain.{channel_valid}
use event_driven_notificatio.Store.{Template, Db, Reply, row, no_rows, failure, of_option}
use event_driven_notificatio.Store.Templates.{
  find_template, insert_template, bump_template_version, bump_template_version_scoped,
  deprecate_template, deprecate_template_scoped, list_active_templates,
  list_active_templates_scoped,
}
use event_driven_notificatio.Api.{FieldError, Text}
use event_driven_notificatio.Http.{
  Failure, wrapped, write_validation_problem, err_template_not_found, Response, written, refused,
  Decoded, decoded, malformed,
}
use event_driven_notificatio.Auth.{Context, is_admin, owner_from_ctx}
use event_driven_notificatio.Handlers.{
  Fetched, fetched, missing, broken, fetch, refuse, refuse_id, kept,
}
use event_driven_notificatio.Handlers.Create.{may_use}

-- templateCreateRequest
pub record TemplateRequest : Type 0 where
  pub name : String
  pub channel : String
  pub body : String

-- templateResponse
pub record TemplateResponse : Type 0 where
  pub id : ℕ
  pub name : String
  pub channel : String
  pub version : ℕ
  pub body : String
  pub required_vars : List String
  pub created_at : ℕ
  pub updated_at : ℕ
  pub deprecated_at : Option ℕ

-- Parse: the variables of a body, or its error.
pub data Parsed : Type 0 where
  parsed : List String → Parsed
  parse_error : String → Parsed

-- The identifier that the database draws, its clock, and whether the statement fails: for
-- want of the database, or by a CHECK on the length of a text.
pub record Calls : Type 0 where
  pub id : ℕ
  pub now : ℕ
  pub fails : Option Failure

-- templateRowToResponse
unfoldable pub template_row_to_response : Template → TemplateResponse
template_row_to_response t = record {
  id = t.id;
  name = t.name;
  channel = t.channel;
  version = t.version;
  body = t.body;
  required_vars = t.required_vars;
  created_at = t.created_at;
  updated_at = t.updated_at;
  deprecated_at = t.deprecated_at;
}

abbrev pub field_error : String → String → List FieldError
field_error field message = record { field = field; message = message } ∷ []

unfoldable pub invalid {ℓ} : {A : Type ℓ} → Context → List FieldError → Response A
invalid ctx errors = refused (write_validation_problem ctx.correlation_id errors)

abbrev bad_size : Text → ℕ → String → Bool
bad_size text most s = str_eq s "" || ltb most (length (text.bytes s))

-- validateTemplateCreate
unfoldable pub validate_template_create : Text → TemplateRequest → List FieldError
validate_template_create text req =
    (if bad_size text 100 req.name then field_error "name" "must be 1..100 chars" else [])
    ++ ((if channel_valid req.channel
          then []
          else field_error "channel" "must be sms | email | push")
        ++ (if bad_size text 32768 req.body
            then field_error "body" "must be 1..32768 chars"
            else []))

unfoldable pub new_template : Context → Calls → TemplateRequest → List String → Template
new_template ctx calls req required_vars = record {
  id = calls.id;
  name = req.name;
  channel = req.channel;
  version = 1;
  body = req.body;
  required_vars = required_vars;
  created_at = calls.now;
  updated_at = calls.now;
  deprecated_at = none;
  created_by = owner_from_ctx ctx;
}

-- The answer of a statement that returns the row, and the database that it leaves. An INSERT has no
-- answer without a row.
unfoldable pub row_answer :
    Context → ℕ → String → Calls → Db → Reply Template × Db → Response TemplateResponse × Db
unfolding refuse template_row_to_response
row_answer ctx status prefix calls db (reply, db') = (
  elim (fetch calls.fails reply) [
    | fetched t ↦ written status (template_row_to_response t)
    | missing ↦ refuse ctx err_template_not_found
    | broken e ↦ refuse ctx (wrapped prefix e)
  ],
  kept calls.fails db db',
)

module _ (text : Text) (parse : String → Parsed) (ctx : Context) (calls : Calls) where
  abbrev pub create_parsed : TemplateRequest → Db → Parsed → Response TemplateResponse × Db
  unfolding invalid row_answer new_template insert_template
  create_parsed req db (parse_error message) = (invalid ctx (field_error "body" message), db)
  create_parsed req db (parsed vars) =
      row_answer ctx 201 "insert template" calls db
        (insert_template (new_template ctx calls req vars) db)

  -- create
  unfoldable pub create : Decoded TemplateRequest → Db → Response TemplateResponse × Db
  unfolding invalid validate_template_create create_parsed row_answer new_template insert_template
  create (malformed message) db = (invalid ctx (field_error "body" message), db)
  create (decoded req) db = elim (validate_template_create text req) [
    | e ∷ es ↦ (invalid ctx (e ∷ es), db)
    | [] ↦ create_parsed req db (parse req.body)
  ]

  abbrev pub got : Fetched Template → Response TemplateResponse
  unfolding refuse may_use template_row_to_response
  got missing = refuse ctx err_template_not_found
  got (broken e) = refuse ctx (wrapped "get template" e)
  got (fetched t) =
      if may_use ctx t
      then written 200 (template_row_to_response t)
      else refuse ctx err_template_not_found

  -- get
  unfoldable pub get : String → Db → Response TemplateResponse
  unfolding refuse_id got find_template
  get id db = elim (ctx.parse_uuid id) [
    | none ↦ refuse_id ctx "id"
    | some i ↦ got (fetch calls.fails (of_option (find_template i db)))
  ]

  abbrev pub put_owned : ℕ → String → List String → Db → Option ℕ → Response TemplateResponse × Db
  unfolding refuse row_answer bump_template_version_scoped
  put_owned i body vars db none = (refuse ctx err_template_not_found, db)
  put_owned i body vars db (some owner) =
      row_answer ctx 200 "bump template" calls db
        (bump_template_version_scoped i body vars owner calls.now db)

  unfoldable pub put_parsed : ℕ → String → Db → Parsed → Response TemplateResponse × Db
  unfolding invalid is_admin owner_from_ctx put_owned row_answer bump_template_version
  put_parsed i body db (parse_error message) = (invalid ctx (field_error "body" message), db)
  put_parsed i body db (parsed vars) =
      if is_admin ctx
      then row_answer ctx 200 "bump template" calls db
          (bump_template_version i body vars calls.now db)
      else put_owned i body vars db (owner_from_ctx ctx)

  unfoldable pub put_decoded : ℕ → Decoded String → Db → Response TemplateResponse × Db
  unfolding invalid put_parsed
  put_decoded i (malformed message) db = (invalid ctx (field_error "body" message), db)
  put_decoded i (decoded body) db =
      if str_eq body ""
      then (invalid ctx (field_error "body" "must not be empty"), db)
      else put_parsed i body db (parse body)

  -- put
  unfoldable pub put : String → Decoded String → Db → Response TemplateResponse × Db
  unfolding refuse_id put_decoded
  put id body db = elim (ctx.parse_uuid id) [
    | none ↦ (refuse_id ctx "id", db)
    | some i ↦ put_decoded i body db
  ]
