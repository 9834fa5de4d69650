-- ===== src/Handlers/Templates/Rest.antt =====
-- internal/api/templates.go: the handlers that deprecate a template and list the templates.
use event_driven_notificatio.Prelude.{
  ℕ, Bool, true, String, str_eq, List, [], map, Option, none, some, if◌then◌else◌, ◌==◌,
}
use event_driven_notificatio.Store.{Template, Db}
use event_driven_notificatio.Store.Templates.{
  deprecate_template, deprecate_template_scoped, list_active_templates,
  list_active_templates_scoped,
}
use event_driven_notificatio.Http.{wrapped, err_template_not_found, Response, written}
use event_driven_notificatio.Auth.{Context, is_admin, owner_from_ctx}
use event_driven_notificatio.Handlers.{refuse, refuse_id}
use event_driven_notificatio.Handlers.Templates.{
  TemplateResponse, template_row_to_response, Calls, invalid, field_error,
}
use event_driven_notificatio.Handlers.Listing.{capped}

module _ (ctx : Context) (calls : Calls) where
  -- The answer 204 has no body.
  abbrev pub deprecated_scoped : Db → ℕ × Db → Response (Unit {0}) × Db
  unfolding refuse
  deprecated_scoped db (n, db') = elim calls.fails [
    | some e ↦ (refuse ctx (wrapped "deprecate template" e), db)
    | none ↦ if n == 0 then (refuse ctx err_template_not_found, db') else (written 204 tt, db')
  ]

  abbrev pub del_owned : ℕ → Db → Option ℕ → Response (Unit {0}) × Db
  unfolding refuse deprecated_scoped deprecate_template_scoped
  del_owned i db none = (refuse ctx err_template_not_found, db)
  del_owned i db (some owner) =
      deprecated_scoped db (deprecate_template_scoped i owner calls.now db)

  abbrev pub deprecated_any : ℕ → Db → Response (Unit {0}) × Db
  unfolding refuse deprecate_template
  deprecated_any i db = elim calls.fails [
    | some e ↦ (refuse ctx (wrapped "deprecate template" e), db)
    | none ↦ (written 204 tt, deprecate_template i calls.now db)
  ]

  -- del
  unfoldable pub del : String → Db → Response (Unit {0}) × Db
  unfolding refuse_id is_admin owner_from_ctx deprecated_any del_owned
  del id db = elim (ctx.parse_uuid id) [
    | none ↦ (refuse_id ctx "id", db)
    | some i ↦ if is_admin ctx then deprecated_any i db else del_owned i db (owner_from_ctx ctx)
  ]

  abbrev pub owned_templates : ℕ → Db → Option ℕ → List Template
  unfolding list_active_templates_scoped
  owned_templates limit db none = []
  owned_templates limit db (some owner) = list_active_templates_scoped owner limit db

  -- The query of an unknown caller is not sent.
  abbrev pub sends_query : Option ℕ → Bool
  sends_query none = is_admin ctx
  sends_query (some _) = true

  abbrev pub list_answer : Bool → List Template → Response (List TemplateResponse)
  unfolding refuse template_row_to_response
  list_answer sent rows = elim calls.fails [
    | none ↦ written 200 (map template_row_to_response rows)
    | some e ↦
        if sent
        then refuse ctx (wrapped "list templates" e)
        else written 200 (map template_row_to_response rows)
  ]

  abbrev pub limited :
      (ℕ → Response (List TemplateResponse)) → Option ℕ → Response (List TemplateResponse)
  unfolding invalid
  limited next none = invalid ctx (field_error "limit" "must be a positive integer")
  limited next (some limit) = next limit

  -- list, given strconv.Atoi; the sizes of a page are those of the notifications.
  unfoldable pub list : (String → Option ℕ) → String → Db → Response (List TemplateResponse)
  unfolding invalid is_admin owner_from_ctx list_answer owned_templates list_active_templates
  list atoi raw db =
      limited
        (λ limit. list_answer (sends_query (owner_from_ctx ctx)) (
          if is_admin ctx
          then list_active_templates limit db
          else owned_templates limit db (owner_from_ctx ctx)))
        (if str_eq raw "" then some 50 else capped (atoi raw))
