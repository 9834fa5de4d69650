-- ===== src/Store/Templates.antt =====
-- internal/store/gen/templates.sql.go: the statements on the templates table.
use event_driven_notificatio.Prelude.{
  ℕ, ◌+◌, Bool, true, false, ◌&&◌, ◌||◌, not, List, [], ◌∷◌, Option, none, some, ltb, if◌then◌else◌,
  ◌==◌, filter, take, any, String, str_eq,
}
use event_driven_notificatio.Prelude.Table.{find_row, update_row}
use event_driven_notificatio.Store.{Template, Db, Reply, row, no_rows, failure}
use event_driven_notificatio.Store.Notifications.{owned_by}

abbrev pub key_of : Template → ℕ
key_of t = t.id

-- GetTemplateByID
unfoldable pub find_template : ℕ → Db → Option Template
find_template i db = find_row key_of i db.templates

abbrev pub is_active : Template → Bool
is_active t = elim t.deprecated_at [ none ↦ true | some _ ↦ false ]

abbrev pub is_active_of : ℕ → Template → Bool
is_active_of owner t = owned_by owner t.created_by && is_active t

-- UNIQUE (name, channel, version), against the other rows.
unfoldable pub is_taken : ℕ → String → String → ℕ → Db → Bool
is_taken i name channel version db =
    any
      (λ t.
        not (t.id == i)
        && (str_eq t.name name && (str_eq t.channel channel && (t.version == version))))
      db.templates

-- InsertTemplate, under the id that the database draws; the unique constraint may refuse it.
unfoldable pub insert_template : Template → Db → Reply Template × Db
unfolding is_taken
insert_template t db =
    if is_taken t.id t.name t.channel t.version db
    then (failure, db)
    else (row t, record db { templates = t ∷ db.templates })

abbrev pub to_bumped : String → List String → ℕ → Template → Template
to_bumped body required_vars now t = record t {
  body = body;
  required_vars = required_vars;
  version = t.version + 1;
  updated_at = now;
}

abbrev pub to_deprecated : ℕ → Template → Template
to_deprecated now t = record t { deprecated_at = some now }

-- The UPDATE of one template; a violation of the unique constraint fails the statement. A CHECK on a
-- length (migration 0003) counts characters: that it refuses the row is one of the failures of the
-- call that the handlers are given.
unfoldable pub bumped :
    (Template → Bool) → (Template → Template) → Db → Option Template → Reply Template × Db
unfolding is_taken
bumped p f db none = (no_rows, db)
bumped p f db (some t) =
    if p t
    then if is_taken t.id t.name t.channel (t.version + 1) db
      then (failure, db)
      else (row (f t), record db { templates = update_row key_of t.id p f db.templates })
    else (no_rows, db)

-- BumpTemplateVersion
unfoldable pub bump_template_version : ℕ → String → List String → ℕ → Db → Reply Template × Db
unfolding find_template bumped
bump_template_version i body required_vars now db =
    bumped is_active (to_bumped body required_vars now) db (find_template i db)

-- BumpTemplateVersionScoped
unfoldable pub bump_template_version_scoped :
    ℕ → String → List String → ℕ → ℕ → Db → Reply Template × Db
unfolding find_template bumped
bump_template_version_scoped i body required_vars owner now db =
    bumped (is_active_of owner) (to_bumped body required_vars now) db (find_template i db)

-- DeprecateTemplate
unfoldable pub deprecate_template : ℕ → ℕ → Db → Db
deprecate_template i now db = record db {
  templates = update_row key_of i is_active (to_deprecated now) db.templates;
}

abbrev pub affected : (Template → Bool) → Option Template → ℕ
affected p none = 0
affected p (some t) = if p t then 1 else 0

-- DeprecateTemplateScoped, with the number of rows that it changed.
unfoldable pub deprecate_template_scoped : ℕ → ℕ → ℕ → Db → ℕ × Db
unfolding find_template
deprecate_template_scoped i owner now db = (
  affected (is_active_of owner) (find_template i db),
  record db {
    templates = update_row key_of i (is_active_of owner) (to_deprecated now) db.templates;
  },
)

unfoldable pub insert_newest : Template → List Template → List Template
insert_newest t [] = t ∷ []
insert_newest t (u ∷ us) =
    if ltb t.created_at u.created_at || ((t.created_at == u.created_at) && ltb t.id u.id)
    then u ∷ insert_newest t us
    else t ∷ u ∷ us

-- ORDER BY created_at DESC, id DESC
unfoldable pub newest : List Template → List Template
unfolding insert_newest
newest [] = []
newest (t ∷ ts) = insert_newest t (newest ts)

-- ListActiveTemplates
unfoldable pub list_active_templates : ℕ → Db → List Template
unfolding newest
list_active_templates page_limit db = take page_limit (newest (filter is_active db.templates))

-- ListActiveTemplatesScoped
unfoldable pub list_active_templates_scoped : ℕ → ℕ → Db → List Template
unfolding newest
list_active_templates_scoped owner page_limit db =
    take page_limit (newest (filter (is_active_of owner) db.templates))
