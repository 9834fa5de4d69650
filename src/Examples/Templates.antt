-- ===== src/Examples/Templates.antt =====
-- Runs of the template handlers.
use event_driven_notificatio.Prelude.{ℕ, ◌≡◌, refl, false, ◌&&◌, String, [], ◌∷◌, none, some, ◌==◌}
use event_driven_notificatio.Store.{Template, Db}
use event_driven_notificatio.Store.Templates.{find_template}
use event_driven_notificatio.Http.{status_code, decoded}
use event_driven_notificatio.Handlers.Templates.{
  TemplateRequest, Parsed, parsed, Calls, put, create, validate_template_create,
}
use event_driven_notificatio.Handlers.Templates.Owned.{
  Becomes, can_bump, put_status, may_change, put_lem,
}
use event_driven_notificatio.Handlers.Templates.Names.{name_collides}
use event_driven_notificatio.Examples.Data.{db_of, waiting}
use event_driven_notificatio.Examples.Edge.{text}
use event_driven_notificatio.Examples.Handlers.{stranger}

-- A template of the key 7.
abbrev greeting : Template
greeting = record {
  id = 1;
  name = "greeting";
  channel = "sms";
  version = 1;
  body = "hi";
  required_vars = [];
  created_at = 10;
  updated_at = 10;
  deprecated_at = none;
  created_by = some 7;
}

abbrev db : Db
db = record (db_of waiting) { templates = greeting ∷ [] }

abbrev parse : String → Parsed
parse body = parsed []

abbrev calls : Calls
calls = record { id = 2; now = 20; fails = none }

put_lem_example :
    let r = put text parse stranger calls "1" (decoded "bye") db in
    (status_code r.0 ≡ put_status db (may_change stranger) (find_template 1 db))
    × Becomes "bye" [] 20
        (λ t. may_change stranger t && can_bump db t)
        (find_template 1 db)
        (find_template 1 r.1)
    × ((j : ℕ) → (1 == j) ≡ false → find_template j r.1 ≡ find_template j db)
put_lem_example = put_lem stranger calls refl 1 "bye" [] db text parse "1" refl refl refl

abbrev same_name : TemplateRequest
same_name = record { name = "greeting"; channel = "sms"; body = "bye" }

same_name_valid : validate_template_create text same_name ≡ []
unfolding validate_template_create event_driven_notificatio.Domain.channel_valid
same_name_valid = refl

-- The template of another key, deprecated.
abbrev old_greeting : Template
old_greeting = record greeting { deprecated_at = some 15 }

abbrev old_db : Db
old_db = record (db_of waiting) { templates = old_greeting ∷ [] }

-- The deprecated row counts.
collision : (create text parse stranger calls (decoded same_name) old_db).1 ≡ old_db
collision =
    ((name_collides text parse stranger calls same_name [] old_db refl same_name_valid refl).0 [] []
      old_greeting refl refl (record { name = refl; channel = refl; version = refl })).1
