-- ===== src/Handlers/Templates/Names.antt =====
-- When the name of a template is taken (create of internal/api/templates.go).
use event_driven_notificatio.Prelude.{
  ℕ, ◌≡◌, refl, ◌↔◌, Bool, true, false, ◌&&◌, String, str_eq, str_eq_iff, List, [], ◌∷◌, ◌++◌, none,
  ◌==◌, if◌then◌else◌, arith, Bool-cases, All, inl, inr,
}
use event_driven_notificatio.Store.{Template, Db, row, failure}
use event_driven_notificatio.Store.Templates.{is_taken, insert_template}
use event_driven_notificatio.Api.{Text}
use event_driven_notificatio.Http.{write_problem_full, Response, status_code, decoded}
use event_driven_notificatio.Auth.{Context, owner_from_ctx}
use event_driven_notificatio.Handlers.{refuse}
use event_driven_notificatio.Handlers.Templates.{
  TemplateRequest, Parsed, parsed, Calls, row_answer, create, create_parsed, new_template,
  validate_template_create,
}

insert_refused :
    (ctx : Context) (calls : Calls) (db : Db)
    → calls.fails ≡ none
    → let r = row_answer ctx 201 "insert template" calls db (failure, db) in
      (status_code r.0 ≡ 500) × (r.1 ≡ db)
unfolding row_answer event_driven_notificatio.Http.wrapped refuse
    event_driven_notificatio.Http.write_error_as_problem write_problem_full
insert_refused ctx calls db works = rw works (ground arith, refl)

-- A row with this name and channel as version 1.
pub record IsFirst (req : TemplateRequest) (t : Template) : Type 0 where
  pub name : t.name ≡ req.name
  pub channel : t.channel ≡ req.channel
  pub version : t.version ≡ 1

insert_done :
    (ctx : Context) (calls : Calls) (db : Db) (works : calls.fails ≡ none) (req : TemplateRequest)
    (t : Template)
    → IsFirst req t
    → let r =
        row_answer ctx 201 "insert template" calls db
          (row t, record db { templates = t ∷ db.templates }) in
      (status_code r.0 ≡ 201)
      × ((t' : Template) × (r.1.templates ≡ t' ∷ db.templates)
          × IsFirst req t'
          × (t'.body ≡ t.body)
          × (t'.required_vars ≡ t.required_vars)
          × (t'.created_by ≡ t.created_by))
unfolding row_answer
insert_done ctx calls db works req t f = rw works (refl, (t, refl, f, refl, refl, refl))

is_test :
    (a b : String) (c d : String) (k v : ℕ)
    → (str_eq a b && (str_eq c d && (k == v)) ≡ true) ↔ ((a ≡ b) × (c ≡ d) × (k ≡ v))
is_test a b c d k v = ground (arith, str_eq_iff a b, str_eq_iff c d)

used_name :
    (i : ℕ) (req : TemplateRequest) (t : Template) (before after : List Template)
    → (t.id == i) ≡ false
    → IsFirst req t
    → (db : Db)
    → is_taken i req.name req.channel 1 (record db { templates = before ++ (t ∷ after) }) ≡ true
unfolding is_taken
used_name i req t [] after other f db =
    let e =
      (is_test t.name req.name t.channel req.channel t.version 1).1
        (f.name, f.channel, f.version) in
    rw (other, e) refl
used_name i req t (u ∷ us) after other f db = if_true_or _ _ (used_name i req t us after other f db)
  where
    if_true_or : (b c : Bool) → c ≡ true → (if b then true else c) ≡ true
    if_true_or true c h = refl
    if_true_or false c h = h

free_name :
    (i : ℕ) (req : TemplateRequest) (ts : List Template)
    → All (λ t. IsFirst req t → ⊥) ts
    → (db : Db) → is_taken i req.name req.channel 1 (record db { templates = ts }) ≡ false
unfolding is_taken
free_name i req [] none_has db = refl
free_name i req (t ∷ ts) none_has db =
    let p = is_test t.name req.name t.channel req.channel t.version 1 in
    elim (Bool-cases
      (str_eq t.name req.name && (str_eq t.channel req.channel && (t.version == 1)))) [
        | inl has ↦
            let h = p.0 has in
            elim (none_has.0 (record { name = h.0; channel = h.1; version = h.2 })) [ ]
        | inr has_not ↦ rw has_not (and_false _ _ (free_name i req ts none_has.1 db))
      ]
  where
    and_false : (b c : Bool) → c ≡ false → (if b && false then true else c) ≡ false
    and_false true c h = h
    and_false false c h = h

pub name_collides :
    (text : Text) (parse : String → Parsed) (ctx : Context) (calls : Calls) (req : TemplateRequest)
    (vars : List String) (db : Db)
    → calls.fails ≡ none
    → validate_template_create text req ≡ []
    → parse req.body ≡ parsed vars
    → let r = create text parse ctx calls (decoded req) db in
      ((before after : List Template) (t : Template)
        → db.templates ≡ before ++ (t ∷ after)
        → (t.id == calls.id) ≡ false
        → IsFirst req t
        → (status_code r.0 ≡ 500) × (r.1 ≡ db))
      × (All (λ t. IsFirst req t → ⊥) db.templates
          → (status_code r.0 ≡ 201)
            × ((t : Template) × (r.1.templates ≡ t ∷ db.templates)
                × IsFirst req t
                × (t.body ≡ req.body)
                × (t.required_vars ≡ vars)
                × (t.created_by ≡ owner_from_ctx ctx)))
unfolding create insert_template new_template
name_collides text parse ctx calls req vars db works valid parses = (
  λ before after t split other f.
      let used : is_taken calls.id req.name req.channel 1 db ≡ true =
        rw split (used_name calls.id req t before after other f db) in
      rw (valid, parses, used, create, create_parsed, insert_template)
        (insert_refused ctx calls db works),
  λ none_has.
      let unused = free_name calls.id req db.templates none_has db in
      rw (valid, parses, unused, create, create_parsed, insert_template)
        (insert_done ctx calls db works req (new_template ctx calls req vars)
          (record { name = refl; channel = refl; version = refl })),
)
