-- ===== src/Handlers/Templates/Owned.antt =====
-- Who may change a template, and what a change leaves alone.
use event_driven_notificatio.Prelude.{
  ℕ, ◌+◌, ◌≡◌, refl, ap, ◌∙◌, sym, Bool, true, false, ◌&&◌, not, String, str_eq, List, [], ◌∷◌,
  Option, none, some, ◌==◌, if◌then◌else◌, if_true, if_false, arith, Bool-cases, Option-cases, inl,
  inr,
}
use std.Path.{fun_ext}
use event_driven_notificatio.Prelude.Table.{
  find_row, update_row, touched, find_row-update_row_self, find_row-update_row_ne,
}
use event_driven_notificatio.Store.{Template, Db, Reply, row, no_rows, failure}
use event_driven_notificatio.Store.Templates.{
  key_of, find_template, is_active, is_active_of, is_taken, to_bumped, bumped,
  bump_template_version, bump_template_version_scoped,
}
use event_driven_notificatio.Api.{Text}
use event_driven_notificatio.Http.{
  Failure, write_problem_full, err_template_not_found, Response, written, refused, status_code,
  Decoded, decoded,
}
use event_driven_notificatio.Auth.{Context, is_admin, owner_from_ctx}
use event_driven_notificatio.Handlers.{refuse}
use event_driven_notificatio.Handlers.Create.{may_use}
use event_driven_notificatio.Handlers.Templates.{
  TemplateResponse, Parsed, parsed, Calls, row_answer, put_owned, put_parsed, put_decoded, put,
}

find_row_key :
    (i : ℕ) (ts : List Template) (t : Template) → find_row key_of i ts ≡ some t → t.id ≡ i
unfolding find_row
find_row_key i [] t h = cc
find_row_key i (u ∷ us) t h = ground (arith, find_row_key i us t)

-- Whether the next version of a template is free.
unfoldable pub can_bump : Db → Template → Bool
can_bump db t = not (is_taken t.id t.name t.channel (t.version + 1) db)

unfoldable pub put_status : Db → (Template → Bool) → Option Template → ℕ
unfolding can_bump
put_status db may none = 404
put_status db may (some t) = if may t then if can_bump db t then 200 else 500 else 404

-- Who may change a template, if it is not deprecated.
unfoldable pub may_change : Context → Template → Bool
may_change ctx t = may_use ctx t && is_active t

refuse_status_404 :
    (ctx : Context) → status_code (refuse {A = TemplateResponse} ctx err_template_not_found) ≡ 404
unfolding refuse event_driven_notificatio.Http.write_error_as_problem write_problem_full
refuse_status_404 ctx = ground arith

-- The next version of a template.
pub record Updated (body : String) (vars : List String) (now : ℕ) (t t' : Template) : Type 0 where
  pub id : t'.id ≡ t.id
  pub name : t'.name ≡ t.name
  pub channel : t'.channel ≡ t.channel
  pub version : t'.version ≡ t.version + 1
  pub body_set : t'.body ≡ body
  pub vars_set : t'.required_vars ≡ vars
  pub created_at : t'.created_at ≡ t.created_at
  pub updated_at : t'.updated_at ≡ now
  pub deprecated_at : t'.deprecated_at ≡ t.deprecated_at
  pub created_by : t'.created_by ≡ t.created_by

-- Updated where the test holds, and otherwise as it was.
abbrev pub Becomes :
    String → List String → ℕ → (Template → Bool) → Option Template → Option Template → Type 0
Becomes body vars now p none o = o ≡ none
Becomes body vars now p (some t) o =
    (p t ≡ true → (t' : Template) × (o ≡ some t') × Updated body vars now t t')
    × (p t ≡ false → o ≡ some t)

touched-Becomes :
    (body : String) (vars : List String) (now : ℕ) (p : Template → Bool) (o o' : Option Template)
    → o' ≡ touched p (to_bumped body vars now) o
    → Becomes body vars now p o o'
touched-Becomes body vars now p none o' e = e
touched-Becomes body vars now p (some t) o' e = (
  λ h. (
    to_bumped body vars now t,
    e ∙ ap (λ u. some u) (if_true _ _ h),
    record {
      id = refl;
      name = refl;
      channel = refl;
      version = refl;
      body_set = refl;
      vars_set = refl;
      created_at = refl;
      updated_at = refl;
      deprecated_at = refl;
      created_by = refl;
    },
  ),
  λ h. e ∙ ap (λ u. some u) (if_false _ _ h),
)

module _ (ctx : Context) (calls : Calls) (works : calls.fails ≡ none) (i : ℕ) (body : String)
    (vars : List String) (db : Db) where
  abbrev f : Template → Template
  f = to_bumped body vars calls.now

  Changed : (Template → Bool) → Response TemplateResponse × Db → Type 0
  Changed may r =
      (status_code r.0 ≡ put_status db may (find_template i db))
      × (find_template i r.1 ≡ touched (λ t. may t && can_bump db t) f (find_template i db))
      × ((j : ℕ) → (i == j) ≡ false → find_template j r.1 ≡ find_template j db)

  bumped-none : (p : Template → Bool) → bumped p f db none ≡ (no_rows, db)
  unfolding bumped
  bumped-none p = refl

  -- What the statement makes of the row that it finds, in the four cases.
  module _ (p : Template → Bool) (t : Template) (there : find_template i db ≡ some t) where
    bumped_miss : p t ≡ false → bumped p f db (some t) ≡ (no_rows, db)
    unfolding bumped
    bumped_miss h = if_false _ _ h

    bumped_used :
        p t ≡ true
        → is_taken t.id t.name t.channel (t.version + 1) db ≡ true
        → bumped p f db (some t) ≡ (failure, db)
    unfolding bumped
    bumped_used h used = if_true _ _ h ∙ if_true _ _ used

    bumped_free :
        p t ≡ true
        → is_taken t.id t.name t.channel (t.version + 1) db ≡ false
        → bumped p f db (some t)
          ≡ (row (f t), record db { templates = update_row key_of i p f db.templates })
    unfolding bumped find_template
    bumped_free h free =
        let same = find_row_key i db.templates t there in
        if_true _ _ h
        ∙ (if_false _ _ free
            ∙ ap (λ k. (row (f t), record db { templates = update_row key_of k p f db.templates }))
                same)

  Answered : (Template → Bool) → Reply Template × Db → Type 0
  Answered may r = Changed may (row_answer ctx 200 "bump template" calls db r)

  reply_code :
      (reply : Reply Template) (db' : Db)
      → status_code (row_answer ctx 200 "bump template" calls db (reply, db')).0
        ≡ elim reply [ row _ ↦ 200 | no_rows ↦ 404 | failure ↦ 500 ]
  unfolding row_answer event_driven_notificatio.Http.wrapped refuse
      event_driven_notificatio.Http.write_error_as_problem write_problem_full
  reply_code (row t) db' = rw works refl
  reply_code no_rows db' = rw works (refuse_status_404 ctx)
  reply_code failure db' = rw works (ground arith)

  left_db :
      (reply : Reply Template) (db' : Db)
      → (row_answer ctx 200 "bump template" calls db (reply, db')).1 ≡ db'
  unfolding row_answer
  left_db reply db' = rw works refl

  -- A statement that leaves the database as it was.
  unavailable :
      (reply : Reply Template) (may : Template → Bool)
      → elim reply [ row _ ↦ 200 | no_rows ↦ 404 | failure ↦ 500 ]
        ≡ put_status db may (find_template i db)
      → touched (λ t. may t && can_bump db t) f (find_template i db) ≡ find_template i db
      → Answered may (reply, db)
  unfolding Answered Changed
  unavailable reply may code stays = (
    reply_code reply db ∙ code,
    ap (find_template i) (left_db reply db) ∙ sym stays,
    λ j ne. ap (find_template j) (left_db reply db),
  )

  changed :
      (p : Template → Bool) (t : Template)
      → find_template i db ≡ some t
      → p t ≡ true
      → is_taken t.id t.name t.channel (t.version + 1) db ≡ false
      → Answered p (row (f t), record db { templates = update_row key_of i p f db.templates })
  unfolding Answered Changed put_status can_bump find_template
  changed p t there may free =
      let db' : Db = record db { templates = update_row key_of i p f db.templates } in
      (
        reply_code (row (f t)) db' ∙ rw (there, may, free) refl,
        ap (find_template i) (left_db (row (f t)) db')
            ∙ (find_row-update_row_self key_of i p f db.templates (λ u. refl)
                ∙ rw (there, may, free) refl),
        λ j ne.
            ap (find_template j) (left_db (row (f t)) db')
            ∙ find_row-update_row_ne key_of i j p f db.templates (λ u. refl) ne,
      )

  bumped-Answered : (p : Template → Bool) → Answered p (bumped p f db (find_template i db))
  unfolding put_status can_bump
  bumped-Answered p = elim (Option-cases (find_template i db)) [
    | inl gone ↦ rw (gone, bumped-none p) (unavailable no_rows p (rw gone refl) (rw gone refl))
    | inr (t, there) ↦ elim (Bool-cases (p t)) [
      | inl may ↦ elim (Bool-cases (is_taken t.id t.name t.channel (t.version + 1) db)) [
        | inl used ↦
            rw (there, bumped_used p t there may used)
              (unavailable failure p (rw (there, may, used) refl) (rw (there, may, used) refl))
        | inr free ↦ rw (there, bumped_free p t there may free) (changed p t there may free)
      ]
      | inr may_not ↦
          rw (there, bumped_miss p t there may_not)
            (unavailable no_rows p (rw (there, may_not) refl) (rw (there, may_not) refl))
    ]
  ]

  may_change_admin : is_admin ctx ≡ true → may_change ctx ≡ is_active
  unfolding may_change may_use
  may_change_admin admin = fun_ext (λ t. rw admin refl)

  may_change_owner :
      (owner : ℕ)
      → is_admin ctx ≡ false
      → owner_from_ctx ctx ≡ some owner
      → may_change ctx ≡ is_active_of owner
  unfolding may_change may_use
  may_change_owner owner plain known = fun_ext (λ t. rw (plain, known) refl)

  may_change_nobody :
      is_admin ctx ≡ false → owner_from_ctx ctx ≡ none → may_change ctx ≡ (λ t. false)
  unfolding may_change may_use
  may_change_nobody plain nobody = fun_ext (λ t. rw (plain, nobody) refl)

  nobody_status : (o : Option Template) → put_status db (λ t. false) o ≡ 404
  unfolding put_status
  nobody_status none = refl
  nobody_status (some t) = refl

  nobody_touched : (o : Option Template) → touched (λ t. false && can_bump db t) f o ≡ o
  nobody_touched none = refl
  nobody_touched (some t) = refl

  nobody-Changed : Changed (λ t. false) (refuse ctx err_template_not_found, db)
  unfolding Changed
  nobody-Changed = (
    refuse_status_404 ctx ∙ sym (nobody_status (find_template i db)),
    sym (nobody_touched (find_template i db)),
    λ j ne. refl,
  )

  put-Changed :
      (text : Text) (parse : String → Parsed)
      → Changed (may_change ctx) (put_parsed text parse ctx calls i body db (parsed vars))
  unfolding put_parsed put_owned bump_template_version bump_template_version_scoped Answered
  put-Changed text parse = elim (Bool-cases (is_admin ctx)) [
    | inl admin ↦ rw (admin, may_change_admin admin) (bumped-Answered is_active)
    | inr plain ↦ elim (Option-cases (owner_from_ctx ctx)) [
      | inl nobody ↦ rw (plain, nobody, may_change_nobody plain nobody) nobody-Changed
      | inr (owner, known) ↦
          rw (plain, known, may_change_owner owner plain known)
            (bumped-Answered (is_active_of owner))
    ]
  ]

  -- A put of a body that is not empty and parses, on a path that names a template, with a statement
  -- that works (so the body has a length that the table's CHECK admits). Where the key may change the template (it has the admin scope or owns it) and the
  -- template is not deprecated, the answer is 200 and the template has the new body and variables, the
  -- next version and the time of the call, and keeps its other fields, or 500 and nothing changes where that version of that name and channel exists in
  -- another row; in every other case the answer is 404 and nothing changes. No other template changes.
  pub put_lem :
      (text : Text) (parse : String → Parsed) (id : String)
      → ctx.parse_uuid id ≡ some i
      → str_eq body "" ≡ false
      → parse body ≡ parsed vars
      → let r = put text parse ctx calls id (decoded body) db in
        (status_code r.0 ≡ put_status db (may_change ctx) (find_template i db))
        × Becomes body vars calls.now
            (λ t. may_change ctx t && can_bump db t)
            (find_template i db)
            (find_template i r.1)
        × ((j : ℕ) → (i == j) ≡ false → find_template j r.1 ≡ find_template j db)
  unfolding put put_decoded Changed
  put_lem text parse id named given parses =
      let c = put-Changed text parse in
      rw (named, given, parses, put)
        (c.0, touched-Becomes body vars calls.now _ (find_template i db) _ c.1, c.2)
