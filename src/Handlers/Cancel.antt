-- ===== src/Handlers/Cancel.antt =====
-- The cancel handler on every branch (cancel of internal/api/notifications_batch.go).
use event_driven_notificatio.Prelude.{
  ℕ, ◌≡◌, refl, ap, ◌∙◌, sym, Bool, true, false, ◌&&◌, String, Option, none, some, ◌==◌,
  if◌then◌else◌, arith, Bool-cases, inl, inr, Option-cases,
}
use std.Path.{fun_ext}
use event_driven_notificatio.Prelude.Table.{touched}
use event_driven_notificatio.Store.{Notification, Db, Reply, row, no_rows, of_option}
use event_driven_notificatio.Store.Notifications.{
  id_of, find, owned_by, cas, is_cancellable, is_cancellable_by, to_cancelled, answer,
  cancel_pending_or_queued, cancel_pending_or_queued_scoped,
}
use event_driven_notificatio.Store.Lookup.{find-cas_self, find-cas_ne}
use event_driven_notificatio.Http.{
  Failure, Problem, problem_of, write_problem_full, err_not_found, err_invalid_state, Response,
  written, refused, status_code,
}
use event_driven_notificatio.Auth.{Context, is_admin, owner_from_ctx}
use event_driven_notificatio.Handlers.{
  NotificationResponse, fetch, Calls, refuse, not_cancelled, cancel_answer, after_cancel,
  cancel_owned, cancel_parsed, cancel,
}

-- Whose notifications a key may cancel.
unfoldable pub may_see : Bool → Option ℕ → Notification → Bool
may_see true o n = true
may_see false none n = false
may_see false (some owner) n = owned_by owner n.created_by

unfoldable pub may_cancel : Context → Notification → Bool
unfolding may_see
may_cancel ctx n = may_see (is_admin ctx) (owner_from_ctx ctx) n && is_cancellable n

unfoldable pub cancel_status : Bool → (Notification → Bool) → Option Notification → ℕ
cancel_status admin may none = 404
cancel_status admin may (some n) = if may n then 200 else if admin then 409 else 404

refuse_not_found :
    (ctx : Context) → status_code (refuse {A = NotificationResponse} ctx err_not_found) ≡ 404
unfolding refuse event_driven_notificatio.Http.write_error_as_problem write_problem_full
refuse_not_found ctx = ground arith

refuse_invalid_state :
    (ctx : Context) (text : String)
    → status_code (refuse {A = NotificationResponse} ctx (record err_invalid_state { text = text }))
      ≡ 409
unfolding refuse event_driven_notificatio.Http.write_error_as_problem write_problem_full
refuse_invalid_state ctx text = ground arith

module _ (ctx : Context) (calls : Calls) (i : ℕ) (db : Db) (works : calls.fails ≡ none)
    (works' : calls.reread_fails ≡ none) where
  abbrev f : Notification → Notification
  f = to_cancelled calls.now

  reread :
      (db' : Db) (o : Option Notification)
      → find i db' ≡ o
      → fetch calls.reread_fails (of_option (find i db')) ≡ fetch none (of_option o)
  reread db' o e = rw (works', e) refl

  not_cancelled_code :
      (n : Notification)
      → status_code (not_cancelled ctx (fetch none (row n))) ≡ (if is_admin ctx then 409 else 404)
  unfolding not_cancelled
  not_cancelled_code n = elim (Bool-cases (is_admin ctx)) [
    | inl e ↦ rw e (refuse_invalid_state ctx _)
    | inr e ↦ rw e (refuse_not_found ctx)
  ]

  verdict_code :
      (p : Notification → Bool) (o : Option Notification)
      → find i db ≡ o
      → status_code (cancel_answer ctx calls i (cas i p f db) (fetch none (answer p f o)))
        ≡ cancel_status (is_admin ctx) p o
  unfolding cancel_answer cancel_status not_cancelled
  verdict_code p none e =
      ap (λ r. status_code (not_cancelled ctx r))
        (reread _ none (find-cas_self i p f db (λ m. refl) ∙ ap (touched p f) e))
      ∙ refuse_not_found ctx
  verdict_code p (some n) e = elim (Bool-cases (p n)) [
    | inl may ↦ rw may refl
    | inr may_not ↦ rw may_not (
        ap (λ r. status_code (not_cancelled ctx r))
          (reread _ (some n) (
            find-cas_self i p f db (λ m. refl)
            ∙ (ap (touched p f) e ∙ ap (λ b. some (if b then f n else n)) may_not)))
        ∙ not_cancelled_code n)
  ]

  Verdict : (Notification → Bool) → Response NotificationResponse × Db → Type 0
  Verdict p r =
      (status_code r.0 ≡ cancel_status (is_admin ctx) p (find i db))
      × (find i r.1 ≡ touched p f (find i db))
      × ((j : ℕ) → (i == j) ≡ false → find j r.1 ≡ find j db)

  by_cas :
      (p : Notification → Bool)
      → Verdict p (
          after_cancel ctx calls i db
            (event_driven_notificatio.Store.Notifications.returning i p f db, cas i p f db))
  unfolding Verdict event_driven_notificatio.Store.Notifications.returning cancel_answer
  by_cas p = rw works (
    verdict_code p (find i db) refl,
    find-cas_self i p f db (λ m. refl),
    λ j ne. find-cas_ne i j p f db (λ m. refl) ne,
  )

  anonymous_code : (o : Option Notification) → cancel_status false (λ n. false) o ≡ 404
  unfolding cancel_status
  anonymous_code none = refl
  anonymous_code (some n) = refl

  anonymous_touched : (o : Option Notification) → touched (λ n. false) f o ≡ o
  anonymous_touched none = refl
  anonymous_touched (some n) = refl

  may_cancel_admin : is_admin ctx ≡ true → may_cancel ctx ≡ is_cancellable
  unfolding may_cancel may_see
  may_cancel_admin admin = fun_ext (λ n. rw admin refl)

  may_cancel_nobody :
      is_admin ctx ≡ false → owner_from_ctx ctx ≡ none → may_cancel ctx ≡ (λ n. false)
  unfolding may_cancel may_see
  may_cancel_nobody plain nobody = fun_ext (λ n. rw (plain, nobody) refl)

  may_cancel_owner :
      (owner : ℕ)
      → is_admin ctx ≡ false
      → owner_from_ctx ctx ≡ some owner
      → may_cancel ctx ≡ is_cancellable_by owner
  unfolding may_cancel may_see
  may_cancel_owner owner plain known = fun_ext (λ n. rw (plain, known) refl)

  module _ (id : String) where
    as_admin :
        ctx.parse_uuid id ≡ some i
        → is_admin ctx ≡ true
        → cancel ctx calls id db
          ≡ after_cancel ctx calls i db (cancel_pending_or_queued i calls.now db)
    unfolding cancel cancel_parsed
    as_admin parsed admin = rw (parsed, admin) refl

    as_nobody :
        ctx.parse_uuid id ≡ some i
        → is_admin ctx ≡ false
        → owner_from_ctx ctx ≡ none
        → cancel ctx calls id db ≡ (refuse ctx err_not_found, db)
    unfolding cancel cancel_parsed cancel_owned
    as_nobody parsed plain nobody = rw (parsed, plain, nobody) refl

    as_owner :
        (owner : ℕ)
        → ctx.parse_uuid id ≡ some i
        → is_admin ctx ≡ false
        → owner_from_ctx ctx ≡ some owner
        → cancel ctx calls id db
          ≡ after_cancel ctx calls i db (cancel_pending_or_queued_scoped i owner calls.now db)
    unfolding cancel cancel_parsed cancel_owned
    as_owner owner parsed plain known = rw (parsed, plain, known) refl

  -- A cancel whose calls work, of a notification that the path names. The answer is 200 where the key
  -- may cancel the notification (it has the admin scope or owns it, and delivery has not begun), 409
  -- where an admin key comes too late, and 404 otherwise. Exactly in the first case the notification
  -- becomes 'cancelled', and no other notification changes.
  pub cancel_lem :
      (id : String)
      → ctx.parse_uuid id ≡ some i
      → let r = cancel ctx calls id db in
        (status_code r.0 ≡ cancel_status (is_admin ctx) (may_cancel ctx) (find i db))
        × (find i r.1 ≡ touched (may_cancel ctx) (to_cancelled calls.now) (find i db))
        × ((j : ℕ) → (i == j) ≡ false → find j r.1 ≡ find j db)
  unfolding Verdict cancel_pending_or_queued cancel_pending_or_queued_scoped
  cancel_lem id parsed = elim (Bool-cases (is_admin ctx)) [
    | inl admin ↦ rw (as_admin id parsed admin, may_cancel_admin admin) (by_cas is_cancellable)
    | inr plain ↦ elim (Option-cases (owner_from_ctx ctx)) [
      | inl nobody ↦
          rw (as_nobody id parsed plain nobody, may_cancel_nobody plain nobody, plain)
            (
              refuse_not_found ctx ∙ sym (anonymous_code (find i db)),
              sym (anonymous_touched (find i db)),
              λ j ne. refl,
            )
      | inr (owner, known) ↦
          rw (as_owner id owner parsed plain known, may_cancel_owner owner plain known)
            (by_cas (is_cancellable_by owner))
    ]
  ]
