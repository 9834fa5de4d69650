-- ===== src/Handlers/Access.antt =====
-- What a key without the admin scope learns of other keys' notifications, and does to them.
use event_driven_notificatio.Prelude.{
  ℕ, ◌≡◌, refl, ap, ◌∙◌, sym, false, String, List, [], ◌∷◌, Option, none, some, if_false, arith,
}
use event_driven_notificatio.Prelude.Table.{find_row, delete_row, touched}
use event_driven_notificatio.Store.{Notification, Db, Reply, row, no_rows, of_option}
use event_driven_notificatio.Store.Notifications.{
  id_of, find, owned_by, cas, is_cancellable, is_cancellable_by, to_cancelled, answer,
  cancel_pending_or_queued, cancel_pending_or_queued_scoped,
}
use event_driven_notificatio.Store.Lookup.{find-cas_miss}
use event_driven_notificatio.Http.{Failure, wrapped, err_not_found, Response}
use event_driven_notificatio.Auth.{Context, is_admin, owner_from_ctx}
use event_driven_notificatio.Handlers.{
  NotificationResponse, row_to_response, Fetched, fetched, missing, broken, fetch, find_scoped,
  Calls, refuse, refuse_id, get_answer, get_owned, get_parsed, get, not_cancelled, cancel_answer,
  kept, after_cancel, cancel_owned, cancel_parsed, cancel,
}

pub without : ℕ → Db → Db
without i db = record db { notifications = delete_row id_of i db.notifications }

find_row-delete_row :
    (i : ℕ) (ns : List Notification) → find_row id_of i (delete_row id_of i ns) ≡ none
unfolding find_row delete_row
find_row-delete_row i [] = refl
find_row-delete_row i (n ∷ ns) = ground (arith, find_row-delete_row i ns)

find-without : (i : ℕ) (db : Db) → find i (without i db) ≡ none
unfolding find without
find-without i db = find_row-delete_row i db.notifications

hidden_row :
    (owner : ℕ) (o : Option Notification) (n : Notification)
    → o ≡ some n
    → owned_by owner n.created_by ≡ false
    → event_driven_notificatio.Handlers.if_owned owner o ≡ none
hidden_row owner o n there foreign = rw (there, foreign) refl

-- The answer to one who may not see the row, whatever the reread finds.
not_cancelled_hidden :
    (ctx : Context) (o : Fetched Notification)
    → is_admin ctx ≡ false
    → not_cancelled ctx o ≡ refuse ctx err_not_found
unfolding not_cancelled
not_cancelled_hidden ctx (fetched n) h = if_false _ _ h
not_cancelled_hidden ctx missing h = refl
not_cancelled_hidden ctx (broken e) h = if_false _ _ h

unfoldable unseen : Context → Option Failure → Response NotificationResponse
unseen ctx none = refuse ctx err_not_found
unseen ctx (some e) = refuse ctx (wrapped "cancel" e)

cancel_answer_hidden :
    (ctx : Context) (calls : Calls) (i : ℕ) (db : Db) (fails : Option Failure)
    → is_admin ctx ≡ false
    → cancel_answer ctx calls i db (fetch fails no_rows) ≡ unseen ctx fails
unfolding unseen cancel_answer not_cancelled refuse
cancel_answer_hidden ctx calls i db none h = not_cancelled_hidden ctx _ h
cancel_answer_hidden ctx calls i db (some e) h = refl

kept_same :
    (fails : Option Failure) (db db' : Db) (j : ℕ)
    → find j db' ≡ find j db
    → find j (kept fails db db') ≡ find j db
kept_same none db db' j e = e
kept_same (some _) db db' j e = refl

-- A row of another owner, as the owner's UPDATE meets it.
module _ (i owner now : ℕ) (n : Notification) (foreign : owned_by owner n.created_by ≡ false) where
  fails_test : is_cancellable_by owner n ≡ false
  fails_test = rw foreign refl

  foreign_answer :
      (o : Option Notification)
      → o ≡ some n
      → answer (is_cancellable_by owner) (to_cancelled now) o ≡ no_rows
  foreign_answer o there = rw (there, fails_test) refl

  foreign_touched :
      (o : Option Notification)
      → o ≡ some n
      → touched (is_cancellable_by owner) (to_cancelled now) o ≡ o
  foreign_touched o there = rw (there, fails_test) refl

scoped_misses :
    (ctx : Context) (calls : Calls) (i owner : ℕ) (db : Db)
    → is_admin ctx ≡ false
    → answer (is_cancellable_by owner) (to_cancelled calls.now) (find i db) ≡ no_rows
    → (cancel_owned ctx calls i db (some owner)).0 ≡ unseen ctx calls.fails
unfolding cancel_owned cancel_pending_or_queued_scoped
    event_driven_notificatio.Store.Notifications.returning
scoped_misses ctx calls i owner db h e =
    ap
      (λ r.
        cancel_answer ctx calls i
          (kept calls.fails db (cas i (is_cancellable_by owner) (to_cancelled calls.now) db))
          (fetch calls.fails r))
      e
    ∙ cancel_answer_hidden ctx calls i _ calls.fails h

module _ (ctx : Context) (calls : Calls) (i : ℕ) (db : Db) (n : Notification)
    (plain : is_admin ctx ≡ false) (there : find i db ≡ some n) where
  get_hidden :
      (o : Option ℕ)
      → ((owner : ℕ) → o ≡ some owner → owned_by owner n.created_by ≡ false)
      → get_owned ctx calls i db o ≡ get_owned ctx calls i (without i db) o
  unfolding get_owned find_scoped
  get_hidden none h = refl
  get_hidden (some owner) h =
      ap (λ o. get_answer ctx (fetch calls.fails (of_option o)))
        (hidden_row owner (find i db) n there (h owner refl)
          ∙ sym (ap (event_driven_notificatio.Handlers.if_owned owner) (find-without i db)))

  cancel_hidden :
      (o : Option ℕ)
      → ((owner : ℕ) → o ≡ some owner → owned_by owner n.created_by ≡ false)
      → (cancel_owned ctx calls i db o).0 ≡ (cancel_owned ctx calls i (without i db) o).0
  unfolding cancel_owned
  cancel_hidden none h = refl
  cancel_hidden (some owner) h =
      scoped_misses ctx calls i owner db plain
        (foreign_answer i owner calls.now n (h owner refl) _ there)
      ∙ sym (
          scoped_misses ctx calls i owner (without i db) plain
            (ap (answer (is_cancellable_by owner) (to_cancelled calls.now)) (find-without i db)))

  cancel_harmless :
      (o : Option ℕ)
      → ((owner : ℕ) → o ≡ some owner → owned_by owner n.created_by ≡ false)
      → (j : ℕ) → find j (cancel_owned ctx calls i db o).1 ≡ find j db
  unfolding cancel_owned cancel_pending_or_queued_scoped
  cancel_harmless none h j = refl
  cancel_harmless (some owner) h j = kept_same calls.fails db _ j (
      find-cas_miss i j (is_cancellable_by owner) (to_cancelled calls.now) db (λ m. refl)
        (foreign_touched i owner calls.now n (h owner refl) _ there))

  -- A key without the admin scope asks for a notification of another key, or of none, by its
  -- identifier: whatever calls fail, get and cancel answer exactly as they would if there were no such
  -- notification, so that its existence is not told, and cancel leaves every notification as it is.
  pub no_existence_oracle :
      (id : String)
      → ctx.parse_uuid id ≡ some i
      → ((owner : ℕ) → owner_from_ctx ctx ≡ some owner → owned_by owner n.created_by ≡ false)
      → (get ctx calls id db ≡ get ctx calls id (without i db))
        × ((cancel ctx calls id db).0 ≡ (cancel ctx calls id (without i db)).0)
        × ((j : ℕ) → find j (cancel ctx calls id db).1 ≡ find j db)
  unfolding get get_parsed cancel cancel_parsed
  no_existence_oracle id parsed foreign =
      rw (parsed, plain)
        (
          get_hidden (owner_from_ctx ctx) foreign,
          cancel_hidden (owner_from_ctx ctx) foreign,
          cancel_harmless (owner_from_ctx ctx) foreign,
        )
