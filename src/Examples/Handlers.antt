-- ===== src/Examples/Handlers.antt =====
-- Runs of the handlers of the notifications API.
use event_driven_notificatio.Prelude.{
  ℕ, ◌+◌, ◌≡◌, refl, false, String, str_eq, List, [], ◌∷◌, Option, none, some, arith, ◌==◌,
  if◌then◌else◌,
}
use event_driven_notificatio.Prelude.Table.{find_row, touched}
use event_driven_notificatio.Store.Notifications.{find, owned_by, to_cancelled}
use event_driven_notificatio.Api.{CreateRequest}
use event_driven_notificatio.Http.{status_code, Decoded, decoded}
use event_driven_notificatio.Auth.{Context, has_scope, is_admin, owner_from_ctx}
use event_driven_notificatio.Handlers.{Calls, get, cancel}
use event_driven_notificatio.Handlers.Access.{without, no_existence_oracle}
use event_driven_notificatio.Handlers.Cancel.{cancel_status, may_cancel, cancel_lem}
use event_driven_notificatio.Handlers.Batch.{ItemCalls, BatchCalls, create_batch}
use event_driven_notificatio.Handlers.Batch.Whole.{Result, create_batch_whole}
use event_driven_notificatio.Examples.Data.{db_of, waiting, encoder}
use event_driven_notificatio.Examples.Edge.{text, request}

-- "1" names the notification, and every other text the key 9.
abbrev pub ids : String → Option ℕ
ids s = if str_eq s "1" then some 1 else some 9

abbrev pub context : List String → String → Context
context scopes id = record {
  authed_key = some (record { id = id; name = "k"; scopes = scopes });
  correlation_id = "c";
  parse_uuid = ids;
}

abbrev pub stranger : Context
stranger = context ("notifications:read" ∷ "notifications:write" ∷ []) "9"

abbrev pub admin : Context
admin = context ("notifications:read" ∷ "admin" ∷ []) "9"

abbrev calls : Calls
calls = record { fails = none; reread_fails = none; now = 20 }

pub stranger_plain : is_admin stranger ≡ false
unfolding is_admin has_scope
stranger_plain = refl

waiting_there : find 1 (db_of waiting) ≡ some waiting
unfolding find find_row
waiting_there = refl

stranger_foreign :
    (owner : ℕ) → owner_from_ctx stranger ≡ some owner → owned_by owner waiting.created_by ≡ false
unfolding owner_from_ctx
stranger_foreign owner e = let e' : ◌≡◌ {A = ℕ} 9 owner = cc in ground arith

no_existence_oracle_example :
    (get stranger calls "1" (db_of waiting) ≡ get stranger calls "1" (without 1 (db_of waiting)))
    × ((cancel stranger calls "1" (db_of waiting)).0
        ≡ (cancel stranger calls "1" (without 1 (db_of waiting))).0)
    × ((j : ℕ) → find j (cancel stranger calls "1" (db_of waiting)).1 ≡ find j (db_of waiting))
no_existence_oracle_example =
    no_existence_oracle stranger calls 1 (db_of waiting) waiting stranger_plain waiting_there "1"
      refl stranger_foreign

cancel_lem_example :
    let r = cancel admin calls "1" (db_of waiting) in
    (status_code r.0 ≡ cancel_status (is_admin admin) (may_cancel admin) (find 1 (db_of waiting)))
    × (find 1 r.1 ≡ touched (may_cancel admin) (to_cancelled 20) (find 1 (db_of waiting)))
    × ((j : ℕ) → (1 == j) ≡ false → find j r.1 ≡ find j (db_of waiting))
cancel_lem_example = cancel_lem admin calls 1 (db_of waiting) refl refl "1" refl

abbrev item_calls : ℕ → ItemCalls
item_calls i = record {
  id = 20 + i;
  outbox_id = 30 + i;
  clock = 100;
  insert_fails = none;
  outbox_fails = none;
}

abbrev batch_calls : BatchCalls
batch_calls = record {
  decimal = λ i. "i";
  batch_id = 5;
  now = 100;
  begin_fails = none;
  batch_fails = none;
  commit_fails = none;
  item = item_calls;
}

-- Two items, of which the second has no recipient.
abbrev batch : Decoded (List CreateRequest)
batch = decoded (request ∷ record request { recipient = "" } ∷ [])

create_batch_whole_example :
    Result text batch_calls encoder stranger "k"
      (db_of waiting)
      batch
      (create_batch text batch_calls encoder stranger "k" batch (db_of waiting))
create_batch_whole_example =
    create_batch_whole text batch_calls encoder stranger "k" (db_of waiting) batch
