-- ===== src/Handlers/Create/Submit.antt =====
-- create of internal/api/notifications.go from the idempotency key on: the claim, the transaction, the
-- release of the claim or its record, and the answer.
use event_driven_notificatio.Prelude.{
  ℕ, Bool, true, false, String, str_eq, [], ◌∷◌, ◌++◌, Option, none, some, if◌then◌else◌,
}
use event_driven_notificatio.Store.{Bytes, Db}
use event_driven_notificatio.Producers.{Encoder}
use event_driven_notificatio.Api.{CreateRequest, Text}
use event_driven_notificatio.Api.Persist.{PersistCalls, transaction, new_notification}
use event_driven_notificatio.Idempotency.{
  Record, Redis, Begun, proceed, replay, conflict, in_flight, broken, begin_or_replay, finalize,
  release,
}
use event_driven_notificatio.Http.{
  wrapped, err_idempotency_conflict, err_idempotency_in_flight, Response, written, refused, Decoded,
}
use event_driven_notificatio.Auth.{Context, owner_from_ctx}
use event_driven_notificatio.Handlers.{row_to_response, refuse}
use event_driven_notificatio.Handlers.Create.{
  Variables, Engine, CreateCalls, Prepared, ready, stopped, prepare,
}

-- What is written: the body, and whether the header Idempotency-Replayed is set.
pub record Reply : Type 0 where
  pub replayed : Bool
  pub body : Bytes

-- uuid.UUID.String of the owner, or the empty string.
abbrev pub owner_text : Encoder → Option ℕ → String
owner_text encoder none = ""
owner_text encoder (some o) = encoder.uuid_text o

abbrev pub variables_of : Decoded (CreateRequest × Variables) → Variables
variables_of (Decoded.decoded (req, variables)) = variables
variables_of (Decoded.malformed message) = []

module _ (redis : Redis) (encoder : Encoder) (engine : Engine) (ctx : Context) (calls : CreateCalls)
    (idem_key : String) where
  -- What persist is given: the owner is the caller's key.
  unfoldable pub persist_calls : PersistCalls
  persist_calls = record calls.persist { owner = owner_from_ctx ctx }

  unfoldable pub has_key : Bool
  has_key = if str_eq idem_key "" then false else true

  unfoldable pub slot_owner : String
  slot_owner = owner_text encoder (owner_from_ctx ctx)

  -- Release, where its command works.
  unfoldable pub released : redis.State → redis.State
  unfolding slot_owner
  released s = if calls.release_fails then s else release redis slot_owner idem_key s

  -- The deferred release of a request whose context is done.
  unfoldable pub deferred : redis.State → redis.State
  unfolding released
  deferred s = if calls.canceled then released s else s

  unfoldable pub finalized : Record → redis.State → redis.State
  unfolding slot_owner
  finalized rec s =
      if calls.finalize_fails
      then s
      else finalize redis calls.finalized_at slot_owner idem_key rec s

  -- The answer to a notification that is stored.
  unfoldable pub respond :
      String → Db → redis.State → Option Bytes → Response Reply × Db × redis.State
  unfolding refuse finalized has_key
  respond hash db s none = (refuse ctx (wrapped "marshal response" calls.marshal_error), db, s)
  respond hash db s (some body) = (
    written 201 (record { replayed = false; body = body ++ (10 ∷ []) }),
    db,
    if has_key
        then finalized
            (record { body_hash = hash; status_code = 201; body = body; in_progress = false }) s
        else s,
  )

  -- The outcome of persist.
  unfoldable pub persisted :
      String
      → CreateRequest
      → Option ℕ
      → Db
      → redis.State
      → Option Db
      → Response Reply × Db × redis.State
  unfolding refuse released persist_calls respond has_key
  persisted hash req version db s none =
      (refuse ctx calls.persist_error, db, if has_key then released s else s)
  persisted hash req version db s (some db') = respond hash db' s (
      engine.marshal
        (row_to_response (new_notification persist_calls req idem_key ctx.correlation_id version)))

  unfoldable pub store :
      String → CreateRequest → Option ℕ → Db → redis.State → Response Reply × Db × redis.State
  unfolding persisted persist_calls
  store hash req version db s =
      persisted hash req version db s
        (transaction encoder persist_calls req idem_key ctx.correlation_id version db)

  -- The deferred function runs after everything else.
  unfoldable pub with_deferred :
      Response Reply × Db × redis.State → Response Reply × Db × redis.State
  unfolding deferred
  with_deferred (r, db, s) = (r, db, deferred s)

  unfoldable pub after_begin :
      String
      → CreateRequest
      → Option ℕ
      → Db
      → Begun × redis.State
      → Response Reply × Db × redis.State
  unfolding refuse store with_deferred
  after_begin hash req version db (proceed, s) = with_deferred (store hash req version db s)
  after_begin hash req version db (replay rec, s) =
      (written rec.status_code (record { replayed = true; body = rec.body }), db, s)
  after_begin hash req version db (conflict, s) = (refuse ctx err_idempotency_conflict, db, s)
  after_begin hash req version db (in_flight, s) = (refuse ctx err_idempotency_in_flight, db, s)
  after_begin hash req version db (broken, s) =
      (refuse ctx (wrapped "idempotency" calls.begin_error), db, s)

  unfoldable pub claimed :
      CreateRequest
      → Option ℕ
      → Db
      → redis.State
      → Option String
      → Response Reply × Db × redis.State
  unfolding refuse slot_owner after_begin
  claimed req version db s none = (refuse ctx (wrapped "hash request body" calls.hash_error), db, s)
  claimed req version db s (some hash) =
      after_begin hash req version db (begin_or_replay redis calls.begin slot_owner idem_key hash s)

  unfoldable pub submit :
      Variables → Db → redis.State → Prepared → Response Reply × Db × redis.State
  unfolding has_key store claimed
  submit variables db s (stopped p) = (refused p, db, s)
  submit variables db s (ready req version) =
      if has_key
      then claimed req version db s (engine.canonical_hash req variables)
      else store "" req version db s

  -- create
  unfoldable pub create :
      Text
      → Bool
      → Decoded (CreateRequest × Variables)
      → Db
      → redis.State
      → Response Reply × Db × redis.State
  unfolding prepare submit
  create text scheduler_enabled body db s =
      submit (variables_of body) db s (prepare ctx engine text scheduler_enabled calls body db)
