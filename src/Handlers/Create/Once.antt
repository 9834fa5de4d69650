-- ===== src/Handlers/Create/Once.antt =====
-- A create with an idempotency key is carried out once.
use event_driven_notificatio.Prelude.{
  ℕ, ◌+◌, ◌<◌, ◌≡◌, refl, ap, ◌∙◌, Bool, true, false, String, str_eq, [], ◌∷◌, ◌++◌, Option, some,
  if◌then◌else◌, if_false,
}
use event_driven_notificatio.Store.{Bytes, Db}
use event_driven_notificatio.Producers.{Encoder}
use event_driven_notificatio.Api.{CreateRequest, Text}
use event_driven_notificatio.Api.Persist.{transaction, new_notification}
use event_driven_notificatio.Idempotency.{
  Record, Redis, Laws, default_ttl, proceed, replay, conflict, begin_or_replay, finalize,
}
use event_driven_notificatio.Idempotency.Replays.{Works, finalize_replays}
use event_driven_notificatio.Http.{err_idempotency_conflict, written, Decoded}
use event_driven_notificatio.Auth.{Context, owner_from_ctx}
use event_driven_notificatio.Handlers.{row_to_response, refuse}
use event_driven_notificatio.Handlers.Create.{Variables, Engine, CreateCalls, ready, prepare}
use event_driven_notificatio.Handlers.Create.Submit.{
  persist_calls, slot_owner, after_begin, with_deferred, persisted, respond, claimed, submit,
  variables_of, create, has_key, store, deferred, finalized,
}

-- A request that passes its checks and the hash of its body.
pub record Accepted (ctx : Context) (engine : Engine) (text : Text) (scheduler_enabled : Bool)
    (calls : CreateCalls) (body : Decoded (CreateRequest × Variables)) (db : Db) : Type 0 where
  pub request : CreateRequest
  pub version : Option ℕ
  pub hash : String
  pub prepared : prepare ctx engine text scheduler_enabled calls body db ≡ ready request version
  pub hashed : engine.canonical_hash request (variables_of body) ≡ some hash

module _ (redis : Redis) (encoder : Encoder) (engine : Engine) (text : Text)
    (scheduler_enabled : Bool) (idem_key : String) (named : str_eq idem_key "" ≡ false) where
  module _ (ctx : Context) (calls : CreateCalls) (body : Decoded (CreateRequest × Variables))
      (db : Db) (s : redis.State)
      (a : Accepted ctx engine text scheduler_enabled calls body db) where
    keyed :
        create redis encoder engine ctx calls idem_key text scheduler_enabled body db s
        ≡ after_begin redis encoder engine ctx calls idem_key a.hash a.request a.version db (
            begin_or_replay redis calls.begin
              (slot_owner redis encoder engine ctx calls idem_key)
              idem_key
              a.hash
              s)
    unfolding create submit claimed has_key
    keyed = rw (a.prepared, named, a.hashed) refl

    pub first_time :
        (s1 : redis.State) (db' : Db) (bytes : Bytes)
        → begin_or_replay redis calls.begin
            (slot_owner redis encoder engine ctx calls idem_key)
            idem_key
            a.hash
            s
          ≡ (proceed, s1)
        → transaction encoder
            (persist_calls redis encoder engine ctx calls idem_key)
            a.request
            idem_key
            ctx.correlation_id
            a.version
            db
          ≡ some db'
        → engine.marshal (
            row_to_response (
              new_notification
                (persist_calls redis encoder engine ctx calls idem_key)
                a.request
                idem_key
                ctx.correlation_id
                a.version))
          ≡ some bytes
        → create redis encoder engine ctx calls idem_key text scheduler_enabled body db s ≡ (
          written 201 (record { replayed = false; body = bytes ++ (10 ∷ []) }),
          db',
          deferred redis encoder engine ctx calls idem_key (
              finalized redis encoder engine ctx calls idem_key
                (record {
                  body_hash = a.hash;
                  status_code = 201;
                  body = bytes;
                  in_progress = false;
                })
                s1),
        )
    unfolding after_begin store persisted respond with_deferred has_key
    first_time s1 db' bytes begun stored marshalled =
        keyed ∙ rw (begun, stored, marshalled, named) refl

  module _ (laws : Laws redis) where
    -- A record that is finalized is what a later request finds.
    second_time :
        (ctx : Context) (calls : CreateCalls) (body : Decoded (CreateRequest × Variables)) (db : Db)
        (a : Accepted ctx engine text scheduler_enabled calls body db) (owner : String) (now : ℕ)
        (rec : Record) (s : redis.State)
        → slot_owner redis encoder engine ctx calls idem_key ≡ owner
        → Works calls.begin
        → calls.begin.claimed_at < now + default_ttl
        → calls.begin.read_at < now + default_ttl
        → let s' = finalize redis now owner idem_key rec s in
          create redis encoder engine ctx calls idem_key text scheduler_enabled body db s' ≡ (
            if str_eq rec.body_hash a.hash
                then written rec.status_code (record { replayed = true; body = rec.body })
                else refuse ctx err_idempotency_conflict,
            db,
            s',
          )
    unfolding after_begin
    second_time ctx calls body db a owner now rec s same works soon soon' =
        let s' = finalize redis now owner idem_key rec s in
        keyed ctx calls body db s' a
        ∙ rw same (
            ap (after_begin redis encoder engine ctx calls idem_key a.hash a.request a.version db) (
              finalize_replays redis owner idem_key named laws now rec s calls.begin a.hash works
                soon soon')
            ∙ branch (str_eq rec.body_hash a.hash))
      where
        branch :
            (b : Bool)
            → after_begin redis encoder engine ctx calls idem_key a.hash a.request a.version db (
              if b then replay (record rec { in_progress = false }) else conflict,
              finalize redis now owner idem_key rec s,
            )
              ≡ (
                if b
                    then written rec.status_code (record { replayed = true; body = rec.body })
                    else refuse ctx err_idempotency_conflict,
                db,
                finalize redis now owner idem_key rec s,
              )
        branch true = refl
        branch false = refl

    slot_owner_same :
        (ctx ctx2 : Context) (calls calls2 : CreateCalls)
        → owner_from_ctx ctx2 ≡ owner_from_ctx ctx
        → slot_owner redis encoder engine ctx2 calls2 idem_key
          ≡ slot_owner redis encoder engine ctx calls idem_key
    unfolding slot_owner
    slot_owner_same ctx ctx2 calls calls2 e = rw e refl

    -- A request with an idempotency key that gets the slot, whose transaction commits, whose record is
    -- written and which is not canceled answers 201. A further request of the same owner with that
    -- key, which passes its checks on the new database and comes within 24 hours with the commands of
    -- its claim working, writes nothing: it is given the same status and body again where the hash of
    -- its body is the same, without the newline that ended the first answer, and a conflict
    -- otherwise; the database and the store of keys stay as they are.
    pub create_once :
        (ctx ctx2 : Context) (calls calls2 : CreateCalls)
        (body body2 : Decoded (CreateRequest × Variables)) (db db' : Db) (s s1 : redis.State)
        (bytes : Bytes) (a : Accepted ctx engine text scheduler_enabled calls body db)
        (a2 : Accepted ctx2 engine text scheduler_enabled calls2 body2 db')
        → begin_or_replay redis calls.begin
            (slot_owner redis encoder engine ctx calls idem_key)
            idem_key
            a.hash
            s
          ≡ (proceed, s1)
        → transaction encoder
            (persist_calls redis encoder engine ctx calls idem_key)
            a.request
            idem_key
            ctx.correlation_id
            a.version
            db
          ≡ some db'
        → engine.marshal (
            row_to_response (
              new_notification
                (persist_calls redis encoder engine ctx calls idem_key)
                a.request
                idem_key
                ctx.correlation_id
                a.version))
          ≡ some bytes
        → calls.finalize_fails ≡ false
        → calls.canceled ≡ false
        → owner_from_ctx ctx2 ≡ owner_from_ctx ctx
        → Works calls2.begin
        → calls2.begin.claimed_at < calls.finalized_at + default_ttl
        → calls2.begin.read_at < calls.finalized_at + default_ttl
        → let first =
            create redis encoder engine ctx calls idem_key text scheduler_enabled body db s in
          let again =
            create redis encoder engine ctx2 calls2 idem_key text scheduler_enabled body2 db'
              first.2 in
          (first.0 ≡ written 201 (record { replayed = false; body = bytes ++ (10 ∷ []) }))
          × (first.1 ≡ db')
          × (again ≡ (
            if str_eq a.hash a2.hash
                then written 201 (record { replayed = true; body = bytes })
                else refuse ctx2 err_idempotency_conflict,
            db',
            first.2,
          ))
    unfolding deferred finalized
    create_once ctx ctx2 calls calls2 body body2 db db' s s1 bytes a a2 begun stored marshalled
          works calm same works2 soon soon' =
        let e = first_time ctx calls body db s a s1 db' bytes begun stored marshalled in
        let rec : Record = record {
          body_hash = a.hash;
          status_code = 201;
          body = bytes;
          in_progress = false;
        } in
        let slot = slot_owner redis encoder engine ctx calls idem_key in
        let e' : (create redis encoder engine ctx calls idem_key text scheduler_enabled body db s).2
            ≡ finalize redis calls.finalized_at slot idem_key rec s1 =
          ap (λ r. r.2) e ∙ (if_false _ _ calm ∙ if_false _ _ works) in
        (
          ap (λ r. r.0) e,
          ap (λ r. r.1) e,
          rw e' (
              second_time ctx2 calls2 body2 db' a2 slot calls.finalized_at rec s1
                (slot_owner_same ctx ctx2 calls calls2 same) works2 soon soon'),
        )
