-- ===== src/Handlers/Create/Canceled.antt =====
-- A create whose client goes away after the commit.
use event_driven_notificatio.Prelude.{
  ◌≡◌, ap, ◌∙◌, Bool, true, false, String, str_eq, some, if_true, if_false,
}
use event_driven_notificatio.Store.{Bytes, Db}
use event_driven_notificatio.Producers.{Encoder}
use event_driven_notificatio.Api.{CreateRequest, Text}
use event_driven_notificatio.Api.Persist.{transaction, new_notification}
use event_driven_notificatio.Idempotency.{
  Redis, Laws, proceed, BeginCalls, begin_or_replay, release, key,
}
use event_driven_notificatio.Idempotency.Replays.{Works, begin_free}
use event_driven_notificatio.Http.{Decoded}
use event_driven_notificatio.Auth.{Context}
use event_driven_notificatio.Handlers.{row_to_response}
use event_driven_notificatio.Handlers.Create.{Variables, Engine, CreateCalls}
use event_driven_notificatio.Handlers.Create.Submit.{
  persist_calls, slot_owner, create, deferred, finalized, released,
}
use event_driven_notificatio.Handlers.Create.Once.{Accepted, first_time}

-- A request with an idempotency key that gets the slot and whose transaction commits, but whose
-- context is done when the handler returns: the deferred release, where its command works, deletes
-- the record that was to be replayed, whether or not it was written, so that the next request with the key, of any body, is told to go
-- ahead although the notification is stored.
pub canceled_forgets :
    (redis : Redis) (laws : Laws redis) (encoder : Encoder) (engine : Engine) (text : Text)
    (scheduler_enabled : Bool) (idem_key : String) (named : str_eq idem_key "" ≡ false)
    (ctx : Context) (calls : CreateCalls) (body : Decoded (CreateRequest × Variables)) (db db' : Db)
    (s s1 : redis.State) (bytes : Bytes)
    (a : Accepted ctx engine text scheduler_enabled calls body db)
    → begin_or_replay redis calls.begin
        (slot_owner redis encoder engine ctx calls idem_key)
        idem_key
        a.hash
        s
      ≡ (proceed, s1)
    → transaction encoder
        (persist_calls redis encoder engine ctx calls idem_key)
        a.request
        idem_key
        ctx.correlation_id
        a.version
        db
      ≡ some db'
    → engine.marshal (
        row_to_response (
          new_notification
            (persist_calls redis encoder engine ctx calls idem_key)
            a.request
            idem_key
            ctx.correlation_id
            a.version))
      ≡ some bytes
    → calls.canceled ≡ true
    → calls.release_fails ≡ false
    → (again : BeginCalls) (hash : String) → Works again
    → let first = create redis encoder engine ctx calls idem_key text scheduler_enabled body db s in
      (first.1 ≡ db')
      × ((begin_or_replay redis again
            (slot_owner redis encoder engine ctx calls idem_key)
            idem_key
            hash
            first.2).0
          ≡ proceed)
unfolding deferred released release
canceled_forgets redis laws encoder engine text scheduler_enabled idem_key named ctx calls body db
      db' s s1 bytes a begun stored marshalled gone works again hash works2 =
    let e =
      first_time redis encoder engine text scheduler_enabled idem_key named ctx calls body db s a s1
        db' bytes begun stored marshalled in
    let slot = slot_owner redis encoder engine ctx calls idem_key in
    let s2 : redis.State =
      finalized redis encoder engine ctx calls idem_key
        (record { body_hash = a.hash; status_code = 201; body = bytes; in_progress = false }) s1 in
    let e' : (create redis encoder engine ctx calls idem_key text scheduler_enabled body db s).2
        ≡ redis.del (key slot idem_key) s2 =
      ap (λ r. r.2) e ∙ (if_true _ _ gone ∙ if_false _ _ works) in
    (
      ap (λ r. r.1) e,
      rw e' (
          ap (λ r. r.0)
            (begin_free redis slot idem_key named again hash (redis.del (key slot idem_key) s2)
              works2 (laws.get-del again.claimed_at (key slot idem_key) s2))),
    )
