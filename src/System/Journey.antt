-- ===== src/System/Journey.antt =====
-- A notification from the API to the provider, where every call works.
use event_driven_notificatio.Prelude.{
  ℕ, ◌+◌, ◌≡◌, refl, ap, ◌∙◌, Bool, true, false, String, List, ◌∷◌, Option, none, some, if_false,
}
use event_driven_notificatio.Prelude.Table.{touched}
use event_driven_notificatio.Producers.{Encoder}
use event_driven_notificatio.Producers.Transactions.{Holds}
use event_driven_notificatio.Api.{CreateRequest}
use event_driven_notificatio.Api.Persist.{
  PersistCalls, transaction, later_time, new_notification, new_envelope, new_outbox, Created,
  transaction-Holds,
}
use event_driven_notificatio.Outbox.{
  Parser, Config, RowCalls, PublishMessage, target, message_of, after_publish, queued_if,
  publish_row,
}
use event_driven_notificatio.Store.OutboxTable.{mark_outbox_published}
use event_driven_notificatio.Domain.{pending, sending}
use event_driven_notificatio.Store.{Notification, Outbox, DeliveryAttempt, Db, row}
use event_driven_notificatio.Store.Notifications.{
  find, is_claimable, is_pending, to_queued, to_sending, to_sent, mark_sending_cas, mark_sent,
  mark_queued,
}
use event_driven_notificatio.Store.Lookup.{
  find_of_same, mark_sending_cas_claims, mark_sent_at, find-cas_self,
}
use event_driven_notificatio.Store.Lifecycle.Bulk.{insert_delivery_attempt_same}
use event_driven_notificatio.Provider.{SendRequest, SendResponse, accepted, send}
use event_driven_notificatio.Worker.Calls.{
  Envelope, Delivery, absent, World, Codec, Calls, Verdict, ack, terminal, retry, lock_taken,
}
use event_driven_notificatio.Worker.Gate.{pass, gate}
use event_driven_notificatio.Worker.Deliver.{
  attempted, good_attempt, after_mark_sent, on_accepted, on_sent, deliver, emit_status,
}
use event_driven_notificatio.Worker.Handle.{after_gate, after_cas, after_handle, handle_delivery}
use event_driven_notificatio.Worker.Handle.Verdicts.{Names, handle_delivery_claims}

-- The calls of a delivery that succeeds.
pub record Succeeds (codec : Codec) (calls : Calls) : Type 0 where
  pub cas : calls.cas_fails ≡ false
  pub lock : calls.lock ≡ lock_taken
  pub passed : gate calls ≡ some pass
  pub willing : calls.refused ≡ false
  pub response : SendResponse
  pub answer : send codec.parse_response calls.now calls.http ≡ accepted response
  pub recorded : calls.sent_fails ≡ false

attempt_found :
    (fails : Bool) (a : DeliveryAttempt) (w : World) (j : ℕ)
    → find j (attempted fails a w).db ≡ find j w.db
attempt_found true a w j = refl
attempt_found false a w j = find_of_same j w.db _ (insert_delivery_attempt_same a w.db)

attempt_requests :
    (fails : Bool) (a : DeliveryAttempt) (w : World) → (attempted fails a w).requests ≡ w.requests
attempt_requests true a w = refl
attempt_requests false a w = refl

module _ (codec : Codec) (calls : Calls) (channel : String) (env : Envelope)
    (works : Succeeds codec calls) (n : Notification) where
  Sends : List SendRequest → Verdict × World → Type 0
  Sends requests r =
      (r.0 ≡ ack) × (find n.id r.1.db ≡ some (to_sent calls.now n)) × (r.1.requests ≡ requests)

  module _ (held : n.status ≡ sending) (w : World) (there : find n.id w.db ≡ some n) where
    accepted-Sends : Sends w.requests (on_accepted calls channel n env works.response w)
    unfolding Sends on_accepted after_mark_sent emit_status
    accepted-Sends =
        let a = good_attempt n.id (n.attempt_count + 1) calls.now works.response in
        let w1 : World = attempted calls.attempt_fails a w in
        let found = attempt_found calls.attempt_fails a w n.id ∙ there in
        let s = mark_sent_at n.id w1.db n found held calls.now in
        let db2 : Db = (mark_sent n.id calls.now w1.db).1 in
        let e : on_accepted calls channel n env works.response w
            ≡ after_mark_sent calls channel n env (row (to_sent calls.now n)) w1
                (record w1 { db = db2 }) =
          ap (λ r. after_mark_sent calls channel n env r w1 (record w1 { db = db2 }))
            (if_false _ _ works.recorded ∙ s.0) in
        (
          ap (λ r. r.0) e,
          ap (λ r. find n.id r.1.db) e ∙ s.1,
          ap (λ r. r.1.requests) e ∙ attempt_requests calls.attempt_fails a w,
        )

  abbrev request : SendRequest
  request = record { to = env.recipient; channel = env.channel; content = env.content }

  delivered-Sends :
      (d : Delivery) (w : World)
      → n.status ≡ sending
      → find n.id w.db ≡ some n
      → Sends (request ∷ w.requests) (after_cas codec calls channel n d env calls.lock w)
  unfolding after_cas after_gate deliver on_sent
  delivered-Sends d w held there =
      let w1 : World = record w { requests = request ∷ w.requests } in
      let e : after_cas codec calls channel n d env calls.lock w
          ≡ on_accepted calls channel n env works.response w1 =
        ap (λ l. after_cas codec calls channel n d env l w) works.lock
        ∙ (ap (λ g. after_gate codec calls channel n d env g w) works.passed
            ∙ (if_false _ _ works.willing
                ∙ ap (λ o. on_sent codec calls channel n d env o w1) works.answer)) in
      rw e (accepted-Sends held w1 there)

acked :
    (codec : Codec) (calls : Calls) (d : Delivery) (r : Verdict × World)
    → r.0 ≡ ack
    → after_handle codec calls d r ≡ r
unfolding after_handle
acked codec calls d (ack, w) h = refl
acked codec calls d (terminal, w) h = cc
acked codec calls d (retry, w) h = cc

-- A delivery that names a claimable notification.
handled :
    (codec : Codec) (calls : Calls) (channel : String) (d : Delivery) (env : Envelope)
    (n : Notification) (names : Names codec d env n.id) (works : Succeeds codec calls) (w : World)
    → find n.id w.db ≡ some n
    → is_claimable n ≡ true
    → Sends codec calls channel env works
        (to_sending calls.now n)
        (record { to = env.recipient; channel = env.channel; content = env.content } ∷ w.requests)
        (handle_delivery codec calls channel d w)
unfolding Sends
handled codec calls channel d env n names works w there claimable =
    let c = mark_sending_cas_claims n.id w.db n there calls.now claimable in
    let w1 : World = record w { db = (mark_sending_cas n.id calls.now w.db).1 } in
    let e =
      handle_delivery_claims codec calls channel d env n.id names works.cas w n there claimable in
    let s = delivered-Sends codec calls channel env works (to_sending calls.now n) d w1 refl c.1 in
    rw (e ∙ acked codec calls d _ s.0) s

holds_there : (Q : Db → Type 0) (o : Option Db) (db : Db) → Holds Q o → o ≡ some db → Q db
holds_there Q none db h e = cc
holds_there Q (some db') db h e = let e' : db' ≡ db = cc in rw (← e') h

-- A pending notification whose row of the outbox is published.
queued_found :
    (i j now : ℕ) (db : Db) (n : Notification)
    → find i db ≡ some n
    → n.status ≡ pending
    → find i (mark_queued i now (mark_outbox_published j now db)).1 ≡ some (to_queued now n)
unfolding mark_queued mark_outbox_published
queued_found i j now db n there waits =
    let db' = mark_outbox_published j now db in
    let holds : is_pending n ≡ true = rw waits refl in
    find-cas_self i is_pending (to_queued now) db' (λ m. refl)
    ∙ (ap (touched is_pending (to_queued now)) (find_of_same i db db' refl ∙ there) ∙ rw holds refl)

module _ (encoder : Encoder) (given : PersistCalls) (req : CreateRequest)
    (idem_key corr_id : String) (version : Option ℕ) (db db1 : Db)
    (unused : find given.id db ≡ none)
    (committed : transaction encoder given req idem_key corr_id version db ≡ some db1)
    (immediate : later_time given.clock req.scheduled_at ≡ none) (parser : Parser) (cfg : Config)
    (publishing : RowCalls) (published : publishing.publish_error ≡ none)
    (marked : publishing.published_fails ≡ false)
    (queued_too : publishing.queued_fails ≡ false) where
  abbrev n : Notification
  n = new_notification given req idem_key corr_id version

  abbrev r : Outbox
  r = new_outbox encoder given req idem_key corr_id

  created : Created encoder given req idem_key corr_id version db db1
  created =
      holds_there (Created encoder given req idem_key corr_id version db) _ db1
        (transaction-Holds encoder given req idem_key corr_id version db unused) committed

  new_pending : n.status ≡ pending
  unfolding new_notification
  new_pending = rw immediate refl

  dispatched :
      (messages : List PublishMessage)
      → target parser r ≡ some given.id
      → let w = publish_row parser cfg publishing r (record { db = db1; messages = messages }) in
        (find given.id w.db ≡ some (to_queued publishing.now n))
        × (w.messages ≡ message_of parser r ∷ messages)
  unfolding publish_row after_publish queued_if
  dispatched messages named =
      rw (published, marked, named, queued_too, publish_row, after_publish)
        (queued_found given.id r.id publishing.now db1 n created.stored new_pending, refl)

  -- From the API to the provider. A new notification is committed by the create endpoint's
  -- transaction, for now and under an id that no row has. When the dispatcher publishes its outbox
  -- row, and every statement of that step works, the notification is 'queued' and one message is
  -- posted. Let the message's payload decode to the envelope that was encoded, and its id parse
  -- back. Then a worker of the channel that starts from the dispatcher's database and gets the
  -- message, with no header that counts redeliveries and all of its own calls succeeding, acks it,
  -- leaves the notification 'sent' at that time, and has sent the provider one more request: for the
  -- recipient, channel and content of the create request.
  pub delivered_end_to_end :
      (messages : List PublishMessage) (named : target parser r ≡ some given.id) (codec : Codec)
      (calls : Calls) (works : Succeeds codec calls)
      (decoded : codec.decode (encoder.envelope (new_envelope encoder given req corr_id))
        ≡ some (new_envelope encoder given req corr_id))
      (parsed : codec.parse_uuid (encoder.uuid_text given.id) ≡ some given.id) (w : World)
      (handed : w.db
        ≡ (publish_row parser cfg publishing r (record { db = db1; messages = messages })).db)
      → let p = publish_row parser cfg publishing r (record { db = db1; messages = messages }) in
        let d : Delivery = record { body = (message_of parser r).payload; redeliveries = absent } in
        let (verdict, w') = handle_delivery codec calls req.channel d w in
        (find given.id p.db ≡ some (to_queued publishing.now n))
        × (p.messages ≡ message_of parser r ∷ messages)
        × (verdict ≡ ack)
        × (find given.id w'.db ≡ some (to_sent calls.now n))
        × (w'.requests
            ≡ record { to = req.recipient; channel = req.channel; content = req.content }
              ∷ w.requests)
  unfolding new_notification new_outbox new_envelope message_of Sends
  delivered_end_to_end messages named codec calls works decoded parsed w handed =
      let m = to_queued publishing.now n in
      let posted = dispatched messages named in
      let there : find given.id w.db ≡ some m = ap (find given.id) handed ∙ posted.0 in
      let d : Delivery = record { body = (message_of parser r).payload; redeliveries = absent } in
      let names : Names codec d (new_envelope encoder given req corr_id) given.id = record {
        decoded = decoded;
        parsed = parsed;
        below_cap = refl;
      } in
      let s =
        handled codec calls req.channel d (new_envelope encoder given req corr_id) m names works w
          there refl in
      (posted.0, posted.1, s.0, s.1, s.2)
