-- ===== src/System/History.antt =====
-- What no sequence of operations can do to a notification.
use event_driven_notificatio.Prelude.{
  ℕ, ◌≡◌, refl, Bool, true, false, List, [], ◌∷◌, Option, none, some, All, Bool-cases, inl, inr,
  ◌∙◌,
}
use event_driven_notificatio.Domain.{Status, sent, dead_letter}
use event_driven_notificatio.Store.{Notification, Db}
use event_driven_notificatio.Store.Notifications.{find}
use event_driven_notificatio.Store.Lifecycle.{
  ◌⟶◌, ◌⟶*◌, here, next, due, publish, claim, pick_up, revert, withdraw, withdraw_queued,
  withdraw_scheduled, bury_pending, bury_scheduled, bury_queued, bury, bury_failed, bury_cancelled,
  bury_again, Message, message, is_consistent, Step, Evolves, Follows, Follows-refl, Follows-trans,
}
use event_driven_notificatio.Store.Lifecycle as Lifecycle
use event_driven_notificatio.Store.Lifecycle.Statements.{Follows-cancel_pending_or_queued}
use event_driven_notificatio.Store.Lifecycle.Endings.{
  RestartsAt, MayRestart, Follows-cancel_pending_or_queued_scoped,
}
use event_driven_notificatio.Worker.Handle.Moves.{handle_delivery-Follows}
use event_driven_notificatio.Outbox.Moves.{tick-Follows}
use event_driven_notificatio.Producers.Scheduler.Once.{scheduler-Follows}
use event_driven_notificatio.Producers.Sweeper.Reclaims.{sweeper-Follows}
use event_driven_notificatio.Producers.Admin.Replay.{replay-MayRestart, purge-Follows}
use event_driven_notificatio.Api.Persist.{persist-Follows}
use event_driven_notificatio.Handlers.Batch.Whole.{create_batch-Follows}
use event_driven_notificatio.System.{
  Operation, create, create_many, cancel, cancel_own, schedule, dispatch, deliver, sweep, replay,
  purge, perform, perform_all,
}

-- A replay of a dead letter starts a notification's life again.
abbrev pub is_replay : Operation → Bool
is_replay (replay _ _ _) = true
is_replay _ = false

perform-Follows : (op : Operation) (db : Db) → is_replay op ≡ false → Follows db (perform op db)
unfolding perform
perform-Follows (create encoder calls req idem_key corr_id version) db h =
    persist-Follows encoder calls req idem_key corr_id version db
perform-Follows (create_many text calls encoder ctx idem_key body) db h =
    create_batch-Follows text calls encoder ctx idem_key db body
perform-Follows (cancel i now) db h = Follows-cancel_pending_or_queued i now db
perform-Follows (cancel_own i owner now) db h =
    Follows-cancel_pending_or_queued_scoped i owner now db
perform-Follows (schedule encoder cfg claim_fails now calls) db h =
    scheduler-Follows encoder cfg claim_fails now calls db
perform-Follows (dispatch parser cfg claim_fails now calls) db h =
    tick-Follows parser cfg claim_fails now calls (record { db = db; messages = [] })
perform-Follows (deliver codec calls channel d) db h =
    handle_delivery-Follows codec calls channel d
      (record { db = db; waits = []; events = []; requests = [] })
perform-Follows (sweep encoder cfg calls) db h = sweeper-Follows encoder cfg calls db
perform-Follows (replay encoder calls o) db h = cc
perform-Follows (purge calls o) db h = purge-Follows calls o db

-- After any of the operations but replays, in any order and with any failures, every notification that
-- was stored is still stored with the message that the client gave (the correlation id included), a
-- consistent row has reached its status along the life cycle and is consistent, and every row that
-- is new is consistent. In the life cycle nothing leaves 'sent' or 'dead_letter', a cancelled row can
-- only be buried, and 'sending' leads only to 'sent', 'queued' and 'dead_letter'.
pub perform_all-Follows :
    (ops : List Operation) (db : Db)
    → All (λ op. is_replay op ≡ false) ops
    → Follows db (perform_all ops db)
unfolding perform_all
perform_all-Follows [] db h = Follows-refl db
perform_all-Follows (op ∷ ops) db h =
    Follows-trans db (perform op db) _ (perform-Follows op db h.0)
      (perform_all-Follows ops (perform op db) h.1)

abbrev is_sent : Status → Bool
is_sent sent = true
is_sent _ = false

sent_stays_step : {s t : Status} → s ⟶ t → is_sent s ≡ true → is_sent t ≡ true
sent_stays_step Lifecycle.deliver h = refl
sent_stays_step due h = cc
sent_stays_step publish h = cc
sent_stays_step claim h = cc
sent_stays_step pick_up h = cc
sent_stays_step revert h = cc
sent_stays_step withdraw h = cc
sent_stays_step withdraw_queued h = cc
sent_stays_step withdraw_scheduled h = cc
sent_stays_step bury_pending h = cc
sent_stays_step bury_scheduled h = cc
sent_stays_step bury_queued h = cc
sent_stays_step bury h = cc
sent_stays_step bury_failed h = cc
sent_stays_step bury_cancelled h = cc
sent_stays_step bury_again h = cc

sent_stays : {s t : Status} → s ⟶* t → is_sent s ≡ true → is_sent t ≡ true
sent_stays here h = h
sent_stays (next e p) h = sent_stays p (sent_stays_step e h)

sent_only : (s : Status) → is_sent s ≡ true → s ≡ sent
sent_only sent h = refl
sent_only _ h = cc

-- A row that is sent.
pub record Kept (n : Notification) (o : Option Notification) : Type 0 where
  pub row : Notification
  pub found : o ≡ some row
  pub status : row.status ≡ sent
  pub consistent : is_consistent row ≡ true
  pub same : message row ≡ message n

kept :
    (n : Notification) (o : Option Notification)
    → Evolves (some n) o
    → is_consistent n ≡ true
    → n.status ≡ sent
    → Kept n o
kept n none e c s = elim e [ ]
kept n (some n') e c s = record {
  row = n';
  found = refl;
  status = sent_only n'.status (sent_stays (e.moves c) (rw s refl));
  consistent = e.stays c;
  same = e.same;
}

not_dead : (s : Status) → s ≡ dead_letter → s ≡ sent → ⊥
not_dead s d e = let x : dead_letter ≡ sent = cc in cc

unrestarted :
    (n : Notification) (o o' : Option Notification)
    → o ≡ some n
    → RestartsAt o o'
    → is_consistent n ≡ true
    → n.status ≡ sent
    → Kept n o'
unrestarted n o o' there (inl e) c s = record {
  row = n;
  found = e ∙ there;
  status = s;
  consistent = c;
  same = refl;
}
unrestarted n o o' there (inr (m, m', e, _, r)) c s =
    let same : some m ≡ some n = cc in
    let m_n : m ≡ n = cc in elim (not_dead n.status (rw (← m_n) r.dead) s) [ ]

step-Kept :
    (op : Operation) (db : Db) (i : ℕ) (n : Notification)
    → find i db ≡ some n
    → is_consistent n ≡ true
    → n.status ≡ sent
    → Kept n (find i (perform op db))
unfolding Follows MayRestart perform
step-Kept op db i n there c s = elim (Bool-cases (is_replay op)) [
  | inr no_p ↦ kept n _ (rw (← there) (perform-Follows op db no_p i)) c s
  | inl yes_p ↦ replay_kept op yes_p
]
  where
    replay_kept : (op : Operation) → is_replay op ≡ true → Kept n (find i (perform op db))
    replay_kept (replay encoder calls o) h =
        unrestarted n _ _ there (replay-MayRestart encoder calls o db i) c s
    replay_kept _ h = cc

-- A notification that has been sent, in a row that is consistent as the table's CHECK demands, stays
-- stored and sent with its message, whatever operations follow and whatever fails in them: it
-- is never given back, cancelled, buried or replayed.
pub sent_is_final :
    (ops : List Operation) (db : Db) (i : ℕ) (n : Notification)
    → find i db ≡ some n
    → is_consistent n ≡ true
    → n.status ≡ sent
    → Kept n (find i (perform_all ops db))
unfolding perform_all
sent_is_final [] db i n there c s = record {
  row = n;
  found = there;
  status = s;
  consistent = c;
  same = refl;
}
sent_is_final (op ∷ ops) db i n there c s =
    let k = step-Kept op db i n there c s in
    let l = sent_is_final ops (perform op db) i k.row k.found k.consistent k.status in
    record {
      row = l.row;
      found = l.found;
      status = l.status;
      consistent = l.consistent;
      same = l.same ∙ k.same;
    }
