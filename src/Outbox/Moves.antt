-- ===== src/Outbox/Moves.antt =====
-- A cycle of the outbox dispatcher (internal/outbox/dispatcher.go) and the life cycle.
use event_driven_notificatio.Prelude.{
  ℕ, ◌+◌, Bool, true, false, List, [], ◌∷◌, Option, none, some, ◌≡◌, refl, leb, Bool-cases, inl,
  inr,
}
use event_driven_notificatio.Store.{Bytes, Outbox, Db}
use event_driven_notificatio.Store.OutboxTable.{claim_outbox_batch}
use event_driven_notificatio.Store.Lifecycle.{Follows, Follows-refl, Follows-trans}
use event_driven_notificatio.Store.Lifecycle.Statements.{Follows-mark_queued}
use event_driven_notificatio.Store.Lifecycle.Endings.{Follows-mark_dead_letter}
use event_driven_notificatio.Store.Lifecycle.Bulk.{
  Follows-insert_dead_letter, Follows-mark_outbox_published, Follows-mark_outbox_failed,
  Follows-claim_outbox_batch,
}
use event_driven_notificatio.Outbox.{
  Parser, Config, RowCalls, World, unless, target, bury, mark_failure, queued_if, after_publish,
  publish_row, publish_rows, tick,
}

Follows-unless :
    (fails : Bool) (f : Db → Db) (db db' : Db)
    → Follows db db'
    → ((x : Db) → Follows x (f x))
    → Follows db (unless fails f db')
Follows-unless true f db db' h ok = h
Follows-unless false f db db' h ok = Follows-trans db db' (f db') h (ok db')

bury-Follows :
    (calls : RowCalls) (error : Bytes) (r : Outbox) (o : Option ℕ) (db : Db)
    → Follows db (bury calls error r o db)
unfolding bury
bury-Follows calls error r none db = Follows-refl db
bury-Follows calls error r (some id) db =
    Follows-unless calls.dead_row_fails _ db _
      (Follows-unless calls.dead_fails _ db db (Follows-refl db)
        (λ x. Follows-mark_dead_letter id (some error) calls.now x))
      (λ x. Follows-insert_dead_letter _ x)

mark_failure-Follows :
    (parser : Parser) (cfg : Config) (calls : RowCalls) (r : Outbox) (error : Bytes) (db : Db)
    → Follows db (mark_failure parser cfg calls r error db)
unfolding mark_failure
mark_failure-Follows parser cfg calls r error db =
    elim (Bool-cases (leb cfg.max_attempts (r.attempt_count + 1))) [
      | inl over ↦ rw over (
          Follows-unless calls.published_fails _ db _
            (bury-Follows calls error r (target parser r) db)
            (λ x. Follows-mark_outbox_published r.id calls.now x))
      | inr below ↦ rw below (
          Follows-unless calls.failed_fails _ db db (Follows-refl db)
            (λ x. Follows-mark_outbox_failed r.id _ x))
    ]

queued_if-Follows :
    (calls : RowCalls) (o : Option ℕ) (db db' : Db)
    → Follows db db'
    → Follows db (queued_if calls o db')
unfolding queued_if
queued_if-Follows calls none db db' h = h
queued_if-Follows calls (some id) db db' h =
    Follows-unless calls.queued_fails _ db db' h (λ x. Follows-mark_queued id calls.now x)

after_publish-Follows :
    (parser : Parser) (calls : RowCalls) (r : Outbox) (db : Db)
    → Follows db (after_publish parser calls r db)
unfolding after_publish
after_publish-Follows parser calls r db = elim (Bool-cases calls.published_fails) [
  | inl fails ↦ rw fails (Follows-refl db)
  | inr works ↦ rw works (
      queued_if-Follows calls (target parser r) db _
        (Follows-mark_outbox_published r.id calls.now db))
]

publish_row-Follows :
    (parser : Parser) (cfg : Config) (calls : RowCalls) (r : Outbox) (w : World) (o : Option Bytes)
    → calls.publish_error ≡ o
    → Follows w.db (publish_row parser cfg calls r w).db
unfolding publish_row
publish_row-Follows parser cfg calls r w none e = rw e (after_publish-Follows parser calls r w.db)
publish_row-Follows parser cfg calls r w (some error) e =
    rw e (mark_failure-Follows parser cfg calls r error w.db)

publish_rows-Follows :
    (parser : Parser) (cfg : Config) (calls : ℕ → RowCalls) (k : ℕ) (rs : List Outbox) (w : World)
    → Follows w.db (publish_rows parser cfg calls k rs w).db
unfolding publish_rows
publish_rows-Follows parser cfg calls k [] w = Follows-refl w.db
publish_rows-Follows parser cfg calls k (r ∷ rs) w =
    let w' = publish_row parser cfg (calls k) r w in
    Follows-trans w.db w'.db _ (publish_row-Follows parser cfg (calls k) r w _ refl)
      (publish_rows-Follows parser cfg calls (k + 1) rs w')

-- A cycle of the dispatcher, whatever the broker and the database answer, moves every notification
-- along the life cycle only and alters no message.
pub tick-Follows :
    (parser : Parser) (cfg : Config) (claim_fails : Bool) (now : ℕ) (calls : ℕ → RowCalls)
    (w : World)
    → Follows w.db (tick parser cfg claim_fails now calls w).db
unfolding tick
tick-Follows parser cfg true now calls w = Follows-refl w.db
tick-Follows parser cfg false now calls w =
    let batch = claim_outbox_batch cfg.claim_ttl cfg.batch_size cfg.dispatcher_id now w.db in
    Follows-trans w.db batch.1 _
      (Follows-claim_outbox_batch cfg.claim_ttl cfg.batch_size cfg.dispatcher_id now w.db)
      (publish_rows-Follows parser cfg calls 0 batch.0 (record w { db = batch.1 }))
