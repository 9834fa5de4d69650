-- ===== src/Producers/Sweeper.antt =====
-- internal/sweeper/sending.go: one cycle of the sweeper, a single transaction.
pub mod Reclaims
use event_driven_notificatio.Prelude.{
  ℕ, ◌+◌, Bool, true, false, String, List, [], ◌∷◌, Option, none, some,
}
use event_driven_notificatio.Domain.{priority_from_int}
use event_driven_notificatio.Store.{Notification, Outbox, Db}
use event_driven_notificatio.Store.Notifications.{sweep_stuck_sending}
use event_driven_notificatio.Store.OutboxTable.{insert_outbox}
use event_driven_notificatio.Producers.{Encoder, outbox_row, step, committed, ◌>>=◌}

-- Lengths of time in seconds.
pub record Config : Type 0 where
  pub poll_interval : ℕ
  pub stuck_after : ℕ

-- Default
unfoldable pub default : Config
default = record { poll_interval = 30; stuck_after = 300 }

-- Which calls fail (for an insertion by its position), and the ids of the new rows.
pub record TxCalls : Type 0 where
  pub now : ℕ
  pub begin_fails : Bool
  pub sweep_fails : Bool
  pub outbox_fails : ℕ → Bool
  pub outbox_ids : ℕ → ℕ
  pub commit_fails : Bool

unfoldable pub reclaim_row : Encoder → TxCalls → ℕ → Notification → Outbox
reclaim_row encoder calls k n =
    let hdrs =
      ("x-correlation-id", n.correlation_id) ∷ ("x-reclaim-source", "sending-sweeper") ∷ [] in
    outbox_row encoder priority_from_int hdrs (calls.outbox_ids k) calls.now n

unfoldable pub insert_all : Encoder → TxCalls → ℕ → List Notification → Db → Option Db
unfolding reclaim_row
insert_all encoder calls k [] db = some db
insert_all encoder calls k (n ∷ ns) db = do
  db' ← step (calls.outbox_fails k) (insert_outbox (reclaim_row encoder calls k n) db)
  insert_all encoder calls (k + 1) ns db'

-- After the sweep: with nothing reclaimed the transaction is rolled back.
unfoldable pub after_sweep : Encoder → TxCalls → List Notification → Db → Option Db
unfolding insert_all
after_sweep encoder calls [] db = none
after_sweep encoder calls (n ∷ ns) db = do
  db' ← insert_all encoder calls 0 (n ∷ ns) db
  step calls.commit_fails db'

unfoldable pub transaction : Encoder → Config → TxCalls → Db → Option Db
unfolding after_sweep
transaction encoder cfg calls db = do
  _ ← step calls.begin_fails db
  swept ← step calls.sweep_fails (sweep_stuck_sending cfg.stuck_after calls.now db)
  after_sweep encoder calls swept.0 swept.1

-- tick
unfoldable pub tick : Encoder → Config → TxCalls → Db → Db
unfolding transaction
tick encoder cfg calls db = committed (transaction encoder cfg calls db) db
