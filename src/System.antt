-- ===== src/System.antt =====
-- The whole system: the operations of the other modules that write notifications, in any order and
-- with any failures. Each works on the same database; between the operations nothing else writes it.
pub mod History
pub mod Journey
use event_driven_notificatio.Prelude.{ℕ, Bool, String, List, [], ◌∷◌, Option}
use event_driven_notificatio.Store.{Db}
use event_driven_notificatio.Store.Notifications.{
  cancel_pending_or_queued, cancel_pending_or_queued_scoped,
}
use event_driven_notificatio.Worker.Calls as Worker
use event_driven_notificatio.Worker.Handle.{handle_delivery}
use event_driven_notificatio.Outbox as Outbox
use event_driven_notificatio.Producers.{Encoder}
use event_driven_notificatio.Producers.Scheduler as Scheduler
use event_driven_notificatio.Producers.Sweeper as Sweeper
use event_driven_notificatio.Producers.Admin as Admin
use event_driven_notificatio.Api.{CreateRequest, Text}
use event_driven_notificatio.Http.{Decoded}
use event_driven_notificatio.Auth.{Context}
use event_driven_notificatio.Handlers.Batch.{BatchCalls, create_batch}
use event_driven_notificatio.Api.Persist.{PersistCalls, persist}

-- One operation with all that it is given from outside.
pub data Operation : Type 0 where
  create : Encoder → PersistCalls → CreateRequest → String → String → Option ℕ → Operation
  create_many :
      Text → BatchCalls → Encoder → Context → String → Decoded (List CreateRequest) → Operation
  cancel : ℕ → ℕ → Operation
  cancel_own : ℕ → ℕ → ℕ → Operation
  schedule : Encoder → Scheduler.Config → Bool → ℕ → (ℕ → Scheduler.TxCalls) → Operation
  dispatch : Outbox.Parser → Outbox.Config → Bool → ℕ → (ℕ → Outbox.RowCalls) → Operation
  deliver : Worker.Codec → Worker.Calls → String → Worker.Delivery → Operation
  sweep : Encoder → Sweeper.Config → Sweeper.TxCalls → Operation
  replay : Encoder → Admin.ReplayCalls → Option ℕ → Operation
  purge : Admin.ReplayCalls → Option ℕ → Operation

-- What an operation makes of the database. The broker, the provider and the subscribers are
-- told nothing that an operation reads back.
unfoldable pub perform : Operation → Db → Db
perform (create encoder calls req idem_key corr_id version) db =
    persist encoder calls req idem_key corr_id version db
perform (create_many text calls encoder ctx idem_key body) db =
    (create_batch text calls encoder ctx idem_key body db).1
perform (cancel i now) db = (cancel_pending_or_queued i now db).1
perform (cancel_own i owner now) db = (cancel_pending_or_queued_scoped i owner now db).1
perform (schedule encoder cfg claim_fails now calls) db =
    Scheduler.tick encoder cfg claim_fails now calls db
perform (dispatch parser cfg claim_fails now calls) db =
    (Outbox.tick parser cfg claim_fails now calls (record { db = db; messages = [] })).db
perform (deliver codec calls channel d) db =
    (handle_delivery codec calls channel d
      (record { db = db; waits = []; events = []; requests = [] })).1.db
perform (sweep encoder cfg calls) db = Sweeper.tick encoder cfg calls db
perform (replay encoder calls o) db = (Admin.replay encoder calls o db).1
perform (purge calls o) db = (Admin.purge calls o db).1

unfoldable pub perform_all : List Operation → Db → Db
unfolding perform
perform_all [] db = db
perform_all (op ∷ ops) db = perform_all ops (perform op db)
