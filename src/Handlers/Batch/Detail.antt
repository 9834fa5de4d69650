-- ===== src/Handlers/Batch/Detail.antt =====
-- getByBatch of internal/api/notifications_batch.go: a batch with the notifications of it that the
-- caller may see.
use event_driven_notificatio.Prelude.{ℕ, String, List, map, Option, none, some, if◌then◌else◌}
use event_driven_notificatio.Store.{Notification, Batch, Db, of_option}
use event_driven_notificatio.Store.Batches.{find_batch, batch_items, batch_items_scoped}
use event_driven_notificatio.Http.{
  Failure, wrapped, err_not_found, Response, written, Outcome, done, failed, call,
}
use event_driven_notificatio.Auth.{Context, is_admin, owner_from_ctx}
use event_driven_notificatio.Handlers.{
  NotificationResponse, row_to_response, Fetched, fetched, missing, broken, fetch, refuse,
  refuse_id,
}

-- batchDetailResponse
pub record BatchDetail : Type 0 where
  pub id : ℕ
  pub status : String
  pub total_count : ℕ
  pub accepted_count : ℕ
  pub rejected_count : ℕ
  pub items : List NotificationResponse

pub record DetailCalls : Type 0 where
  pub batch_fails : Option Failure
  pub items_fail : Option Failure

unfoldable pub detail_of : Batch → List Notification → BatchDetail
detail_of b ns = record {
  id = b.id;
  status = b.status;
  total_count = b.total_count;
  accepted_count = b.accepted_count;
  rejected_count = b.rejected_count;
  items = map row_to_response ns;
}

abbrev pub detail_answer : Context → Batch → Outcome (List Notification) → Response BatchDetail
unfolding refuse detail_of
detail_answer ctx b (done ns) = written 200 (detail_of b ns)
detail_answer ctx b (failed e) = refuse ctx (wrapped "list batch items" e)

abbrev pub owned_items : Context → DetailCalls → ℕ → Db → Batch → Option ℕ → Response BatchDetail
unfolding refuse batch_items_scoped detail_of
owned_items ctx calls i db b none = refuse ctx err_not_found
owned_items ctx calls i db b (some owner) =
    detail_answer ctx b (call calls.items_fail (batch_items_scoped i owner db))

abbrev pub found_batch : Context → DetailCalls → ℕ → Db → Fetched Batch → Response BatchDetail
unfolding is_admin owner_from_ctx refuse batch_items batch_items_scoped detail_of
found_batch ctx calls i db missing = refuse ctx err_not_found
found_batch ctx calls i db (broken e) = refuse ctx (wrapped "get batch" e)
found_batch ctx calls i db (fetched b) =
    if is_admin ctx
    then detail_answer ctx b (call calls.items_fail (batch_items i db))
    else owned_items ctx calls i db b (owner_from_ctx ctx)

abbrev pub detail_parsed : Context → DetailCalls → Db → Option ℕ → Response BatchDetail
unfolding is_admin owner_from_ctx refuse refuse_id find_batch batch_items batch_items_scoped
    detail_of
detail_parsed ctx calls db none = refuse_id ctx "batchId"
detail_parsed ctx calls db (some i) =
    found_batch ctx calls i db (fetch calls.batch_fails (of_option (find_batch i db)))

-- getByBatch
unfoldable pub get_by_batch : Context → DetailCalls → String → Db → Response BatchDetail
unfolding is_admin owner_from_ctx refuse refuse_id find_batch batch_items batch_items_scoped
    detail_of
get_by_batch ctx calls id db = detail_parsed ctx calls db (ctx.parse_uuid id)
