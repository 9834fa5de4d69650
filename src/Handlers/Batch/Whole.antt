-- ===== src/Handlers/Batch/Whole.antt =====
-- A batch is created as a whole or not at all.
use event_driven_notificatio.Prelude.{
  ℕ, suc, ◌+◌, ◌-◌, ◌≤◌, ◌≡◌, refl, ap, ◌∙◌, ◌⊎◌, inl, inr, Bool, true, false, String, List, [],
  ◌∷◌, Option, ltb, if◌then◌else◌, ◌==◌, length, map, leb, arith, Option-cases,
}
use event_driven_notificatio.Store.{Batch, Db, Reply, row, failure}
use event_driven_notificatio.Store.Notifications.{id_of}
use event_driven_notificatio.Store.Batches.{insert_batch, find_batch}
use event_driven_notificatio.Store.Lifecycle.{Follows, Follows-refl, Follows-trans}
use event_driven_notificatio.Store.Lifecycle.Bulk.{Follows-of_same}
use event_driven_notificatio.Producers.{Encoder}
use event_driven_notificatio.Api.{CreateRequest, FieldError, Text}
use event_driven_notificatio.Http.{
  Failure, Sentinel, not_found, problem_of, write_problem_full, write_error_as_problem,
  write_validation_problem, Response, written, status_code, Outcome, done, failed, ◌>>=◌, call,
  in_call, Decoded, decoded, malformed,
}
use event_driven_notificatio.Auth.{Context, owner_from_ctx}
use event_driven_notificatio.Handlers.Batch.Added.{Added, Ends, and_then, in_call-Ends, call-Ends}
use event_driven_notificatio.Handlers.Batch.Items.{
  List-cases, Items, Results, insert_items-Ends, ids,
}
use event_driven_notificatio.Handlers.Batch.{
  max_batch_items, BatchCalls, ItemResult, BatchResponse, taken, item_errors, valid_count,
  insert_items, batch_row, batch_transaction, batch_response, batch_answer, create_batch,
}

valid_count_le :
    (text : Text) (calls : BatchCalls) (i : ℕ) (items : List CreateRequest)
    → valid_count text calls i items ≤ length items
unfolding valid_count
valid_count_le text calls i [] = omega arith
valid_count_le text calls i (it ∷ its) = elim (List-cases (item_errors text calls i it)) [
  | inl good ↦
      let h = valid_count_le text calls (suc i) its in rw (good, valid_count) (omega (arith, h))
  | inr (e, es, bad) ↦
      let h = valid_count_le text calls (suc i) its in rw (bad, valid_count) (omega (arith, h))
]

problem_of_status : (s : Sentinel) (text : String) → 400 ≤ (problem_of s text).status
unfolding problem_of
problem_of_status not_found text = omega arith
problem_of_status _ text = omega arith

error_status : (corr_id : String) (e : Failure) → 400 ≤ (write_error_as_problem corr_id e).status
unfolding write_error_as_problem write_problem_full
error_status corr_id e = let h = problem_of_status e.sentinel e.text in ground arith

validation_status :
    (corr_id : String) (errors : List FieldError)
    → 400 ≤ (write_validation_problem corr_id errors).status
unfolding write_validation_problem write_problem_full
validation_status corr_id errors = ground arith

code_flip :
    (v n : ℕ) → v ≤ n → ◌≡◌ {A = ℕ} (if ltb v n then 207 else 201) (if v == n then 201 else 207)
code_flip v n h = ground arith

if_both {ℓ κ} :
    {A : Type ℓ} → (Q : A → Type κ) (b : Bool) (x y : A) → Q x → Q y → Q (if b then x else y)
if_both Q true x y hx hy = hx
if_both Q false x y hx hy = hy

-- The answer to a batch that is stored, and what is stored.
pub record Stored (text : Text) (calls : BatchCalls) (encoder : Encoder) (ctx : Context)
    (idem_key : String) (items : List CreateRequest) (db : Db) (r : Response BatchResponse × Db)
    : Type 0 where
  pub results : List ItemResult
  pub status : String
  pub answered :
      r.0
      ≡ written
          (if valid_count text calls 0 items == length items then 201 else 207)
          (batch_response text calls status items results)
  pub sums :
      let b = batch_row text calls idem_key items in
      b.accepted_count + b.rejected_count ≡ b.total_count
  pub one_batch : r.1.batches ≡ batch_row text calls idem_key items ∷ db.batches
  pub added :
      Added encoder
        (owner_from_ctx ctx)
        calls.batch_id
        (valid_count text calls 0 items)
        (record db { batches = batch_row text calls idem_key items ∷ db.batches })
        r.1
  pub told : map id_of added.new ≡ ids results
  pub one_result_each : length results ≡ length items
  pub item_by_item :
      Results text calls encoder
        (owner_from_ctx ctx)
        ctx.correlation_id
        0
        items
        results
        added.new
        added.new_outbox

module _ (text : Text) (calls : BatchCalls) (encoder : Encoder) (owner : Option ℕ)
    (corr_id idem_key : String) (items : List CreateRequest) (db : Db) where
  abbrev with_batch : Db
  with_batch = record db { batches = batch_row text calls idem_key items ∷ db.batches }

  Committed : List ItemResult × Db → Type 0
  Committed =
      Items text calls encoder owner corr_id 0 items (valid_count text calls 0 items) (length items)
        with_batch

  inserted_batch :
      (insert_batch (batch_row text calls idem_key items) db
        ≡ (row (batch_row text calls idem_key items), with_batch))
      ⊎ (insert_batch (batch_row text calls idem_key items) db ≡ (failure, db))
  unfolding insert_batch batch_row
  inserted_batch = elim (Option-cases (find_batch calls.batch_id db)) [
    | inl unused ↦
        let h = valid_count_le text calls 0 items in
        let fits : leb
              (valid_count text calls 0 items + (length items - valid_count text calls 0 items))
              (length items)
            ≡ true =
          ground arith in
        inl (rw (unused, insert_batch, fits) refl)
    | inr (b, there) ↦ inr (rw (there, insert_batch) refl)
  ]

  taken-Ends :
      (a : Reply Batch × Db)
      → a ≡ insert_batch (batch_row text calls idem_key items) db
      → Ends (λ r. r.1 ≡ with_batch) (taken a)
  taken-Ends a e = elim inserted_batch [
    | inl stored ↦ rw (e ∙ stored) refl
    | inr refusal ↦ rw (e ∙ refusal) tt
  ]

  commit-Ends :
      (db1 : Db)
      → db1 ≡ with_batch
      → Ends Committed (
          insert_items text calls encoder owner corr_id 0 items db1
          >>= (λ r. in_call "commit" (call calls.commit_fails (r.0, r.1))))
  unfolding Committed
  commit-Ends db1 e =
      and_then Committed Committed _ _
        (rw e (insert_items-Ends text calls encoder owner corr_id 0 items with_batch))
        (λ r h. in_call-Ends Committed "commit" _ (call-Ends Committed calls.commit_fails r h))

  transaction-Ends :
      Ends Committed (batch_transaction text calls encoder owner corr_id idem_key items db)
  unfolding batch_transaction
  transaction-Ends =
      and_then (λ _. Unit) Committed _ _
        (in_call-Ends _ "begin tx" _ (call-Ends _ calls.begin_fails db tt))
        (λ _ _.
          and_then (λ a. a ≡ insert_batch (batch_row text calls idem_key items) db) Committed _ _
            (in_call-Ends _ "insert batch" _ (call-Ends _ calls.batch_fails _ refl))
            (λ a e.
              and_then (λ r. r.1 ≡ with_batch) Committed _ _
                (in_call-Ends _ "insert batch" _ (taken-Ends a e)) (λ r e'. commit-Ends r.1 e')))

module _ (text : Text) (calls : BatchCalls) (encoder : Encoder) (ctx : Context) (idem_key : String)
    (db : Db) where
  abbrev pub Result : Decoded (List CreateRequest) → Response BatchResponse × Db → Type 0
  Result body r =
      ((r.1 ≡ db) × (400 ≤ status_code r.0))
      ⊎ ((items : List CreateRequest) × (body ≡ decoded items)
          × Stored text calls encoder ctx idem_key items db r)

  answer-Result :
      (items : List CreateRequest) (o : Outcome (List ItemResult × Db))
      → Ends
          (Committed text calls encoder (owner_from_ctx ctx) ctx.correlation_id idem_key items db)
          o
      → Result (decoded items) (batch_answer text calls ctx items db o)
  unfolding batch_answer Committed Items batch_row
  answer-Result items (failed e) h = inl (refl, error_status ctx.correlation_id e)
  answer-Result items (done (results, db')) (a, told, len, rs) =
      let h = valid_count_le text calls 0 items in
      inr (
        items,
        refl,
        record {
          results = results;
          status =
              if ltb (valid_count text calls 0 items) (length items) then "partial" else "accepted";
          answered =
              ap
                (λ c. written c (
                  batch_response text calls
                    (if ltb (valid_count text calls 0 items) (length items)
                      then "partial"
                      else "accepted")
                    items results))
                (code_flip (valid_count text calls 0 items) (length items) h);
          sums = omega (arith, h);
          one_batch = a.batches;
          added = a;
          told = told;
          one_result_each = len;
          item_by_item = rs;
        },
      )

  -- A batch request, whatever its body, its items and the calls that fail. Either the answer is an
  -- error and the database is as it was, or the answer is 201 where every item was accepted and 207
  -- where some were refused, with one result for each item and counts that add up, and the
  -- database has one new batch with the same counts and, for every accepted item and no other, in
  -- their order, a 'pending' notification of that batch and of the caller's key, with the item's
  -- channel, recipient, content and priority ('normal' if it has none), and one row of the outbox
  -- that carries the same to the channel's key. The result of an item has the item's index, and the
  -- identifier of its notification and 'pending', or else a problem 400 with the errors of its
  -- checks. The schedule is not touched.
  pub create_batch_whole :
      (body : Decoded (List CreateRequest))
      → Result body (create_batch text calls encoder ctx idem_key body db)
  unfolding create_batch
  create_batch_whole (malformed message) = inl (refl, validation_status ctx.correlation_id _)
  create_batch_whole (decoded items) =
      let Q : Response BatchResponse × Db → Type 0 = Result (decoded items) in
      if_both Q (length items == 0) _ _ (inl (refl, validation_status ctx.correlation_id _)) (
        if_both Q (ltb max_batch_items (length items)) _ _
          (inl (refl, validation_status ctx.correlation_id _))
          (if_both Q (valid_count text calls 0 items == 0) _ _ (inl (refl, omega arith)) (
            answer-Result items _ (
              transaction-Ends text calls encoder (owner_from_ctx ctx) ctx.correlation_id idem_key
                items db))))

  Follows-Result :
      (body : Decoded (List CreateRequest)) (r : Response BatchResponse × Db)
      → Result body r
      → Follows db r.1
  Follows-Result body r (inl (same, _)) = rw same (Follows-refl db)
  Follows-Result body r (inr (items, _, s)) =
      let db1 : Db = record db { batches = batch_row text calls idem_key items ∷ db.batches } in
      Follows-trans db db1 r.1 (Follows-of_same db db1 refl) s.added.follows

  pub create_batch-Follows :
      (body : Decoded (List CreateRequest))
      → Follows db (create_batch text calls encoder ctx idem_key body db).1
  create_batch-Follows body = Follows-Result body _ (create_batch_whole body)
