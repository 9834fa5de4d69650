-- ===== src/Handlers/Batch/Items.antt =====
-- What becomes of each item of a batch.
use event_driven_notificatio.Prelude.{
  ℕ, suc, ◌≡◌, refl, ap, ◌∙◌, ◌⊎◌, inl, inr, String, List, [], ◌∷◌, ◌++◌, Option, none, some,
  length, map, arith,
}
use mathlib.Core.List.{map-append}
use event_driven_notificatio.Domain.{pending}
use event_driven_notificatio.Store.{Notification, Outbox, Db}
use event_driven_notificatio.Store.Notifications.{id_of}
use event_driven_notificatio.Producers.{Encoder}
use event_driven_notificatio.Api.{CreateRequest, FieldError, Text}
use event_driven_notificatio.Http.{Problem, problem}
use event_driven_notificatio.Handlers.Batch.{
  BatchCalls, ItemResult, with_priority, item_errors, valid_count, insert_items, rejected_item,
  accepted_item,
}
use event_driven_notificatio.Handlers.Batch.Added.{
  Added, Carries, priority_of, with_priority_lem, Ends, and_then, in_call-Ends, Added-refl,
  Added-trans, Inserted, item-Ends,
}

-- The identifiers of the accepted items, in order.
unfoldable pub ids : List ItemResult → List ℕ
ids [] = []
ids (r ∷ rs) = elim r.id [ none ↦ ids rs | some i ↦ i ∷ ids rs ]

pub List-cases {ℓ} :
    {A : Type ℓ} (xs : List A) → (xs ≡ []) ⊎ ((x : A) × (rest : List A) × (xs ≡ x ∷ rest))
List-cases [] = inl refl
List-cases (x ∷ xs) = inr (x, xs, refl)

module _ (text : Text) (calls : BatchCalls) (encoder : Encoder) (owner : Option ℕ)
    (corr_id : String) where
  -- What became of the items from an index on: their results, and the notifications and rows of the
  -- outbox of the accepted ones.
  pub data Results
      : ℕ → List CreateRequest → List ItemResult → List Notification → List Outbox → Type 0 where
    finished : {i : ℕ} → Results i [] [] [] []
    took :
        {i : ℕ} (it : CreateRequest) (r : ItemResult) (n : Notification) (o : Outbox)
        {its : List CreateRequest} {rs : List ItemResult} {ns : List Notification}
        {os : List Outbox}
        → item_errors text calls i it ≡ []
        → r ≡ record { index = i; id = some n.id; status = some pending; error = none }
        → Carries encoder owner calls.batch_id calls.now
            (calls.item i)
            corr_id
            (record it { priority = priority_of it })
            n
            o
        → Results (suc i) its rs ns os
        → Results i (it ∷ its) (r ∷ rs) (n ∷ ns) (o ∷ os)
    turned_down :
        {i : ℕ} (it : CreateRequest) (r : ItemResult) (e : FieldError) (es : List FieldError)
        (p : Problem) {its : List CreateRequest} {rs : List ItemResult} {ns : List Notification}
        {os : List Outbox}
        → item_errors text calls i it ≡ e ∷ es
        → r ≡ record { index = i; id = none; status = none; error = some p }
        → (p.status ≡ 400) × (p.errors ≡ e ∷ es)
        → Results (suc i) its rs ns os
        → Results i (it ∷ its) (r ∷ rs) ns os

  unfoldable pub Items : ℕ → List CreateRequest → ℕ → ℕ → Db → List ItemResult × Db → Type 0
  Items i its count total db r =
      (a : Added encoder owner calls.batch_id count db r.1) × (map id_of a.new ≡ ids r.0)
      × (length r.0 ≡ total)
      × Results i its r.0 a.new a.new_outbox

  took_one :
      (i : ℕ) (it : CreateRequest) (m : Notification) (o : Outbox) (its : List CreateRequest)
      (rs : List ItemResult) (ms ns : List Notification) (ps os : List Outbox)
      → item_errors text calls i it ≡ []
      → ms ≡ m ∷ []
      → ps ≡ o ∷ []
      → Carries encoder owner calls.batch_id calls.now (calls.item i) corr_id (with_priority it) m o
      → Results (suc i) its rs ns os
      → Results i (it ∷ its) (accepted_item i m ∷ rs) (ms ++ ns) (ps ++ os)
  unfolding accepted_item
  took_one i it m o its rs ms ns ps os good e e' c rest =
      let c' : Carries encoder owner calls.batch_id calls.now (calls.item i) corr_id
          (record it { priority = priority_of it }) m o =
        rw (← with_priority_lem it) c in
      rw (e, e') (took it (accepted_item i m) m o good (rw c.waits refl) c' rest)

  accepted-Items :
      (i count total : ℕ) (it : CreateRequest) (its : List CreateRequest) (db : Db)
      (m : Notification) (db1 : Db) (r : List ItemResult × Db)
      → item_errors text calls i it ≡ []
      → Inserted encoder owner calls.batch_id calls.now
          (calls.item i)
          (with_priority it)
          corr_id
          db
          (m, db1)
      → Items (suc i) its count total db1 r
      → Items i (it ∷ its) (suc count) (suc total) db (accepted_item i m ∷ r.0, r.1)
  unfolding Items Inserted ids Added-trans accepted_item
  accepted-Items i count total it its db m db1 r good (a, (o, one, one_row, c)) (b, rest, len, rs) =
      (
        Added-trans encoder owner calls.batch_id 1 count (suc count) db db1 r.1 (omega arith) a b,
        map-append id_of a.new b.new
            ∙ (ap (λ xs. map id_of xs ++ map id_of b.new) one ∙ ap (λ xs. m.id ∷ xs) rest),
        omega (arith, len),
        took_one i it m o its r.0 a.new b.new a.new_outbox b.new_outbox good one one_row c rs,
      )

  rejected-Items :
      (i count total : ℕ) (it : CreateRequest) (its : List CreateRequest) (db : Db) (e : FieldError)
      (es : List FieldError) (r : List ItemResult × Db)
      → item_errors text calls i it ≡ e ∷ es
      → Items (suc i) its count total db r
      → Items i (it ∷ its) count (suc total) db (rejected_item i (e ∷ es) ∷ r.0, r.1)
  unfolding Items ids rejected_item problem
  rejected-Items i count total it its db e es r bad (b, rest, len, rs) = (
    b,
    rest,
    omega (arith, len),
    turned_down it (rejected_item i (e ∷ es)) e es _ bad refl (refl, refl) rs,
  )

  pub insert_items-Ends :
      (i : ℕ) (its : List CreateRequest) (db : Db)
      → Ends
          (Items i its (valid_count text calls i its) (length its) db)
          (insert_items text calls encoder owner corr_id i its db)
  unfolding insert_items valid_count Items ids Added-refl
  insert_items-Ends i [] db = (Added-refl encoder owner calls.batch_id db, refl, refl, finished)
  insert_items-Ends i (it ∷ its) db = elim (List-cases (item_errors text calls i it)) [
    | inl good ↦
        rw (good, insert_items, valid_count)
          (and_then
            (Inserted encoder owner calls.batch_id calls.now (calls.item i) (with_priority it)
              corr_id db)
            _ _ _
            (in_call-Ends _ _ _ (
              item-Ends encoder owner calls.batch_id calls.now (calls.item i) (with_priority it)
                corr_id db))
            (λ r h.
              and_then (Items (suc i) its (valid_count text calls (suc i) its) (length its) r.1) _ _
                _ (insert_items-Ends (suc i) its r.1)
                (λ r' h'. accepted-Items i _ _ it its db r.0 r.1 r' good h h')))
    | inr (e, es, bad) ↦
        rw (bad, insert_items, valid_count)
          (and_then (Items (suc i) its (valid_count text calls (suc i) its) (length its) db) _ _ _
            (insert_items-Ends (suc i) its db) (λ r h. rejected-Items i _ _ it its db e es r bad h))
  ]
