-- ===== src/Outbox/Claims.antt =====
-- Who may publish a row of the outbox: the claims of internal/store/gen/outbox.sql.go (lines 15-68).
use event_driven_notificatio.Prelude.{
  ℕ, ◌+◌, ◌*◌, ◌≤◌, ◌≡◌, refl, ◌∙◌, Bool, true, false, String, List, [], ◌∷◌, leb, arith,
  if◌then◌else◌, filter, take, map, All, All-take, Bool-cases, inl, inr,
}
use event_driven_notificatio.Prelude.Table.{update_where}
use event_driven_notificatio.Store.{second, Outbox, Db}
use event_driven_notificatio.Store.OutboxTable.{
  is_claimable, is_unpublished, insert_sorted, by_created_at, claimed, in_batch, claim_batch,
  claim_outbox_batch,
}

module _ (P : Outbox → Type 0) where
  All-insert_sorted : (r : Outbox) (rs : List Outbox) → P r → All P rs → All P (insert_sorted r rs)
  unfolding insert_sorted
  All-insert_sorted r [] h hs = (h, tt)
  All-insert_sorted r (x ∷ xs) h hs = elim (Bool-cases (leb r.created_at x.created_at)) [
    | inl yes_p ↦ rw yes_p (h, hs)
    | inr no_p ↦ rw no_p (hs.0, All-insert_sorted r xs h hs.1)
  ]

  All-by_created_at : (rs : List Outbox) → All P rs → All P (by_created_at rs)
  unfolding by_created_at
  All-by_created_at [] h = tt
  All-by_created_at (r ∷ rs) h =
      All-insert_sorted r (by_created_at rs) h.0 (All-by_created_at rs h.1)

-- Rows of the batch, once claimed, are not claimable until the claim expires.
held :
    (by : String) (ttl now later : ℕ) (r : Outbox)
    → later ≤ now + ttl * second
    → is_claimable ttl later (claimed by now r) ≡ false
held by ttl now later r h = elim (Bool-cases (is_unpublished r)) [
  | inl yes_p ↦ rw yes_p (ground arith)
  | inr no_p ↦ rw no_p refl
]

module _ (batch : List Outbox) (by : String) (ttl now later : ℕ)
    (soon : later ≤ now + ttl * second) where
  abbrev Free : Outbox → Type 0
  Free r = in_batch batch r ≡ false

  keep :
      (r : Outbox) (rs : List Outbox) (b : Bool)
      → in_batch batch r ≡ b
      → All Free (filter (is_claimable ttl later) rs)
      → All Free (filter (is_claimable ttl later) ((if b then claimed by now r else r) ∷ rs))
  keep r rs true e h = rw (held by ttl now later r soon) h
  keep r rs false e h = elim (Bool-cases (is_claimable ttl later r)) [
    | inl yes_p ↦ rw yes_p (e, h)
    | inr no_p ↦ rw no_p h
  ]

  others :
      (rs : List Outbox)
      → All Free
          (filter (is_claimable ttl later) (update_where (in_batch batch) (claimed by now) rs))
  unfolding update_where
  others [] = tt
  others (r ∷ rs) =
      keep r (update_where (in_batch batch) (claimed by now) rs) (in_batch batch r) refl (others rs)

in_batch-map :
    (by : String) (now : ℕ) (rs : List Outbox) (r : Outbox)
    → in_batch (map (claimed by now) rs) r ≡ in_batch rs r
in_batch-map by now [] r = refl
in_batch-map by now (x ∷ xs) r = rw (in_batch-map by now xs r) refl

All-map-claimed :
    (batch : List Outbox) (by by' : String) (now later : ℕ) (rs : List Outbox)
    → All (λ r. in_batch batch r ≡ false) rs
    → All (λ r. in_batch (map (claimed by now) batch) r ≡ false) (map (claimed by' later) rs)
All-map-claimed batch by by' now later [] h = tt
All-map-claimed batch by by' now later (r ∷ rs) h = (
  in_batch-map by now batch (claimed by' later r) ∙ h.0,
  All-map-claimed batch by by' now later rs h.1,
)

-- Two dispatchers that claim a batch one after the other, the second before the claims of the first
-- have expired, get no row in common: no row of the second batch has the id of a row of the first,
-- whatever the sizes of the batches are.
pub claims_disjoint :
    (ttl size size' : ℕ) (by by' : String) (now later : ℕ) (db : Db)
    → later ≤ now + ttl * second
    → let first = claim_outbox_batch ttl size by now db in
      All (λ r. in_batch first.0 r ≡ false) (claim_outbox_batch ttl size' by' later first.1).0
unfolding claim_outbox_batch claim_batch
claims_disjoint ttl size size' by by' now later db soon =
    let batch = take size (by_created_at (filter (is_claimable ttl now) db.outbox)) in
    let free = λ (r : Outbox). in_batch batch r ≡ false in
    All-map-claimed batch by by' now later _ (
      All-take free size' _
        (All-by_created_at free _ (others batch by ttl now later soon db.outbox)))
