-- ===== src/Producers/Sweeper/Reclaims.antt =====
-- What a cycle of the sweeper (internal/sweeper/sending.go) reclaims.
use event_driven_notificatio.Prelude.{
  ℕ, ◌+◌, ◌≡◌, refl, ap, ◌∙◌, sym, ◌⊎◌, inl, inr, Bool, true, false, List, [], ◌∷◌, Option, none,
  some, arith, All, ◌*◌, ◌<◌, ◌↔◌, map, filter, Bool-cases,
}
use event_driven_notificatio.Prelude.Table.{update_where}
use event_driven_notificatio.Store.{Notification, Outbox, Db}
use event_driven_notificatio.Domain.{Status, sending, queued}
use event_driven_notificatio.Store.Lifecycle.{message}
use event_driven_notificatio.Store.Notifications.{
  is_stuck, sending_only, to_reclaimed, sweep_stuck_sending,
}
use event_driven_notificatio.Store.OutboxTable.{insert_outbox}
use event_driven_notificatio.Store.Lifecycle.{Follows, Follows-trans}
use event_driven_notificatio.Store.Lifecycle.Bulk.{
  Follows-insert_outbox, Follows-sweep_stuck_sending,
}
use event_driven_notificatio.Producers.{Encoder, step, committed, ◌>>=◌}
use event_driven_notificatio.Producers.Transactions.{
  Holds, step_then, step_last, bind-Holds, bind-Holds, all_or_nothing, completed, Gets, bind-Gets,
  step-Gets, Follows-committed,
}
use event_driven_notificatio.Producers.Sweeper.{
  Config, TxCalls, reclaim_row, insert_all, after_sweep, transaction, tick,
}

-- The rows for the reclaimed notifications, the last one first, before those that were there.
abbrev pub written : Encoder → TxCalls → ℕ → List Notification → List Outbox → List Outbox
written encoder calls k [] rows = rows
written encoder calls k (n ∷ ns) rows =
    written encoder calls (k + 1) ns (reclaim_row encoder calls k n ∷ rows)

-- In 'sending' and not touched for more than so many seconds.
abbrev pub IsOverdue : ℕ → ℕ → Notification → Type 0
IsOverdue secs now n = (n.status ≡ sending) × (n.updated_at + secs * 1000000000 < now)

-- Queued for another attempt.
pub record Requeued (now : ℕ) (n n' : Notification) : Type 0 where
  pub status : n'.status ≡ queued
  pub counted : n'.attempt_count ≡ n.attempt_count + 1
  pub touched : n'.updated_at ≡ now
  pub same : message n' ≡ message n
  pub unsent : n'.sent_at ≡ n.sent_at

-- A table before and after a sweep, and the rows that it reclaimed, in their order.
pub data Sweeps (secs now : ℕ)
    : List Notification → List Notification → List Notification → Type 0 where
  swept_all : Sweeps secs now [] [] []
  overdue :
      (n n' : Notification) {ns ns' hits : List Notification}
      → IsOverdue secs now n
      → Requeued now n n'
      → Sweeps secs now ns ns' hits
      → Sweeps secs now (n ∷ ns) (n' ∷ ns') (n' ∷ hits)
  in_time :
      (n : Notification) {ns ns' hits : List Notification}
      → (IsOverdue secs now n → ⊥)
      → Sweeps secs now ns ns' hits
      → Sweeps secs now (n ∷ ns) (n ∷ ns') hits

-- Every overdue notification is in 'queued' again, with one more attempt, the others are as they
-- were, no notification is overdue any more, and the outbox has one new row for each reclaimed one.
pub record Reclaimed (encoder : Encoder) (cfg : Config) (calls : TxCalls) (db db' : Db)
    : Type 0 where
  pub hits : List Notification
  pub rows : Sweeps cfg.stuck_after calls.now db.notifications db'.notifications hits
  pub unstuck : All (λ n. IsOverdue cfg.stuck_after calls.now n → ⊥) db'.notifications
  pub published : db'.outbox ≡ written encoder calls 0 hits db.outbox

sending_iff : (s : Status) → (sending_only s ≡ true) ↔ (s ≡ sending)
sending_iff s = ground arith

is_stuck-IsOverdue :
    (secs now : ℕ) (n : Notification) → (is_stuck secs now n ≡ true) ↔ IsOverdue secs now n
is_stuck-IsOverdue secs now n = ground (arith, sending_iff n.status)

not_overdue :
    (secs now : ℕ) (n : Notification) → is_stuck secs now n ≡ false → IsOverdue secs now n → ⊥
not_overdue secs now n h o = let h' = (is_stuck-IsOverdue secs now n).1 o in cc

none-IsOverdue :
    (secs now : ℕ) (ns : List Notification)
    → filter (is_stuck secs now) ns ≡ []
    → All (λ n. IsOverdue secs now n → ⊥) ns
none-IsOverdue secs now [] e = tt
none-IsOverdue secs now (n ∷ ns) e = elim (Bool-cases (is_stuck secs now n)) [
  | inl yes_p ↦ let e' : n ∷ filter (is_stuck secs now) ns ≡ [] = ground arith in cc
  | inr no_p ↦
      let e' : filter (is_stuck secs now) ns ≡ [] = ground arith in
      (not_overdue secs now n no_p, none-IsOverdue secs now ns e')
]

carried {ℓ} : {A : Type ℓ} → (P : A → Type 0) (x y : A) → x ≡ y → P x → P y
carried P x y e h = rw (← e) h

swept_rows :
    (secs now : ℕ) (ns : List Notification)
    → Sweeps secs now ns
        (update_where (is_stuck secs now) (to_reclaimed now) ns)
        (map (to_reclaimed now) (filter (is_stuck secs now) ns))
unfolding update_where
swept_rows secs now [] = swept_all
swept_rows secs now (n ∷ ns) = elim (Bool-cases (is_stuck secs now n)) [
  | inl yes_p ↦ rw yes_p (
      overdue n (to_reclaimed now n) ((is_stuck-IsOverdue secs now n).0 yes_p)
        (record { status = refl; counted = refl; touched = refl; same = refl; unsent = refl })
        (swept_rows secs now ns))
  | inr no_p ↦ rw no_p (in_time n (not_overdue secs now n no_p) (swept_rows secs now ns))
]

none_stuck :
    (secs now : ℕ) (ns : List Notification)
    → filter (is_stuck secs now) (update_where (is_stuck secs now) (to_reclaimed now) ns) ≡ []
unfolding update_where
none_stuck secs now [] = refl
none_stuck secs now (n ∷ ns) = elim (Bool-cases (is_stuck secs now n)) [
  | inl yes_p ↦ rw yes_p (none_stuck secs now ns)
  | inr no_p ↦ rw (no_p, no_p) (none_stuck secs now ns)
]

update_where_none :
    (p : Notification → Bool) (f : Notification → Notification) (ns : List Notification)
    → filter p ns ≡ []
    → update_where p f ns ≡ ns
unfolding update_where
update_where_none p f [] e = refl
update_where_none p f (n ∷ ns) e = elim (Bool-cases (p n)) [
  | inl yes_p ↦ let e' : n ∷ filter p ns ≡ [] = ground arith in cc
  | inr no_p ↦
      let e' : filter p ns ≡ [] = ground arith in
      rw no_p (ap (λ l. n ∷ l) (update_where_none p f ns e'))
]

-- No call fails.
pub record Works (calls : TxCalls) : Type 0 where
  pub begins : calls.begin_fails ≡ false
  pub sweeps : calls.sweep_fails ≡ false
  pub inserts : (k : ℕ) → calls.outbox_fails k ≡ false
  pub commits : calls.commit_fails ≡ false

module _ (encoder : Encoder) (cfg : Config) (calls : TxCalls) (db : Db) where
  abbrev swept : Db
  swept = (sweep_stuck_sending cfg.stuck_after calls.now db).1

  Goal : List Notification → List Outbox → ℕ → Db → Type 0
  Goal ns rows k db' =
      (db'.notifications ≡ swept.notifications) × (db'.outbox ≡ written encoder calls k ns rows)

  insert_all_lem :
      (k : ℕ) (ns : List Notification) (x : Db)
      → x.notifications ≡ swept.notifications
      → Holds (Goal ns x.outbox k) (insert_all encoder calls k ns x)
  unfolding insert_all Goal insert_outbox
  insert_all_lem k [] x e = (e, refl)
  insert_all_lem k (n ∷ ns) x e =
      step_then (Goal (n ∷ ns) x.outbox k) (calls.outbox_fails k) _ _
        (insert_all_lem (k + 1) ns (insert_outbox (reclaim_row encoder calls k n) x) e)

  ends :
      (ns : List Notification) (x : Db)
      → x.notifications ≡ swept.notifications
      → Holds (Goal ns x.outbox 0) (after_sweep encoder calls ns x)
  unfolding after_sweep
  ends [] x e = tt
  ends (n ∷ ns) x e =
      bind-Holds (Goal (n ∷ ns) x.outbox 0) (Goal (n ∷ ns) x.outbox 0)
        (insert_all encoder calls 0 (n ∷ ns) x) _ (insert_all_lem 0 (n ∷ ns) x e)
        (λ y h. step_last (Goal (n ∷ ns) x.outbox 0) calls.commit_fails y h)

  abbrev hit : List Notification
  hit = map (to_reclaimed calls.now) (filter (is_stuck cfg.stuck_after calls.now) db.notifications)

  reclaimed : (db' : Db) → Goal hit db.outbox 0 db' → Reclaimed encoder cfg calls db db'
  unfolding Goal sweep_stuck_sending
  reclaimed db' h = record {
    hits = hit;
    rows = rw h.0 (swept_rows cfg.stuck_after calls.now db.notifications);
    unstuck = none-IsOverdue cfg.stuck_after calls.now db'.notifications (
        ap (filter (is_stuck cfg.stuck_after calls.now)) h.0
        ∙ none_stuck cfg.stuck_after calls.now db.notifications);
    published = h.1;
  }

  weaken :
      (o : Option Db) → Holds (Goal hit db.outbox 0) o → Holds (Reclaimed encoder cfg calls db) o
  weaken none h = tt
  weaken (some db') h = reclaimed db' h

  transaction-Holds : Holds (Reclaimed encoder cfg calls db) (transaction encoder cfg calls db)
  unfolding transaction sweep_stuck_sending
  transaction-Holds =
      let P = Reclaimed encoder cfg calls db in
      step_then P calls.begin_fails db _ (
        step_then P calls.sweep_fails _ _
          (weaken (after_sweep encoder calls hit swept) (ends hit swept refl)))

  insert_all-Gets :
      (k : ℕ) (ns : List Notification) (x : Db)
      → Works calls
      → Gets (insert_all encoder calls k ns x)
  unfolding insert_all
  insert_all-Gets k [] x works = tt
  insert_all-Gets k (n ∷ ns) x works = rw (works.inserts k) (insert_all-Gets (k + 1) ns _ works)

  unchanged :
      filter (is_stuck cfg.stuck_after calls.now) db.notifications ≡ []
      → Reclaimed encoder cfg calls db db
  unchanged e = record {
    hits = hit;
    rows =
        carried (λ ns. Sweeps cfg.stuck_after calls.now db.notifications ns hit)
          (update_where (is_stuck cfg.stuck_after calls.now) (to_reclaimed calls.now)
            db.notifications)
          db.notifications
          (update_where_none (is_stuck cfg.stuck_after calls.now) (to_reclaimed calls.now)
            db.notifications e)
          (swept_rows cfg.stuck_after calls.now db.notifications);
    unstuck = none-IsOverdue cfg.stuck_after calls.now db.notifications e;
    published =
        ap (λ ns. written encoder calls 0 (map (to_reclaimed calls.now) ns) db.outbox) (sym e);
  }

  after_sweep-Works :
      (ns : List Notification)
      → filter (is_stuck cfg.stuck_after calls.now) db.notifications ≡ ns
      → Works calls
      → Reclaimed encoder cfg calls db
          (committed (after_sweep encoder calls (map (to_reclaimed calls.now) ns) swept) db)
  unfolding after_sweep sweep_stuck_sending
  after_sweep-Works [] e works = unchanged e
  after_sweep-Works (n ∷ ns) e works =
      let hits = map (to_reclaimed calls.now) (n ∷ ns) in
      completed (Reclaimed encoder cfg calls db) (after_sweep encoder calls hits swept) db
        (bind-Gets (insert_all encoder calls 0 hits swept) _ (insert_all-Gets 0 hits swept works)
          (λ x. step-Gets calls.commit_fails x works.commits))
        (weaken _ (rw e (ends hits swept refl)))

  run-Works :
      (begin_fails sweep_fails : Bool)
      → begin_fails ≡ false
      → sweep_fails ≡ false
      → Works calls
      → Reclaimed encoder cfg calls db (
          committed
            (step begin_fails db >>= (λ _.
              step sweep_fails (sweep_stuck_sending cfg.stuck_after calls.now db)
              >>= (λ swept. after_sweep encoder calls swept.0 swept.1)))
            db)
  unfolding sweep_stuck_sending
  run-Works true s b e works = cc
  run-Works false true b e works = cc
  run-Works false false b e works =
      after_sweep-Works (filter (is_stuck cfg.stuck_after calls.now) db.notifications) refl works

  -- A cycle of the sweeper is all or nothing: whatever calls fail, either nothing changes, or every
  -- notification that has been in 'sending' for longer than the limit is 'queued' again with one
  -- more attempt and one new row in the outbox, the others are as they were, and none is stuck any
  -- more. If no call fails, it is the latter.
  pub sweep_atomic :
      ((tick encoder cfg calls db ≡ db)
        ⊎ Reclaimed encoder cfg calls db (tick encoder cfg calls db))
      × (Works calls → Reclaimed encoder cfg calls db (tick encoder cfg calls db))
  unfolding tick transaction sweep_stuck_sending
  sweep_atomic = (
    all_or_nothing (Reclaimed encoder cfg calls db) _ db transaction-Holds,
    λ works. run-Works calls.begin_fails calls.sweep_fails works.begins works.sweeps works,
  )

  insert_all-Follows :
      (k : ℕ) (ns : List Notification) (x : Db)
      → Follows db x
      → Holds (Follows db) (insert_all encoder calls k ns x)
  unfolding insert_all
  insert_all-Follows k [] x h = h
  insert_all-Follows k (n ∷ ns) x h = step_then (Follows db) (calls.outbox_fails k) _ _ (
      insert_all-Follows (k + 1) ns _
        (Follows-trans db x _ h (Follows-insert_outbox (reclaim_row encoder calls k n) x)))

  after_sweep-Follows :
      (ns : List Notification) → Holds (Follows db) (after_sweep encoder calls ns swept)
  unfolding after_sweep
  after_sweep-Follows [] = tt
  after_sweep-Follows (n ∷ ns) =
      bind-Holds (Follows db) (Follows db) (insert_all encoder calls 0 (n ∷ ns) swept) _
        (insert_all-Follows 0 (n ∷ ns) swept
          (Follows-sweep_stuck_sending cfg.stuck_after calls.now db))
        (λ y h. step_last (Follows db) calls.commit_fails y h)

  pub sweeper-Follows : Follows db (tick encoder cfg calls db)
  unfolding tick transaction
  sweeper-Follows = Follows-committed _ db (
      step_then (Follows db) calls.begin_fails db _
        (step_then (Follows db) calls.sweep_fails _ _ (after_sweep-Follows _)))
