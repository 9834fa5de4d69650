-- ===== src/Ws/Eviction.antt =====
-- What the fan-out of an event (dispatch of internal/ws/hub.go) does to each subscriber.
use event_driven_notificatio.Prelude.{
  ℕ, ◌+◌, ◌≤◌, ◌<◌, ◌≡◌, ◌⊎◌, inl, inr, refl, ◌↔◌, Bool, true, false, ◌&&◌, ◌||◌, not, List, [],
  ◌∷◌, ◌++◌, some, ltb, ◌==◌, filter, map, length, arith, Bool-cases, All, length-append, ap,
  if_false, if_true, ◌∙◌, sym, ==_refl, any, if◌then◌else◌,
}
use event_driven_notificatio.Store.{Bytes}
use event_driven_notificatio.Ws.{
  Event, matches, Subscriber, Hub, unregister, offer, is_slow, slow_ids, close_one, close_all,
  dispatch,
}
use event_driven_notificatio.Ws.Tenants.{matches_own, Distinct}

-- A subscriber after an event: it is the same one, its inbox holds what it held, with the payload at
-- its end only if the event matches (and the subscriber owns the notification or has the admin bypass),
-- surely so if there is room as well, and it is still within the buffer.
pub record Told (send_buffer : ℕ) (ev : Event) (payload : Bytes) (s s' : Subscriber) : Type 0 where
  pub same_id : s'.id ≡ s.id
  pub same_filter : s'.filter ≡ s.filter
  pub kept :
      (s'.inbox ≡ s.inbox) ⊎ ((s'.inbox ≡ s.inbox ++ (payload ∷ [])) × (matches s.filter ev ≡ true))
  pub served :
      matches s.filter ev ≡ true
      → length s.inbox < send_buffer
      → s'.inbox ≡ s.inbox ++ (payload ∷ [])
  pub own :
      s.filter.admin_bypass ≡ false
      → (s'.inbox ≡ s.inbox) ⊎ ((o : ℕ) × (s.filter.owner_id ≡ some o) × (ev.created_by ≡ some o))
  pub within : length s.inbox ≤ send_buffer → length s'.inbox ≤ send_buffer

room : (k : ℕ) (b : Bool) (n : ℕ) → (b && ltb n k) ≡ true → n + 1 ≤ k
room k true n h = ground arith
room k false n h = cc

offer-Told :
    (send_buffer : ℕ) (ev : Event) (payload : Bytes) (s : Subscriber)
    → Told send_buffer ev payload s (offer send_buffer ev payload s)
unfolding offer
offer-Told k ev payload s = elim (Bool-cases (matches s.filter ev && ltb (length s.inbox) k)) [
  | inr no_p ↦ rw no_p (record {
    same_id = refl;
    same_filter = refl;
    kept = inl refl;
    served = λ m r. ground arith;
    own = λ na. inl refl;
    within = λ h. h;
  })
  | inl yes_p ↦ rw yes_p (record {
    same_id = refl;
    same_filter = refl;
    kept = inr (refl, ground arith);
    served = λ m r. refl;
    own = λ na. inr (matches_own s.filter ev na (ground arith));
    within =
        λ h. omega (arith, length-append s.inbox (payload ∷ []), room k _ (length s.inbox) yes_p);
  })
]

-- Wants the event, and has no room for it.
abbrev pub IsSlow : ℕ → Event → Subscriber → Type 0
IsSlow send_buffer ev s = (matches s.filter ev ≡ true) × (send_buffer ≤ length s.inbox)

-- The subscribers before and after: one that is slow and whose close function unregisters it is gone, and
-- every other one is told.
pub data Fanned (unregisters : ℕ → Bool) (send_buffer : ℕ) (ev : Event) (payload : Bytes)
    : List Subscriber → List Subscriber → Type 0 where
  all_told : Fanned unregisters send_buffer ev payload [] []
  evicted :
      (s : Subscriber) {ss ss' : List Subscriber}
      → IsSlow send_buffer ev s
      → unregisters s.id ≡ true
      → Fanned unregisters send_buffer ev payload ss ss'
      → Fanned unregisters send_buffer ev payload (s ∷ ss) ss'
  stays :
      (s s' : Subscriber) {ss ss' : List Subscriber}
      → (IsSlow send_buffer ev s → unregisters s.id ≡ true → ⊥)
      → Told send_buffer ev payload s s'
      → Fanned unregisters send_buffer ev payload ss ss'
      → Fanned unregisters send_buffer ev payload (s ∷ ss) (s' ∷ ss')

abbrev pub has : ℕ → List ℕ → Bool
has i is = any (λ j. j == i) is

is_slow-IsSlow : (k : ℕ) (ev : Event) (s : Subscriber) → (is_slow k ev s ≡ true) ↔ IsSlow k ev s
unfolding is_slow
is_slow-IsSlow k ev s = ground arith

filter_twice :
    (p q : Subscriber → Bool) (ss : List Subscriber)
    → filter p (filter q ss) ≡ filter (λ s. q s && p s) ss
filter_twice p q [] = refl
filter_twice p q (s ∷ ss) = ground (arith, filter_twice p q ss)

filter_same :
    (p q : Subscriber → Bool) (ss : List Subscriber)
    → ((s : Subscriber) → p s ≡ q s)
    → filter p ss ≡ filter q ss
filter_same p q [] e = refl
filter_same p q (s ∷ ss) e = rw (e s, filter_same p q ss e) refl

filter_all : (ss : List Subscriber) → filter (λ s. true) ss ≡ ss
filter_all [] = refl
filter_all (s ∷ ss) = ap (λ l. s ∷ l) (filter_all ss)

module _ (unregisters : ℕ → Bool) where
  close_one_subs :
      (i : ℕ) (h : Hub)
      → (close_one unregisters i h).subs ≡ filter (λ s. not (unregisters i && (s.id == i))) h.subs
  unfolding close_one unregister
  close_one_subs i h = elim (Bool-cases (unregisters i)) [
    | inl yes_p ↦ rw yes_p refl
    | inr no_p ↦ rw no_p (◌∙◌ refl (filter_all_sym h.subs))
  ]
    where
      filter_all_sym : (ss : List Subscriber) → ss ≡ filter (λ s. true) ss
      filter_all_sym ss = rw (filter_all ss) refl

  one_more :
      (i : ℕ) (is : List ℕ) (s : Subscriber)
      → (not (unregisters i && (s.id == i)) && not (unregisters s.id && has s.id is))
        ≡ not (unregisters s.id && has s.id (i ∷ is))
  one_more i is s = elim (Bool-cases (s.id == i)) [
    | inl same ↦
        let e : s.id ≡ i = ground arith in rw (e, ==_refl i) (once (unregisters i) (has i is))
    | inr other ↦
        let swapped : (i == s.id) ≡ false = ground arith in
        rw (other, swapped) (never (unregisters i) (not (unregisters s.id && has s.id is)))
  ]
    where
      once : (u b : Bool) → (not (u && true) && not (u && b)) ≡ not (u && true)
      once true b = refl
      once false b = refl

      never : (u b : Bool) → (not (u && false) && b) ≡ b
      never true b = refl
      never false b = refl

  close_all_subs :
      (is : List ℕ) (h : Hub)
      → (close_all unregisters is h).subs
        ≡ filter (λ s. not (unregisters s.id && has s.id is)) h.subs
  unfolding close_all
  close_all_subs [] h =
      sym (filter_same _ (λ s. true) h.subs (λ s. nobody (unregisters s.id)) ∙ filter_all h.subs)
    where
      nobody : (u : Bool) → not (u && false) ≡ true
      nobody true = refl
      nobody false = refl
  close_all_subs (i ∷ is) h =
      close_all_subs is (close_one unregisters i h)
      ∙ (ap (filter (λ s. not (unregisters s.id && has s.id is))) (close_one_subs i h)
          ∙ (filter_twice _ _ h.subs ∙ filter_same _ _ h.subs (one_more i is)))

  close_all_closed :
      (j : ℕ) (is : List ℕ) (h : Hub)
      → has j (close_all unregisters is h).closed ≡ (has j is || has j h.closed)
  unfolding close_all close_one unregister
  close_all_closed j [] h = refl
  close_all_closed j (i ∷ is) h =
      close_all_closed j is (close_one unregisters i h) ∙ elim (Bool-cases (unregisters i)) [
        | inl yes_p ↦ rw yes_p (turned (has j is) (i == j) (has j h.closed))
        | inr no_p ↦ rw no_p (turned (has j is) (i == j) (has j h.closed))
      ]
    where
      turned : (a b c : Bool) → (a || (if b then true else c)) ≡ ((if b then true else a) || c)
      turned true true c = refl
      turned true false c = refl
      turned false true c = refl
      turned false false c = refl

module _ (k : ℕ) (ev : Event) where
  not_listed :
      (i : ℕ) (ss : List Subscriber)
      → All (λ t. (t.id == i) ≡ false) ss
      → has i (slow_ids k ev ss) ≡ false
  unfolding slow_ids
  not_listed i [] a = refl
  not_listed i (s ∷ ss) a = elim (Bool-cases (is_slow k ev s)) [
    | inl yes_p ↦ rw (yes_p, a.0) (not_listed i ss a.1)
    | inr no_p ↦ rw no_p (not_listed i ss a.1)
  ]

  further :
      (x : Subscriber) (ss : List Subscriber) (b : Bool) (is : List ℕ)
      → All (λ t. (t.id == x.id) ≡ false) ss
      → All (λ s. has s.id is ≡ is_slow k ev s) ss
      → All (λ s. has s.id (if b then x.id ∷ is else is) ≡ is_slow k ev s) ss
  further x [] b is a h = tt
  further x (s ∷ ss) true is a h =
      let other : (x.id == s.id) ≡ false = let o = a.0 in ground arith in
      (if_false _ _ other ∙ h.0, further x ss true is a.1 h.1)
  further x (s ∷ ss) false is a h = (h.0, further x ss false is a.1 h.1)

  -- With distinct ids, the list has exactly the ids of the slow ones.
  listed :
      (ss : List Subscriber)
      → Distinct ss
      → All (λ s. has s.id (slow_ids k ev ss) ≡ is_slow k ev s) ss
  unfolding slow_ids
  listed [] d = tt
  listed (x ∷ ss) (apart, d) =
      (first (is_slow k ev x), further x ss (is_slow k ev x) (slow_ids k ev ss) apart (listed ss d))
    where
      first : (b : Bool) → has x.id (if b then x.id ∷ slow_ids k ev ss else slow_ids k ev ss) ≡ b
      first true = if_true _ _ (==_refl x.id)
      first false = not_listed x.id ss apart

  offered_id : (payload : Bytes) (s : Subscriber) → (offer k ev payload s).id ≡ s.id
  unfolding offer
  offered_id payload s = (offer-Told k ev payload s).same_id

  fanned :
      (unregisters : ℕ → Bool) (payload : Bytes) (is : List ℕ) (ss : List Subscriber)
      → All (λ s. has s.id is ≡ is_slow k ev s) ss
      → Fanned unregisters k ev payload ss
          (filter (λ s. not (unregisters s.id && has s.id is)) (map (offer k ev payload) ss))
  unfolding offer
  fanned unregisters payload is [] a = all_told
  fanned unregisters payload is (s ∷ ss) (slow, a) =
      rw (offered_id payload s, slow)
        (placed (unregisters s.id) (is_slow k ev s) refl refl (fanned unregisters payload is ss a))
    where
      placed :
          (u b : Bool)
          → unregisters s.id ≡ u
          → is_slow k ev s ≡ b
          → {ss' : List Subscriber} → Fanned unregisters k ev payload ss ss'
          → Fanned unregisters k ev payload
              (s ∷ ss)
              (if not (u && b) then offer k ev payload s ∷ ss' else ss')
      placed true true eu eb rest = evicted s ((is_slow-IsSlow k ev s).0 eb) eu rest
      placed false b eu eb rest =
          stays s (offer k ev payload s) (λ i u. cc) (offer-Told k ev payload s) rest
      placed true false eu eb rest =
          stays s (offer k ev payload s) (λ i u. let h = (is_slow-IsSlow k ev s).1 i in cc)
            (offer-Told k ev payload s) rest

-- Whose close function was called, among some subscribers.
abbrev pub ClosedSlow : ℕ → Event → List ℕ → List ℕ → List Subscriber → Type 0
ClosedSlow k ev before after ss =
    All (λ s. (has s.id after ≡ true) ↔ (IsSlow k ev s ⊎ (has s.id before ≡ true))) ss

closed_slow :
    (k : ℕ) (ev : Event) (is before after : List ℕ)
    → ((j : ℕ) → has j after ≡ (has j is || has j before))
    → (ss : List Subscriber) → All (λ s. has s.id is ≡ is_slow k ev s) ss
    → ClosedSlow k ev before after ss
closed_slow k ev is before after e [] a = tt
closed_slow k ev is before after e (s ∷ ss) (slow, a) = (
  rw (e s.id, slow) (either (is_slow k ev s) (has s.id before) (is_slow-IsSlow k ev s)),
  closed_slow k ev is before after e ss a,
)
  where
    either :
        (b c : Bool)
        → ((b ≡ true) ↔ IsSlow k ev s)
        → ((b || c) ≡ true) ↔ (IsSlow k ev s ⊎ (c ≡ true))
    either true c p = (λ h. inl (p.0 refl), λ h. refl)
    either false c p = (λ h. inr h, λ h. elim h [ inl i ↦ (let x = p.1 i in cc) | inr h' ↦ h' ])

-- The fan-out of an event over a hub whose subscribers have distinct ids. A subscriber that wants the
-- event and has no room for it has its close function called, and is gone afterwards if that function
-- unregisters it; of the other subscribers, only those have been closed that had been before.
-- Everybody else stays registered with the same filter and with what was in the inbox; an inbox gets
-- the payload, at its end and within the buffer, exactly where the event matches and there is room,
-- and without the admin bypass only where the subscriber owns the notification.
pub dispatch_isolated :
    (unregisters : ℕ → Bool) (ev : Event) (payload : Bytes) (h : Hub)
    → Distinct h.subs
    → let h' = dispatch unregisters (some ev) payload h in
      Fanned unregisters h.send_buffer ev payload h.subs h'.subs
      × ClosedSlow h.send_buffer ev h.closed h'.closed h.subs
unfolding dispatch
dispatch_isolated unregisters ev payload h d =
    let k = h.send_buffer in
    let is = slow_ids k ev h.subs in
    let told : Hub = record h { subs = map (offer k ev payload) h.subs } in
    (
      rw (close_all_subs unregisters is told)
          (fanned k ev unregisters payload is h.subs (listed k ev h.subs d)),
      closed_slow k ev is h.closed (close_all unregisters is told).closed
          (λ j. close_all_closed unregisters j is told) h.subs (listed k ev h.subs d),
    )
