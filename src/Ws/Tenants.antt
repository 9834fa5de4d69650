-- ===== src/Ws/Tenants.antt =====
-- Who is told of an event (internal/ws).
use event_driven_notificatio.Prelude.{
  ℕ, ◌+◌, ◌<◌, ◌≤◌, ◌≡◌, refl, true, false, not, List, [], ◌∷◌, Option, none, some, ◌==◌, filter,
  arith, All, ap, if_false, ◌∙◌,
}
use event_driven_notificatio.Ws.{
  Filter, Event, points_to, may_see, matches, Subscriber, Hub, register, unregister, next_after,
}

owner_only :
    (owner created_by : Option ℕ)
    → elim owner [ none ↦ false | some o ↦ points_to created_by o ] ≡ true
    → (o : ℕ) × (owner ≡ some o) × (created_by ≡ some o)
owner_only none c h = cc
owner_only (some o) none h = cc
owner_only (some o) (some c) h = (o, refl, ground arith)

-- A subscriber without the admin bypass that an event matches has an owner, and the event's
-- notification was created by that owner; an event that has no owner reaches only admins.
pub matches_own :
    (f : Filter) (ev : Event)
    → f.admin_bypass ≡ false
    → matches f ev ≡ true
    → (o : ℕ) × (f.owner_id ≡ some o) × (ev.created_by ≡ some o)
unfolding matches may_see
matches_own f ev na h = owner_only f.owner_id ev.created_by (ground arith)

-- The subscribers are a map: no two have one id.
abbrev pub Distinct : List Subscriber → Type 0
Distinct [] = Unit
Distinct (s ∷ ss) = All (λ t. (t.id == s.id) ≡ false) ss × Distinct ss

-- The ids of the subscribers were all given out by Register, each to one of them.
abbrev pub IsIssued : Hub → Type 0
IsIssued h = All (λ s. s.id ≤ h.next_id) h.subs × Distinct h.subs

issued_later : (k : ℕ) (ss : List Subscriber) → All (λ s. s.id ≤ k) ss → All (λ s. s.id ≤ k + 1) ss
issued_later k [] a = tt
issued_later k (s ∷ ss) a = (omega (arith, a.0), issued_later k ss a.1)

different : (i k : ℕ) → i ≤ k → (i == k + 1) ≡ false
different i k h = ground arith

gone : (k : ℕ) → not (k + 1 == k + 1) ≡ false
gone k = ground arith

none_removed :
    (k : ℕ) (ss : List Subscriber)
    → All (λ s. s.id ≤ k) ss
    → filter (λ s. not (s.id == k + 1)) ss ≡ ss
none_removed k [] a = refl
none_removed k (s ∷ ss) a =
    let rest = none_removed k ss a.1 in
    let e : (s.id == k + 1) ≡ false = different s.id k a.0 in rw e (ap (λ l. s ∷ l) rest)

all_new :
    (k : ℕ) (ss : List Subscriber) → All (λ s. s.id ≤ k) ss → All (λ s. (s.id == k + 1) ≡ false) ss
all_new k [] a = tt
all_new k (s ∷ ss) a = (different s.id k a.0, all_new k ss a.1)

no_wrap : (k : ℕ) → k + 1 < 18446744073709551616 → next_after k ≡ k + 1
no_wrap k h = omega (arith, h)

registered :
    (f : Filter) (h : Hub)
    → All (λ s. s.id ≤ h.next_id) h.subs
    → h.next_id + 1 < 18446744073709551616
    → register f h ≡ (
      h.next_id + 1,
      record h {
        next_id = h.next_id + 1;
        subs = record { id = h.next_id + 1; filter = f; inbox = [] } ∷ h.subs;
      },
    )
unfolding register
registered f h below room = rw (no_wrap h.next_id room, none_removed h.next_id h.subs below) refl

-- A hub whose ids were all given out by Register, each once, and whose counter does not wrap around
-- now: a new subscriber keeps it so and is added to those that were there, and unregistering it at
-- once gives back exactly these, since its id is new.
pub register-unregister :
    (f : Filter) (h : Hub)
    → IsIssued h
    → h.next_id + 1 < 18446744073709551616
    → let r = register f h in
      IsIssued r.1
      × (r.1.subs ≡ record { id = r.0; filter = f; inbox = [] } ∷ h.subs)
      × ((unregister r.0 r.1).subs ≡ h.subs)
unfolding unregister
register-unregister f h (below, apart) room = rw (registered f h below room) (
  ((omega arith, issued_later h.next_id h.subs below), (all_new h.next_id h.subs below, apart)),
  refl,
  if_false _ _ (gone h.next_id) ∙ none_removed h.next_id h.subs below,
)
