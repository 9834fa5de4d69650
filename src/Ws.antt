-- ===== src/Ws.antt =====
-- internal/ws: the filter of a subscriber (filter.go) and the registry and fan-out of the hub
-- (hub.go). The sockets behind the channels are left out: a subscriber's channel is the list of the
-- payloads that wait in it, oldest first.
pub mod Tenants
pub mod Eviction
use event_driven_notificatio.Prelude.{
  ℕ, ◌+◌, ◌%◌, Bool, true, false, ◌&&◌, not, String, str_eq, List, [], ◌∷◌, ◌++◌, Option, none,
  some, ltb, ◌==◌, filter, map, length, if◌then◌else◌,
}
use event_driven_notificatio.Store.{Bytes}

pub record Filter : Type 0 where
  pub batch_id : Option ℕ
  pub channel : String
  pub owner_id : Option ℕ
  pub admin_bypass : Bool

-- events.StatusEvent, as far as the hub reads it.
pub record Event : Type 0 where
  pub batch_id : Option ℕ
  pub channel : String
  pub created_by : Option ℕ

-- Whether a pointer is not nil and points to this id.
abbrev pub points_to : Option ℕ → ℕ → Bool
points_to none i = false
points_to (some j) i = j == i

-- The owner's gate.
unfoldable pub may_see : Filter → Option ℕ → Bool
may_see f created_by =
    if f.admin_bypass
    then true
    else elim f.owner_id [ none ↦ false | some owner ↦ points_to created_by owner ]

abbrev pub batch_fits : Option ℕ → Option ℕ → Bool
batch_fits none event_batch = true
batch_fits (some i) event_batch = points_to event_batch i

-- Matches
unfoldable pub matches : Filter → Event → Bool
unfolding may_see
matches f ev =
    if not (may_see f ev.created_by)
    then false
    else if not (str_eq f.channel "") && not (str_eq f.channel ev.channel)
    then false
    else batch_fits f.batch_id ev.batch_id

pub record Subscriber : Type 0 where
  pub id : ℕ
  pub filter : Filter
  pub inbox : List Bytes

-- `next_id` is the last id that was given out; `closed` are the ids whose close function was called.
pub record Hub : Type 0 where
  pub next_id : ℕ
  pub subs : List Subscriber
  pub send_buffer : ℕ
  pub closed : List ℕ

-- NewHub
abbrev pub new_hub : Hub
new_hub = record { next_id = 0; subs = []; send_buffer = 256; closed = [] }

-- The id after this one: an atomic.Uint64 wraps around.
abbrev pub next_after : ℕ → ℕ
next_after i = (i + 1) % 18446744073709551616

-- Register, which replaces the entry of the map under its key.
unfoldable pub register : Filter → Hub → ℕ × Hub
register f h = (
  next_after h.next_id,
  record h {
    next_id = next_after h.next_id;
    subs =
        record { id = next_after h.next_id; filter = f; inbox = [] }
        ∷ filter (λ s. not (s.id == next_after h.next_id)) h.subs;
  },
)

-- Unregister
unfoldable pub unregister : ℕ → Hub → Hub
unregister i h = record h { subs = filter (λ s. not (s.id == i)) h.subs }

-- The send of dispatch to one subscriber, which never blocks.
unfoldable pub offer : ℕ → Event → Bytes → Subscriber → Subscriber
unfolding matches
offer send_buffer ev payload s =
    if matches s.filter ev && ltb (length s.inbox) send_buffer
    then record s { inbox = s.inbox ++ (payload ∷ []) }
    else s

-- A subscriber that wants the event and has no room for it.
unfoldable pub is_slow : ℕ → Event → Subscriber → Bool
unfolding matches
is_slow send_buffer ev s = matches s.filter ev && not (ltb (length s.inbox) send_buffer)

-- The close function of a slow subscriber, which the handler gave to Register. It is called after the
-- lock is dropped; whether it unregisters the subscriber before it returns (as a callback may) or
-- leaves that to the handler's deferred call is `unregisters`.
unfoldable pub close_one : (ℕ → Bool) → ℕ → Hub → Hub
unfolding unregister
close_one unregisters i h =
    let called : Hub = record h { closed = i ∷ h.closed } in
    if unregisters i then unregister i called else called

unfoldable pub close_all : (ℕ → Bool) → List ℕ → Hub → Hub
unfolding close_one
close_all unregisters [] h = h
close_all unregisters (i ∷ slow) h = close_all unregisters slow (close_one unregisters i h)

-- The ids of the slow subscribers.
unfoldable pub slow_ids : ℕ → Event → List Subscriber → List ℕ
unfolding is_slow
slow_ids send_buffer ev [] = []
slow_ids send_buffer ev (s ∷ ss) =
    if is_slow send_buffer ev s
    then s.id ∷ slow_ids send_buffer ev ss
    else slow_ids send_buffer ev ss

-- dispatch: `none` is a payload that cannot be decoded.
unfoldable pub dispatch : (ℕ → Bool) → Option Event → Bytes → Hub → Hub
unfolding offer slow_ids close_all
dispatch unregisters none payload h = h
dispatch unregisters (some ev) payload h =
    close_all unregisters (slow_ids h.send_buffer ev h.subs)
      (record h { subs = map (offer h.send_buffer ev payload) h.subs })
