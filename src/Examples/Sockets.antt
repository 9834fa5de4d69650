-- ===== src/Examples/Sockets.antt =====
-- Runs of the WebSocket hub.
use event_driven_notificatio.Prelude.{ℕ, map, arith, ◌≡◌, refl, true, false, [], ◌∷◌, none, some}
use event_driven_notificatio.Ws.{
  Filter, Event, matches, may_see, Hub, register, unregister, dispatch,
}
use event_driven_notificatio.Ws.Tenants.{IsIssued, matches_own, register-unregister}
use event_driven_notificatio.Ws.Eviction.{Fanned, ClosedSlow, dispatch_isolated}

abbrev own_filter : Filter
own_filter = record { batch_id = none; channel = ""; owner_id = some 7; admin_bypass = false }

abbrev event_of : ℕ → Event
event_of owner = record { batch_id = none; channel = "sms"; created_by = some owner }

abbrev hub_example : Hub
hub_example = record {
  next_id = 2;
  subs =
      record { id = 2; filter = own_filter; inbox = (0 ∷ []) ∷ [] }
      ∷ record { id = 1; filter = own_filter; inbox = [] }
      ∷ [];
  send_buffer = 1;
  closed = [];
}

matches_example : matches own_filter (event_of 7) ≡ true
unfolding matches may_see
matches_example = refl

matches_own_example : (o : ℕ) × (some 7 ≡ some o) × (some 7 ≡ some o)
matches_own_example = matches_own own_filter (event_of 7) refl matches_example

-- The first has no room, and its close function unregisters it.
dispatch_isolated_example :
    let h' = dispatch (λ i. true) (some (event_of 7)) (1 ∷ []) hub_example in
    Fanned (λ i. true) 1 (event_of 7) (1 ∷ []) hub_example.subs h'.subs
    × ClosedSlow 1 (event_of 7) [] h'.closed hub_example.subs
dispatch_isolated_example =
    dispatch_isolated (λ i. true) (event_of 7) (1 ∷ []) hub_example ((refl, tt), (tt, tt))

evicted_example :
    map (λ s. s.id) (dispatch (λ i. true) (some (event_of 7)) (1 ∷ []) hub_example).subs ≡ 1 ∷ []
unfolding dispatch
evicted_example = refl

register-unregister_example :
    let r = register own_filter hub_example in
    IsIssued r.1
    × (r.1.subs ≡ record { id = r.0; filter = own_filter; inbox = [] } ∷ hub_example.subs)
    × ((unregister r.0 r.1).subs ≡ hub_example.subs)
register-unregister_example =
    register-unregister own_filter hub_example
      ((omega arith, (omega arith, tt)), ((refl, tt), (tt, tt))) (omega arith)
