-- ===== src/Network/Examples.antt =====
-- The theorems on routes at a concrete peer.
use py_syft.Prelude.{◌<◌, ◌≡◌, refl, true, none, some, [], ◌∷◌, All}
use py_syft.Prelude.Result.{ok}
use py_syft.Network.{
  http, python, Route, Hashes, pick_highest_priority_route, route_eq, existed_route, change_at,
  set_priority, update_routes, update_existed_route_priority,
}
use py_syft.Network.Picking.{IsPick, pick_highest_priority_route_lem}
use py_syft.Network.Updating.{
  AreDistinct, update_routes-AreDistinct, update_existed_route_priority_lem,
}

abbrev plain : Hashes
plain = record { text = λ x. x; number = λ x. x; nothing = 0; reduce = λ x. x }

-- Host 10 over http, and a server of the same process.
abbrev first : Route
first = record { id = none; address = http 10 80 7 none none; priority = 1 }

abbrev second : Route
second = record { id = some 4; address = python 4 5 1 1 9; priority = 2 }

abbrev third : Route
third = record { id = none; address = http 11 80 7 none none; priority = 1 }

oldest_picked :
    (p : Route) × (pick_highest_priority_route true (second ∷ first ∷ []) ≡ ok p)
    × IsPick true p (second ∷ first ∷ [])
oldest_picked = pick_highest_priority_route_lem true second (first ∷ [])

picks_first : pick_highest_priority_route true (second ∷ first ∷ []) ≡ ok first
unfolding pick_highest_priority_route
picks_first = refl

update_routes-AreDistinct_at_work :
    AreDistinct plain (update_routes plain (third ∷ second ∷ []) (first ∷ second ∷ [])).1
unfolding route_eq
update_routes-AreDistinct_at_work =
    update_routes-AreDistinct plain (third ∷ second ∷ []) (first ∷ second ∷ [])
      ((refl, tt), (tt, tt))

-- The route that `pick_highest_priority_route` would pick is put last.
raised_number :
    (r' : Route) × (update_existed_route_priority plain first none (first ∷ second ∷ [])
      ≡ ok (change_at 0 (set_priority r'.priority) (first ∷ second ∷ []), r'))
    × All (λ s. s.priority < r'.priority) (first ∷ second ∷ [])
unfolding existed_route route_eq
raised_number = update_existed_route_priority_lem plain first 0 (first ∷ second ∷ []) refl

-- Routes whose host and protocol are exchanged are equal.
exchanged : route_eq plain (http 10 80 7 none none) (http 7 80 10 none none) ≡ true
unfolding route_eq
exchanged = refl
