-- ===== src/Network.antt =====
-- packages/syft/src/syft/service/network/server_peer.py and routes.py: the routes of a peer and
-- their priorities.
mod Picking
mod Updating
mod Examples
use py_syft.Prelude.{
  ℕ, zero, suc, ◌+◌, Bool, true, false, not, ◌&&◌, ◌||◌, Option, none, some, List, [], ◌∷◌, ◌++◌,
  filter, ltb, ◌==◌, if◌then◌else◌,
}
use py_syft.Prelude.Result.{Result, ok, err}

-- The fields of the routes that equality reads, and the token and the priority. Texts, ids and keys
-- are numbers.
pub data Address : Type 0 where
  http : ℕ → ℕ → ℕ → Option ℕ → Option ℕ → Address
  python : ℕ → ℕ → ℕ → ℕ → ℕ → Address

pub record Route : Type 0 where
  pub id : Option ℕ
  pub address : Address
  pub priority : ℕ

pub data PeerError : Type 0 where
  value_error index_error priority_error no_route : PeerError

-- `hash` of texts, ids and keys, of numbers and of `None`, and what `hash` makes of the sum that
-- `__hash__` returns.
pub record Hashes : Type 0 where
  pub text : ℕ → ℕ
  pub number : ℕ → ℕ
  pub nothing : ℕ
  pub reduce : ℕ → ℕ

-- `priorities` of the routes, and `max(...)`, which raises on no route.
abbrev pub max_of : ℕ → ℕ → ℕ
max_of a b = if ltb a b then b else a

unfoldable pub max_priority : List Route → Option ℕ
max_priority [] = none
max_priority (r ∷ rs) = elim (max_priority rs) [
  | none ↦ some r.priority
  | some m ↦ some (max_of r.priority m)
]

abbrev pub above : Route → Option ℕ → Result PeerError Route
above r none = err value_error
above r (some m) = ok (record r { priority = m + 1 })

-- `update_route_priority`
unfoldable pub update_route_priority : Route → List Route → Result PeerError Route
unfolding max_priority
update_route_priority r routes = above r (max_priority routes)

-- The loop of `pick_highest_priority_route` from the best route so far.
unfoldable pub pick_from : Bool → Route → List Route → Route
pick_from oldest best [] = best
pick_from oldest best (r ∷ rs) =
    let better = if oldest then ltb r.priority best.priority else ltb best.priority r.priority in
    pick_from oldest (if better then r else best) rs

-- The last route, and the routes before it.
unfoldable pub split_last : Route → List Route → List Route × Route
split_last r [] = ([], r)
split_last r (s ∷ rs) = let (before, last) = split_last s rs in (r ∷ before, last)

-- `pick_highest_priority_route`, which raises on no route.
unfoldable pub pick_highest_priority_route : Bool → List Route → Result PeerError Route
unfolding pick_from split_last
pick_highest_priority_route oldest [] = err index_error
pick_highest_priority_route oldest (r ∷ rs) =
    let (before, last) = split_last r rs in ok (pick_from oldest last before)

-- `latest_added_route`
unfoldable pub latest_added_route : List Route → Option Route
unfolding split_last
latest_added_route [] = none
latest_added_route (r ∷ rs) = some (split_last r rs).1

-- `get_rtunnel_route`; an empty token is number 0.
abbrev has_token : Address → Bool
has_token (http h p s proxy (some t)) = not (t == 0)
has_token _ = false

unfoldable pub get_rtunnel_route : List Route → Option Route
get_rtunnel_route [] = none
get_rtunnel_route (r ∷ rs) = if has_token r.address then some r else get_rtunnel_route rs

-- `self.server_routes[idx] = f(self.server_routes[idx])`
unfoldable pub change_at : ℕ → (Route → Route) → List Route → List Route
change_at i f [] = []
change_at zero f (r ∷ rs) = f r ∷ rs
change_at (suc i) f (r ∷ rs) = r ∷ change_at i f rs

unfoldable pub get_at : ℕ → List Route → Result PeerError Route
get_at i [] = err index_error
get_at zero (r ∷ rs) = ok r
get_at (suc i) (r ∷ rs) = get_at i rs

abbrev pub append_route : Result PeerError Route → List Route → Result PeerError (List Route)
append_route (err x) routes = err x
append_route (ok r) routes = ok (routes ++ r ∷ [])

abbrev pub set_priority : ℕ → Route → Route
set_priority p r = record r { priority = p }

abbrev pub with_routes : List Route → Result PeerError Route → Result PeerError (List Route × Route)
with_routes routes (err x) = err x
with_routes routes (ok r) = ok (routes, r)

-- The end of `update_existed_route_priority`, which returns the route with its new priority.
unfoldable pub prioritise :
    ℕ → Result PeerError ℕ → List Route → Result PeerError (List Route × Route)
unfolding change_at get_at
prioritise i (err x) routes = err x
prioritise i (ok p) routes =
    let routes' = change_at i (set_priority p) routes in with_routes routes' (get_at i routes')

abbrev pub priority_of : Result PeerError Route → Result PeerError ℕ
priority_of (err x) = err x
priority_of (ok r) = ok r.priority

abbrev pub new_priority : Route → Option ℕ → List Route → Result PeerError ℕ
unfolding update_route_priority
new_priority r (some p) routes = ok p
new_priority r none routes = priority_of (update_route_priority r routes)

abbrev pub is_zero : Option ℕ → Bool
is_zero none = false
is_zero (some p) = p == 0

module _ (h : Hashes) where
  abbrev hash_option : Option ℕ → ℕ
  hash_option none = h.nothing
  hash_option (some x) = h.text x

  -- `HTTPServerRoute.__hash__`, `PythonServerRoute.__hash__`
  unfoldable pub hash_route : Address → ℕ
  hash_route (http host port protocol proxy token) =
      h.reduce
        (h.text host + h.number port + h.text protocol + hash_option proxy + hash_option token)
  hash_route (python id name type side key) =
      h.reduce (h.text id + h.text name + h.text type + h.text side + h.text key)

  -- `__eq__` of the routes
  unfoldable pub route_eq : Address → Address → Bool
  unfolding hash_route
  route_eq (http a b c d e) (http a' b' c' d' e') =
      hash_route (http a b c d e) == hash_route (http a' b' c' d' e')
  route_eq (python a b c d e) (python a' b' c' d' e') =
      hash_route (python a b c d e) == hash_route (python a' b' c' d' e')
  route_eq _ _ = false

  -- `existed_route`: the position of the first equal route.
  unfoldable pub existed_route : Route → List Route → Option ℕ
  existed_route r [] = none
  existed_route r (s ∷ rs) =
      let rest : Option ℕ = elim (existed_route r rs) [ none ↦ none | some i ↦ some (suc i) ] in
      if route_eq r.address s.address then some 0 else rest

  unfoldable pub place : Route → List Route → Option ℕ → Result PeerError (List Route)
  unfolding change_at update_route_priority
  place r routes (some i) = ok (change_at i (λ _. r) routes)
  place r routes none = append_route (update_route_priority r routes) routes

  -- `update_route`
  unfoldable pub update_route : Route → List Route → Result PeerError (List Route)
  unfolding existed_route place
  update_route r routes = place r routes (existed_route r routes)

  unfoldable pub then_update :
      (List Route → Result PeerError (List Route) × List Route)
      → List Route
      → Result PeerError (List Route)
      → Result PeerError (List Route) × List Route
  then_update rest routes (err x) = (err x, routes)
  then_update rest routes (ok routes') = rest routes'

  -- `update_routes`; what the routes before an exception wrote stays written.
  unfoldable pub update_routes :
      List Route → List Route → Result PeerError (List Route) × List Route
  unfolding then_update
  update_routes [] routes = (ok routes, routes)
  update_routes (r ∷ rs) routes = then_update (update_routes rs) routes (update_route r routes)

  unfoldable pub prioritise_found :
      Route → Option ℕ → List Route → Option ℕ → Result PeerError (List Route × Route)
  unfolding prioritise update_route_priority
  prioritise_found r priority routes none = err no_route
  prioritise_found r priority routes (some i) = prioritise i (new_priority r priority routes) routes

  unfoldable pub update_existed_route_priority :
      Route → Option ℕ → List Route → Result PeerError (List Route × Route)
  unfolding existed_route prioritise_found
  update_existed_route_priority r priority routes =
      if is_zero priority
      then err priority_error
      else prioritise_found r priority routes (existed_route r routes)

  -- `delete_route`
  unfoldable pub delete_route : Route → List Route → List Route
  unfolding route_eq
  delete_route r routes = filter (λ s. not (route_eq s.address r.address)) routes
