-- ===== src/Request.antt =====
-- packages/syft/src/syft/service/request/request.py and the status of user code in
-- packages/syft/src/syft/service/code/user_code.py: requests, the history of their changes, and the
-- decisions on code.
mod History
mod Changes
pub mod Decisions
mod Examples
use py_syft.Prelude.{
  ℕ, Bool, true, false, ◌&&◌, ◌||◌, Option, none, some, List, [], ◌∷◌, ◌++◌, length, any, ◌==◌,
  if◌then◌else◌,
}

pub data RequestStatus : Type 0 where
  pending rejected approved : RequestStatus

-- `ChangeStatus`: the id of a change, and whether it is applied.
abbrev pub ChangeStatus : Type 0
ChangeStatus = ℕ × Bool

-- `d[c] = b` on a dict in its order.
abbrev pub set_key : {A : Type 0} → ℕ → A → List (ℕ × A) → List (ℕ × A)
set_key c b [] = (c, b) ∷ []
set_key c b ((d, x) ∷ l) = if d == c then (d, b) ∷ l else (d, x) ∷ set_key c b l

abbrev pub find_key : {A : Type 0} → ℕ → List (ℕ × A) → Option A
find_key c [] = none
find_key c ((d, x) ∷ l) = if d == c then some x else find_key c l

abbrev pub all_applied : List (ℕ × Bool) → Bool
all_applied [] = true
all_applied ((c, b) ∷ l) = b && all_applied l

abbrev pub state_from : List (ℕ × Bool) → List ChangeStatus → List (ℕ × Bool)
state_from d [] = d
state_from d ((c, b) ∷ h) = state_from (set_key c b d) h

-- `current_change_state`
unfoldable pub current_change_state : List ChangeStatus → List (ℕ × Bool)
current_change_state h = state_from [] h

-- The end of `get_status`, which goes by the history.
unfoldable pub history_status : List ℕ → List ChangeStatus → RequestStatus
unfolding current_change_state
history_status changes [] = pending
history_status changes (s ∷ h) =
    if all_applied (current_change_state (s ∷ h))
      && (length (current_change_state (s ∷ h)) == length changes)
    then approved
    else rejected

-- `apply_change` and `undo_change` are the methods `apply` and `undo` of the change of an id: whether
-- they succeed, and what they make of the state `World` of the server.
module _ {World : Type 0} (apply_change : ℕ → World → Bool × World) where
  -- The loop of `apply`: whether it ends without an exception, the history and the world.
  unfoldable pub apply : List ℕ → List ChangeStatus → World → Bool × List ChangeStatus × World
  apply [] h w = (true, h, w)
  apply (c ∷ cs) h w =
      let (fine, w') = apply_change c w in
      let rest = apply cs (h ++ (c, true) ∷ []) w' in
      if fine then rest else (false, h ++ (c, false) ∷ [], w')

abbrev pub was_applied : Option Bool → Bool
was_applied none = false
was_applied (some b) = b

module _ {World : Type 0} (undo_change : ℕ → World → Bool × World) where
  unfoldable pub undo_from :
      List (ℕ × Bool) → List ℕ → List ChangeStatus → World → Bool × List ChangeStatus × World
  undo_from d [] h w = (true, h, w)
  undo_from d (c ∷ cs) h w =
      let (fine, w') = undo_change c w in
      let rest = undo_from d cs (h ++ (c, false) ∷ []) w' in
      if fine then rest else (false, h ++ (c, was_applied (find_key c d)) ∷ [], w')

  -- The loop of `undo`, with the change state of its start.
  unfoldable pub undo : List ℕ → List ChangeStatus → World → Bool × List ChangeStatus × World
  unfolding undo_from current_change_state
  undo cs h w = undo_from (current_change_state h) cs h w

pub data UserCodeStatus : Type 0 where
  code_pending code_denied code_approved : UserCodeStatus

abbrev pub is_denied : UserCodeStatus → Bool
is_denied code_denied = true
is_denied _ = false

abbrev pub is_approved : UserCodeStatus → Bool
is_approved code_approved = true
is_approved _ = false

-- `status_dict`: the decision of each server, by the number of the server's identity.
abbrev pub StatusDict : Type 0
StatusDict = List (ℕ × UserCodeStatus)

abbrev pub denied : StatusDict → Bool
denied [] = false
denied ((i, s) ∷ d) = is_denied s || denied d

abbrev pub all_approved : StatusDict → Bool
all_approved [] = true
all_approved ((i, s) ∷ d) = is_approved s && all_approved d

-- `_compute_status_l0`, with the answer of `_has_readable_outputs`.
unfoldable pub compute_status_l0 : Bool → StatusDict → UserCodeStatus
compute_status_l0 readable d =
    if denied d then code_denied else if readable then code_approved else code_pending

unfoldable pub compute_status_l2 : StatusDict → UserCodeStatus
compute_status_l2 d =
    if denied d then code_denied else if all_approved d then code_approved else code_pending

unfoldable pub compute_status : Bool → Bool → StatusDict → UserCodeStatus
unfolding compute_status_l0 compute_status_l2
compute_status was_requested_on_lowside readable d =
    if was_requested_on_lowside then compute_status_l0 readable d else compute_status_l2 d

-- `mutate`; `none` is the exception for a server that the dict does not have.
unfoldable pub mutate : UserCodeStatus → ℕ → StatusDict → Option StatusDict
mutate s i d = elim (find_key i d) [ none ↦ none | some _ ↦ some (set_key i s d) ]

-- `RequestStatus.from_usercode_status`
unfoldable pub from_usercode_status : Bool → Bool → StatusDict → RequestStatus
unfolding compute_status
from_usercode_status lowside readable d =
    if is_approved (compute_status lowside readable d)
    then approved
    else if denied d
    then rejected
    else pending

-- The status of the code of a request, with the answer of `_has_readable_outputs`.
pub record CodeStatus : Type 0 where
  pub was_requested_on_lowside : Bool
  pub has_readable_outputs : Bool
  pub status_dict : StatusDict

-- The code of a request; its status is `none` where reading it raises.
pub record RequestCode : Type 0 where
  pub is_l0_deployment : Bool
  pub status : Option CodeStatus

-- `none` is a request without code, or a code that cannot be read.
abbrev pub get_is_l0_deployment : Option RequestCode → Bool
get_is_l0_deployment none = false
get_is_l0_deployment (some c) = c.is_l0_deployment

abbrev pub read_status : Option RequestCode → Option CodeStatus
read_status none = none
read_status (some c) = c.status

-- The `try` of `get_status`; `none` is the way on to the history.
unfoldable pub l0_status : Option RequestCode → Option RequestStatus
unfolding from_usercode_status
l0_status code =
    if get_is_l0_deployment code
    then elim (read_status code) [
      | none ↦ none
      | some c ↦
          some
            (from_usercode_status c.was_requested_on_lowside c.has_readable_outputs c.status_dict)
    ]
    else none

unfoldable pub get_status : Option RequestCode → List ℕ → List ChangeStatus → RequestStatus
unfolding l0_status history_status
get_status code changes h = elim (l0_status code) [ none ↦ history_status changes h | some s ↦ s ]
