-- ===== src/Execution/Code.antt =====
-- Code, callers and outputs of user_code_service.py, and whether a caller may execute a code.
use py_syft.Prelude.{
  ℕ, Bool, true, false, not, ◌&&◌, ◌||◌, Option, none, some, List, [], ◌∷◌, elem, ◌==◌,
  if◌then◌else◌,
}
use py_syft.Prelude.Result.{Result, ok, err, or_raise, ◌>>=◌}
use py_syft.Execution.Policies.{
  CallError, no_uid, find_kw, Rule, Server, ByServer, OutputPolicy, output_is_valid,
}

-- An argument: an id, an `ActionObject` with its id and `syft_client_verify_key`, a `TwinObject` or
-- an `Asset` with the id that stands for it, or something else.
pub data Arg : Type 0 where
  by_id : ℕ → Arg
  action_object : ℕ → ℕ → Arg
  twin_or_asset : ℕ → Arg
  plain : Arg

-- The context of the call: the caller, whether the role is ADMIN, the server with its key, and the
-- flags of the context; `mock_execution_permission` is the current user's.
pub record Context : Type 0 where
  pub credentials : ℕ
  pub is_admin : Bool
  pub server : Server
  pub server_key : ℕ
  pub has_execute_permissions : Bool
  pub is_l0_lowside : Bool
  pub server_allows_execution_for_ds : Bool
  pub is_blocking_api_call : Bool
  pub has_result_read_permission : Bool
  pub mock_execution_permission : Bool

pub data InputPolicy : Type 0 where
  exact_match : ByServer ℕ → InputPolicy
  mixed : ByServer Rule → InputPolicy

-- The code as the service finds it: `is_approved` is `get_is_approved(context)` of its status,
-- `output_policy_approved` its `approved`; the policies are those that `get_input_policy` and
-- `get_output_policy` return. `parameters` are those of the signature but "datasite" and "context".
pub record UserCode : Type 0 where
  pub user_verify_key : ℕ
  pub parameters : List ℕ
  pub is_approved : Bool
  pub output_policy_approved : Bool
  pub input_policy : Option InputPolicy
  pub output_policy : Option OutputPolicy
  pub is_l0_deployment : Bool
  pub has_custom_worker_pool : Bool

-- An `ExecutionOutput`.
pub record Output : Type 0 where
  pub output_ids : List ℕ
  pub input_ids : List (ℕ × ℕ)

-- The outputs stored for the code, and how many are stored for its output policy.
pub record History : Type 0 where
  pub outputs : List Output
  pub count : ℕ

-- The object that the run returns, by what the call asks of it.
pub record Outcome : Type 0 where
  pub ids : List ℕ
  pub is_twin : Bool
  pub is_mock : Bool
  pub is_error : Bool

pub data Shown : Type 0 where
  private_part mock_part whole empty_part : Outcome → Shown

-- What the caller gets: stored outputs, or the result of a run.
pub data Returned : Type 0 where
  stored_outputs : List ℕ → Returned
  executed : Shown → Returned

pub data Allowed : Type 0 where
  allowed no_permission waiting policy_none policy_invalid policy_not_approved : Allowed

-- `has_code_permission`
unfoldable pub has_code_permission : Context → UserCode → Bool
has_code_permission x code =
    (x.credentials == x.server_key) || (x.credentials == code.user_verify_key)

-- `is_output_policy_approved` returns its answer in an `Ok`. An `Ok` or an `Err` is true where it stands
-- as a condition.
abbrev pub is_output_policy_approved : UserCode → Result CallError Bool
is_output_policy_approved code = ok code.output_policy_approved

abbrev pub as_condition : Result CallError Bool → Bool
as_condition (ok b) = true
as_condition (err e) = true

-- The end of `is_execution_allowed`: what `is_valid` returns is not looked at.
abbrev pub unless_raised : Option Bool → Allowed
unless_raised none = policy_invalid
unless_raised (some valid) = allowed

abbrev pub policy_allows : Option OutputPolicy → ℕ → Allowed
policy_allows none count = policy_none
policy_allows (some p) count = unless_raised (output_is_valid p count)

-- `is_execution_allowed`
unfoldable pub is_execution_allowed : Context → UserCode → ℕ → Allowed
unfolding has_code_permission
is_execution_allowed x code count =
    if not code.is_approved
    then waiting
    else if not (has_code_permission x code)
    then no_permission
    else if not (as_condition (is_output_policy_approved code))
    then policy_not_approved
    else policy_allows code.output_policy count

abbrev pub is_allowed : Allowed → Bool
is_allowed allowed = true
is_allowed _ = false

-- `is_execution_on_owned_args_allowed`
abbrev pub is_execution_on_owned_args_allowed : Context → Bool
is_execution_on_owned_args_allowed x = x.is_admin || x.mock_execution_permission

-- `map_kwargs_to_id`
abbrev pub arg_id : Arg → Option ℕ
arg_id (by_id i) = some i
arg_id (action_object i k) = some i
arg_id (twin_or_asset i) = some i
arg_id plain = none

unfoldable pub map_kwargs_to_id : List (ℕ × Arg) → Result CallError (List (ℕ × ℕ))
map_kwargs_to_id [] = ok []
map_kwargs_to_id ((k, v) ∷ l) =
    or_raise (arg_id v) no_uid >>= λ i. map_kwargs_to_id l >>= λ r. ok ((k, i) ∷ r)

-- `check_input_ids` of output_service.py
abbrev pub same_id : ℕ → Option ℕ → Bool
same_id v none = false
same_id v (some u) = u == v

abbrev pub all_same : List (ℕ × ℕ) → List (ℕ × ℕ) → Bool
all_same ids [] = true
all_same ids ((k, v) ∷ l) = same_id v (find_kw k ids) && all_same ids l

unfoldable pub check_input_ids : List (ℕ × ℕ) → List (ℕ × ℕ) → Bool
check_input_ids [] kwargs = true
check_input_ids (p ∷ ids) kwargs = all_same (p ∷ ids) kwargs

abbrev pub last_output : List Output → Option Output
last_output [] = none
last_output (o ∷ []) = some o
last_output (o ∷ p ∷ l) = last_output (p ∷ l)

-- `set(passed_kwargs) == code_kwargs`
abbrev pub includes : List ℕ → List ℕ → Bool
includes ks [] = true
includes ks (k ∷ l) = elem k ks && includes ks l

-- What the caller sees of the result.
unfoldable pub shown : Context → Outcome → Shown
shown x o =
    let readable = x.is_admin || x.has_result_read_permission in
    if o.is_twin
    then if readable then private_part o else mock_part o
    else if o.is_mock || o.is_error || readable
    then whole o
    else empty_part o
