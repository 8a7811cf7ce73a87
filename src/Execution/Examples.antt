-- ===== src/Execution/Examples.antt =====
-- The theorems on policies and calls at a concrete server.
use py_syft.Prelude.{
  ℕ, ◌≡◌, refl, ◌⊎◌, Bool, true, false, Option, none, some, List, [], ◌∷◌, ◌==◌, if◌then◌else◌,
}
use py_syft.Prelude.Result.{Result, ok, ◌>>◌}
use py_syft.Execution.Policies.{
  CallError, Actions, Rule, matches, constant, user_owned, Server, ByServer, all_keys, Input,
  object, value, find_kw, filter_rule, is_met, checked_input, filter_rules, filter_servers,
  mixed_filter_kwargs, mixed_is_valid, retrieve_all, retrieve_from_db, inputs_of, allowed_loop,
  allowed_ids_only, exact_filter_kwargs, exact_is_valid, execute_count,
}
use py_syft.Execution.Code.{
  by_id, Context, UserCode, exact_match, History, Outcome, shown, executed, map_kwargs_to_id,
  is_execution_allowed, has_code_permission,
}
use py_syft.Execution.Calls.{
  keep_owned_kwargs, is_execution_on_owned_args, set_permissions, input_is_valid, filter_kwargs,
  checked_inputs, call, call_permitted, call_mapped, execute, run_inputs, finish,
}
use py_syft.Execution.Matching.{exact_is_valid_lem}
use py_syft.Execution.Rules.{mixed_is_valid_lem}
use py_syft.Execution.Giving.{ServersMeet, ServersGive, mixed_filter_kwargs-ServersMeet}
use py_syft.Execution.Running.{Overrides, IsGranted, call-IsGranted, one_more, call-ignores_limit}
use py_syft.Request.{
  code_approved, code_denied, code_pending, mutate, compute_status, compute_status_l2,
}
use py_syft.Execution.Denied.{call-denied}

-- Objects are their ids; there is none under 9, and 8 is a link to 3; all have type 1, and key 5 owns
-- the object 5.
abbrev get_small : ℕ → Option ℕ
get_small i = if i == 9 then none else if i == 8 then some 3 else some i

abbrev small : Actions
small = record { Obj = ℕ; get = get_small; id = λ o. o; type = λ o. 1; owned = λ k i. k == i }

abbrev datasite : Server
datasite = record { id = 1; is_datasite = true }

-- Argument 20 has to be object 3.
abbrev one_input : ByServer ℕ
one_input = (1, (20, 3) ∷ []) ∷ []

one_input-valid : exact_is_valid small datasite one_input ((20, 3) ∷ []) ≡ ok tt
unfolding exact_is_valid exact_filter_kwargs allowed_ids_only allowed_loop retrieve_from_db
    retrieve_all
one_input-valid = refl

exact_is_valid_lem_example :
    (exact_filter_kwargs small datasite one_input ((20, 3) ∷ [])
      ≡ retrieve_from_db small datasite ((20, 3) ∷ []))
    × (all_keys one_input (inputs_of 1 one_input) ≡ true)
exact_is_valid_lem_example =
    exact_is_valid_lem small datasite one_input ((20, 3) ∷ []) one_input-valid

-- Argument 20 has to be object 3, 21 an object of the caller's, and 22 is the constant 8.
abbrev rules : ByServer Rule
rules = (1, (20, matches 3) ∷ (21, user_owned 1) ∷ (22, constant 8) ∷ []) ∷ []

mixed_is_valid_lem_example :
    mixed_is_valid small 5 rules ((20, 3) ∷ (21, 5) ∷ [])
    ≡ (mixed_filter_kwargs small 5 rules ((20, 3) ∷ (21, 5) ∷ []) >> ok tt)
mixed_is_valid_lem_example = mixed_is_valid_lem small 5 rules ((20, 3) ∷ (21, 5) ∷ [])

-- The link 8 is passed for the argument 20.
rules-filter :
    mixed_filter_kwargs small 5 rules ((20, 8) ∷ (21, 5) ∷ [])
    ≡ ok ((20, object 3) ∷ (21, object 5) ∷ (22, value 8) ∷ [])
unfolding mixed_filter_kwargs filter_servers filter_rules filter_rule checked_input is_met
rules-filter = refl

mixed_filter_kwargs-ServersMeet_example :
    ServersMeet small 5 ((20, 8) ∷ (21, 5) ∷ []) rules
    × ((kw : ℕ) (x : Input small)
        → find_kw kw ((20, object 3) ∷ (21, object 5) ∷ (22, value 8) ∷ []) ≡ some x
        → ServersGive small 5 ((20, 8) ∷ (21, 5) ∷ []) rules kw x)
mixed_filter_kwargs-ServersMeet_example =
    mixed_filter_kwargs-ServersMeet small 5 rules ((20, 8) ∷ (21, 5) ∷ []) _ rules-filter

-- Key 5 has written the code, which may run once.
abbrev caller : Context
caller = record {
  credentials = 5;
  is_admin = false;
  server = datasite;
  server_key = 100;
  has_execute_permissions = false;
  is_l0_lowside = false;
  server_allows_execution_for_ds = true;
  is_blocking_api_call = true;
  has_result_read_permission = false;
  mock_execution_permission = false;
}

abbrev once : UserCode
once = record {
  user_verify_key = 5;
  parameters = 20 ∷ [];
  is_approved = true;
  output_policy_approved = false;
  input_policy = some (exact_match one_input);
  output_policy = some (execute_count 1);
  is_l0_deployment = false;
  has_custom_worker_pool = false;
}

abbrev nobody : ℕ → ℕ → Option ℕ
nobody k i = none

abbrev unreadable_all : ℕ → ℕ → Bool
unreadable_all k i = false

abbrev outcome : Outcome
outcome = record { ids = 40 ∷ []; is_twin = false; is_mock = false; is_error = false }

abbrev run_fine : List (ℕ × Input small) → Result CallError Outcome
run_fine inputs = ok outcome

-- It has run three times.
abbrev thrice : History
thrice = record { outputs = []; count = 3 }

call-ignores_limit_example :
    call small nobody unreadable_all run_fine caller once ((20, by_id 3) ∷ []) thrice ≡ (
      ok (executed (shown caller outcome)),
      one_more small nobody unreadable_all run_fine outcome ((20, 3) ∷ []) thrice,
    )
unfolding set_permissions is_execution_on_owned_args keep_owned_kwargs map_kwargs_to_id
    checked_inputs input_is_valid filter_kwargs exact_is_valid exact_filter_kwargs allowed_ids_only
    allowed_loop retrieve_from_db retrieve_all
call-ignores_limit_example =
    call-ignores_limit small nobody unreadable_all run_fine caller once ((20, by_id 3) ∷ [])
      ((20, 3) ∷ []) ((20, object 3) ∷ []) outcome 1 thrice refl refl refl refl refl refl refl refl
      refl refl

fourth_run :
    (call small nobody unreadable_all run_fine caller once ((20, by_id 3) ∷ []) thrice).0
    ≡ ok (executed (shown caller outcome))
unfolding call call_permitted call_mapped execute run_inputs finish is_execution_allowed
    has_code_permission set_permissions is_execution_on_owned_args keep_owned_kwargs
    map_kwargs_to_id checked_inputs input_is_valid filter_kwargs exact_is_valid exact_filter_kwargs
    allowed_ids_only allowed_loop retrieve_from_db retrieve_all
fourth_run = refl

call-IsGranted_example :
    Overrides small nobody unreadable_all run_fine caller once ((20, by_id 3) ∷ [])
    ⊎ IsGranted small nobody unreadable_all run_fine caller once
call-IsGranted_example =
    call-IsGranted small nobody unreadable_all run_fine caller once ((20, by_id 3) ∷ []) thrice
      (shown caller outcome) fourth_run

-- Server 2 has denied the code, and an admin runs it.
abbrev admin_caller : Context
admin_caller = record caller { is_admin = true }

abbrev denied_code : UserCode
denied_code = record once { is_approved = false }

admin_runs :
    (call small nobody unreadable_all run_fine admin_caller denied_code
      ((20, by_id 3) ∷ [])
      thrice).0
    ≡ ok (executed (shown admin_caller outcome))
unfolding call call_permitted call_mapped execute run_inputs finish set_permissions
    is_execution_on_owned_args keep_owned_kwargs map_kwargs_to_id retrieve_from_db retrieve_all
admin_runs = refl

call-denied_example :
    Overrides small nobody unreadable_all run_fine admin_caller denied_code ((20, by_id 3) ∷ [])
unfolding mutate compute_status compute_status_l2
call-denied_example =
    call-denied small nobody unreadable_all run_fine admin_caller denied_code ((20, by_id 3) ∷ [])
      thrice (shown admin_caller outcome) code_approved 1 2
      ((1, code_pending) ∷ (2, code_denied) ∷ []) ((1, code_approved) ∷ (2, code_denied) ∷ []) false
      true refl refl refl admin_runs
