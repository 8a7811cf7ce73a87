-- ===== src/Execution/Calls.antt =====
-- `call` of user_code_service.py, with `_user_code_execute` of action_service.py up to the run.
use py_syft.Prelude.{
  ℕ, ◌+◌, Bool, true, false, not, ◌&&◌, ◌||◌, Option, none, some, List, [], ◌∷◌, ◌++◌, map, length,
  filter, ltb, ◌==◌, if◌then◌else◌,
}
use py_syft.Prelude.Result.{Result, ok, err, raise_if, ◌>>=◌, ◌>>◌}
use py_syft.Execution.Policies.{
  CallError, no_input_policy, no_mock_permission, not_approved, denied, blocking, unreadable,
  Actions, Input, mixed_filter_kwargs, mixed_is_valid, retrieve_from_db, exact_filter_kwargs,
  exact_is_valid, OutputPolicy, execute_count, user_defined,
}
use py_syft.Execution.Code.{
  Arg, Context, InputPolicy, UserCode, Output, History, Outcome, Returned, is_execution_allowed,
  is_allowed, is_execution_on_owned_args_allowed, map_kwargs_to_id, same_id, check_input_ids,
  last_output, includes, shown, by_id, action_object, twin_or_asset, plain, exact_match, mixed,
  stored_outputs, executed,
}

-- `owner_of` is the `syft_client_verify_key` of the `ActionObject` that the caller finds under an id,
-- `readable` says whether the caller may get the private object of an id, and `run` is the run of
-- the code with its storing of the result.
module _ (a : Actions) (owner_of : ℕ → ℕ → Option ℕ) (readable : ℕ → ℕ → Bool)
    (run : List (ℕ × Input a) → Result CallError Outcome) where
  abbrev owner : ℕ → Arg → Option ℕ
  owner caller (by_id i) = owner_of caller i
  owner caller (action_object i k) = some k
  owner caller (twin_or_asset i) = none
  owner caller plain = none

  -- `keep_owned_kwargs`
  abbrev pub is_owned : ℕ → ℕ × Arg → Bool
  is_owned caller (k, v) = same_id caller (owner caller v)

  unfoldable pub keep_owned_kwargs : Context → List (ℕ × Arg) → List (ℕ × Arg)
  keep_owned_kwargs x kwargs = filter (is_owned x.credentials) kwargs

  -- `is_execution_on_owned_args`; the code was found already.
  unfoldable pub is_execution_on_owned_args : Context → UserCode → List (ℕ × Arg) → Bool
  unfolding keep_owned_kwargs
  is_execution_on_owned_args x code kwargs =
      let names : List ℕ = map (λ p. p.0) kwargs in
      (length (keep_owned_kwargs x kwargs) == length kwargs)
      && includes code.parameters names
      && includes names code.parameters

  -- The part "Set Permissions" of `_call`: `has_execute_permissions` afterwards.
  unfoldable pub set_permissions : Context → UserCode → List (ℕ × Arg) → Result CallError Bool
  unfolding is_execution_on_owned_args
  set_permissions x code kwargs =
      if not (is_execution_on_owned_args x code kwargs)
      then ok x.has_execute_permissions
      else if is_execution_on_owned_args_allowed x
      then ok true
      else if length kwargs == 0
      then ok x.has_execute_permissions
      else err no_mock_permission

  -- `is_valid` and `filter_kwargs` of the policy of the code.
  unfoldable pub input_is_valid : Context → InputPolicy → List (ℕ × ℕ) → Result CallError (Unit {0})
  unfolding exact_is_valid mixed_is_valid
  input_is_valid x (exact_match inputs) kwargs = exact_is_valid a x.server inputs kwargs
  input_is_valid x (mixed rules) kwargs = mixed_is_valid a x.credentials rules kwargs

  unfoldable pub filter_kwargs :
      Context → InputPolicy → List (ℕ × ℕ) → Result CallError (List (ℕ × Input a))
  unfolding exact_filter_kwargs mixed_filter_kwargs
  filter_kwargs x (exact_match inputs) kwargs = exact_filter_kwargs a x.server inputs kwargs
  filter_kwargs x (mixed rules) kwargs = mixed_filter_kwargs a x.credentials rules kwargs

  -- `_user_code_execute`, up to the inputs of the run.
  unfoldable pub checked_inputs :
      Context → Option InputPolicy → List (ℕ × ℕ) → Result CallError (List (ℕ × Input a))
  unfolding input_is_valid filter_kwargs
  checked_inputs x none kwargs = err no_input_policy
  checked_inputs x (some p) kwargs = input_is_valid x p kwargs >> filter_kwargs x p kwargs

  unfoldable pub run_inputs :
      Context → UserCode → Bool → List (ℕ × ℕ) → Result CallError (List (ℕ × Input a))
  unfolding checked_inputs retrieve_from_db
  run_inputs x code override kwargs =
      if override
      then retrieve_from_db a x.server kwargs
      else checked_inputs x code.input_policy kwargs

  -- `resolve_outputs`
  unfoldable pub resolve_outputs : ℕ → List ℕ → Result CallError (List ℕ)
  resolve_outputs caller [] = ok []
  resolve_outputs caller (i ∷ l) =
      raise_if (not (readable caller i)) unreadable >> resolve_outputs caller l >>= λ r. ok (i ∷ r)

  abbrev pub check_last :
      Context → Option InputPolicy → Output → List (ℕ × ℕ) → Result CallError (Unit {0})
  unfolding check_input_ids input_is_valid
  check_last x none o kwargs = ok tt
  check_last x (some p) o kwargs =
      if check_input_ids o.input_ids kwargs then ok tt else input_is_valid x p kwargs

  -- The output of the last run, where there is one.
  unfoldable pub from_history :
      Context → UserCode → Option Output → List (ℕ × ℕ) → Result CallError (List ℕ)
  unfolding check_last resolve_outputs
  from_history x code none kwargs = err denied
  from_history x code (some o) kwargs =
      check_last x code.input_policy o kwargs >> resolve_outputs x.credentials o.output_ids

  abbrev pub says_valid : Option OutputPolicy → ℕ → Bool
  says_valid none count = false
  says_valid (some (execute_count limit)) count = ltb count limit
  says_valid (some (user_defined none)) count = false
  says_valid (some (user_defined (some v))) count = v

  -- Where the code may not run: the stored output, or an exception.
  unfoldable pub not_run :
      Context → UserCode → List (ℕ × Arg) → List (ℕ × ℕ) → History → Result CallError (List ℕ)
  unfolding from_history keep_owned_kwargs
  not_run x code args kwargs h =
      raise_if (x.server_allows_execution_for_ds && not code.is_approved) not_approved
      >> (if (not (says_valid code.output_policy h.count) || code.is_l0_deployment)
            && (length (keep_owned_kwargs x args) == 0)
          then from_history x code (last_output h.outputs) kwargs
          else err denied)

  abbrev pub is_some : Option OutputPolicy → Bool
  is_some none = false
  is_some (some p) = true

  -- `store_execution_output`, where the result is to be stored.
  abbrev pub store_output : Bool → List ℕ → List (ℕ × ℕ) → History → History
  store_output false ids kwargs h = h
  store_output true ids kwargs h = record {
    outputs = h.outputs ++ (record { output_ids = ids; input_ids = kwargs }) ∷ [];
    count = h.count + 1;
  }

  unfoldable pub finish :
      Context
      → UserCode
      → Bool
      → List (ℕ × ℕ)
      → Result CallError Outcome
      → History
      → Result CallError Returned × History
  unfolding shown
  finish x code override kwargs (err e) h = (err e, h)
  finish x code override kwargs (ok o) h = (
    ok (executed (shown x o)),
    store_output
        ((not override && is_some code.output_policy) || (x.is_admin && code.is_l0_deployment))
        o.ids kwargs h,
  )

  -- "Execute the code item"
  unfoldable pub execute :
      Context → UserCode → Bool → List (ℕ × ℕ) → History → Result CallError Returned × History
  unfolding run_inputs finish
  execute x code override kwargs h =
      if code.has_custom_worker_pool && x.is_blocking_api_call
      then (err blocking, h)
      else finish x code override kwargs (run_inputs x code override kwargs >>= run) h

  abbrev pub give : Result CallError (List ℕ) → History → Result CallError Returned × History
  give (ok ids) h = (ok (stored_outputs ids), h)
  give (err e) h = (err e, h)

  -- `_call` behind `set_permissions` and `map_kwargs_to_id`.
  unfoldable pub call_mapped :
      Context
      → UserCode
      → Bool
      → List (ℕ × Arg)
      → Result CallError (List (ℕ × ℕ))
      → History
      → Result CallError Returned × History
  unfolding is_execution_allowed not_run execute
  call_mapped x code override args (err e) h = (err e, h)
  call_mapped x code override args (ok kwargs) h =
      if not override && (not (is_allowed (is_execution_allowed x code h.count)) || x.is_l0_lowside)
      then give (not_run x code args kwargs h) h
      else execute x code override kwargs h

  unfoldable pub call_permitted :
      Context
      → UserCode
      → List (ℕ × Arg)
      → Result CallError Bool
      → History
      → Result CallError Returned × History
  unfolding call_mapped map_kwargs_to_id
  call_permitted x code args (err e) h = (err e, h)
  call_permitted x code args (ok permission) h =
      call_mapped x code (permission || x.is_admin) args (map_kwargs_to_id args) h

  -- `call`
  unfoldable pub call :
      Context → UserCode → List (ℕ × Arg) → History → Result CallError Returned × History
  unfolding call_permitted set_permissions
  call x code args h = call_permitted x code args (set_permissions x code args) h
