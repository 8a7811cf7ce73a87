-- ===== src/Execution/Running.antt =====
-- When `call` of user_code_service.py runs the code.
use py_syft.Prelude.{
  ℕ, ◌+◌, ◌≡◌, refl, ap, ◌∙◌, Bool, true, false, not, Option, none, some, List, [], ◌∷◌, ◌++◌,
  length, ◌==◌, ==_iff, if◌then◌else◌, ◌⊎◌, inl, inr, Bool-cases, arith,
}
use py_syft.Prelude.Result.{Result, ok, err, ◌>>=◌}
use py_syft.Execution.Policies.{
  CallError, no_mock_permission, Actions, Input, OutputPolicy, execute_count,
}
use py_syft.Execution.Code.{
  Arg, Context, UserCode, History, Outcome, Shown, Returned, executed, Allowed, waiting,
  no_permission, policy_not_approved, has_code_permission, is_execution_allowed, is_allowed,
  policy_allows, shown, map_kwargs_to_id, is_execution_on_owned_args_allowed,
}
use py_syft.Execution.Calls.{
  is_some, is_execution_on_owned_args, set_permissions, checked_inputs, run_inputs, not_run, finish,
  execute, give, call_mapped, call_permitted, call,
}

guards :
    (p t q : Bool) (w : Allowed)
    → is_allowed (
        if not p
        then waiting
        else if not t
        then no_permission
        else if not q
        then policy_not_approved
        else w)
      ≡ true
    → (p ≡ true) × (t ≡ true) × (q ≡ true) × (is_allowed w ≡ true)
guards true true true w h = (refl, refl, refl, h)
guards true true false w h = ground arith
guards true false q w h = ground arith
guards false t q w h = ground arith

permission-cases :
    (owned may none_passed permission : Bool)
    → (if not owned
        then ok permission
        else if may
        then ok true
        else if none_passed
        then ok permission
        else err no_mock_permission)
      ≡ ok true
    → (permission ≡ true) ⊎ ((owned ≡ true) × (may ≡ true))
permission-cases true true none_passed permission h = inr (refl, refl)
permission-cases true false true permission h = inl (cc)
permission-cases true false false permission h = inl (ground arith)
permission-cases false may none_passed permission h = inl (cc)

err-ok : (f : CallError) (r : Returned) → err f ≡ ok r → ⊥
err-ok f r e = ground arith

module _ (a : Actions) (owner_of : ℕ → ℕ → Option ℕ) (readable : ℕ → ℕ → Bool)
    (run : List (ℕ × Input a) → Result CallError Outcome) where
  -- An admin, a context with the permission to execute, or one whose user may run code on arguments
  -- that are all the user's own.
  abbrev pub Overrides : Context → UserCode → List (ℕ × Arg) → Type 0
  Overrides x code args =
      (x.is_admin ≡ true)
      ⊎ (x.has_execute_permissions ≡ true)
      ⊎ ((is_execution_on_owned_args a owner_of readable run x code args ≡ true)
          × (is_execution_on_owned_args_allowed x ≡ true))

  -- The code is approved, the caller is its author or the server, and there is an output policy.
  abbrev pub IsGranted : Context → UserCode → Type 0
  IsGranted x code =
      (code.is_approved ≡ true)
      × ((x.credentials ≡ x.server_key) ⊎ (x.credentials ≡ code.user_verify_key))
      × (is_some a owner_of readable run code.output_policy ≡ true)

  policy_allows-some :
      (o : Option OutputPolicy) (n : ℕ)
      → is_allowed (policy_allows o n) ≡ true
      → is_some a owner_of readable run o ≡ true
  policy_allows-some none n h = ground arith
  policy_allows-some (some p) n h = refl

  code_permission-caller :
      (x : Context) (code : UserCode)
      → has_code_permission x code ≡ true
      → (x.credentials ≡ x.server_key) ⊎ (x.credentials ≡ code.user_verify_key)
  unfolding has_code_permission
  code_permission-caller x code h = elim (Bool-cases (x.credentials == x.server_key)) [
    | inl t ↦ inl ((==_iff x.credentials x.server_key).0 t)
    | inr t ↦ inr ((==_iff x.credentials code.user_verify_key).0 (rw t at h))
  ]

  allowed-IsGranted :
      (x : Context) (code : UserCode) (n : ℕ)
      → is_allowed (is_execution_allowed x code n) ≡ true
      → IsGranted x code
  unfolding is_execution_allowed
  allowed-IsGranted x code n h =
      let (p, t, _, w) =
        guards code.is_approved (has_code_permission x code) true
          (policy_allows code.output_policy n) h in
      (p, code_permission-caller x code t, policy_allows-some code.output_policy n w)

  not-executed :
      (m : Result CallError (List ℕ)) (h : History) (s : Shown)
      → (give a owner_of readable run m h).0 ≡ ok (executed s)
      → ⊥
  not-executed (err x) h s e = ground arith
  not-executed (ok l) h s e = ground arith

  call_mapped-IsGranted :
      (x : Context) (code : UserCode) (override : Bool) (args : List (ℕ × Arg))
      (m : Result CallError (List (ℕ × ℕ))) (h : History) (s : Shown)
      → (call_mapped a owner_of readable run x code override args m h).0 ≡ ok (executed s)
      → (override ≡ true) ⊎ IsGranted x code
  unfolding call_mapped
  call_mapped-IsGranted x code true args m h s e = inl refl
  call_mapped-IsGranted x code false args (err f) h s e = absurd (err-ok f (executed s) e)
  call_mapped-IsGranted x code false args (ok kwargs) h s e =
      elim (Bool-cases (is_allowed (is_execution_allowed x code h.count))) [
        | inl t ↦ inr (allowed-IsGranted x code h.count t)
        | inr t ↦
            absurd
              (not-executed (not_run a owner_of readable run x code args kwargs h) h s (rw t at e))
      ]

  set_permissions-Overrides :
      (x : Context) (code : UserCode) (args : List (ℕ × Arg))
      → set_permissions a owner_of readable run x code args ≡ ok true
      → Overrides x code args
  unfolding set_permissions
  set_permissions-Overrides x code args h =
      elim (permission-cases (is_execution_on_owned_args a owner_of readable run x code args)
        (is_execution_on_owned_args_allowed x) (length args == 0) x.has_execute_permissions h) [
          | inl t ↦ inr (inl t)
          | inr t ↦ inr (inr t)
        ]

  call_permitted-IsGranted :
      (x : Context) (code : UserCode) (args : List (ℕ × Arg)) (m : Result CallError Bool)
      (h : History) (s : Shown)
      → set_permissions a owner_of readable run x code args ≡ m
      → (call_permitted a owner_of readable run x code args m h).0 ≡ ok (executed s)
      → Overrides x code args ⊎ IsGranted x code
  unfolding call_permitted
  call_permitted-IsGranted x code args (err f) h s g e = absurd (err-ok f (executed s) e)
  call_permitted-IsGranted x code args (ok true) h s g e =
      inl (set_permissions-Overrides x code args g)
  call_permitted-IsGranted x code args (ok false) h s g e =
      elim (call_mapped-IsGranted x code x.is_admin args (map_kwargs_to_id args) h s e) [
        | inl t ↦ inl (inl t)
        | inr t ↦ inr t
      ]

  -- Where `call` runs the code, the caller is an admin, has the permission to execute or runs it on
  -- arguments of the caller's own with leave to do so, or else the code is approved,
  -- there is an output policy, and the caller is the author of the code or the server.
  pub call-IsGranted :
      (x : Context) (code : UserCode) (args : List (ℕ × Arg)) (h : History) (s : Shown)
      → (call a owner_of readable run x code args h).0 ≡ ok (executed s)
      → Overrides x code args ⊎ IsGranted x code
  unfolding call
  call-IsGranted x code args h s e =
      call_permitted-IsGranted x code args (set_permissions a owner_of readable run x code args) h s
        refl e

  author_permission :
      (x : Context) (code : UserCode)
      → x.credentials ≡ code.user_verify_key
      → has_code_permission x code ≡ true
  unfolding has_code_permission
  author_permission x code c = ground (arith, c)

  abbrev pub one_more : Outcome → List (ℕ × ℕ) → History → History
  one_more o kwargs h = record {
    outputs = h.outputs ++ (record { output_ids = o.ids; input_ids = kwargs }) ∷ [];
    count = h.count + 1;
  }

  execution_allowed :
      (x : Context) (code : UserCode) (n limit : ℕ)
      → code.is_approved ≡ true
      → x.credentials ≡ code.user_verify_key
      → code.output_policy ≡ some (execute_count limit)
      → is_allowed (is_execution_allowed x code n) ≡ true
  unfolding is_execution_allowed
  execution_allowed x code n limit v c g = rw v (rw (author_permission x code c) (rw g refl))

  execute-runs :
      (x : Context) (code : UserCode) (kwargs : List (ℕ × ℕ)) (inputs : List (ℕ × Input a))
      (o : Outcome) (limit : ℕ) (h : History)
      → x.is_admin ≡ false
      → code.has_custom_worker_pool ≡ false
      → code.output_policy ≡ some (execute_count limit)
      → checked_inputs a owner_of readable run x code.input_policy kwargs ≡ ok inputs
      → run inputs ≡ ok o
      → execute a owner_of readable run x code false kwargs h
        ≡ (ok (executed (shown x o)), one_more o kwargs h)
  unfolding execute run_inputs finish
  execute-runs x code kwargs inputs o limit h n w g i r =
      let ran : (checked_inputs a owner_of readable run x code.input_policy kwargs >>= run) ≡ ok o =
        ap (λ (m : Result CallError (List (ℕ × Input a))). m >>= run) i ∙ r in
      rw w (rw ran (rw g refl))

  call_mapped-executes :
      (x : Context) (code : UserCode) (args : List (ℕ × Arg)) (kwargs : List (ℕ × ℕ)) (h : History)
      → is_allowed (is_execution_allowed x code h.count) ≡ true
      → x.is_l0_lowside ≡ false
      → call_mapped a owner_of readable run x code false args (ok kwargs) h
        ≡ execute a owner_of readable run x code false kwargs h
  unfolding call_mapped
  call_mapped-executes x code args kwargs h t l = rw t (rw l refl)

  -- Without an override, an approved code of the caller's with an execution count for its output
  -- policy runs, and one more output is stored, whatever the limit is and however many outputs there
  -- are, where the inputs pass the input policy, the run succeeds, the code has no worker pool of its
  -- own, and the server is not the low side.
  pub call-ignores_limit :
      (x : Context) (code : UserCode) (args : List (ℕ × Arg)) (kwargs : List (ℕ × ℕ))
      (inputs : List (ℕ × Input a)) (o : Outcome) (limit : ℕ) (h : History)
      → set_permissions a owner_of readable run x code args ≡ ok false
      → x.is_admin ≡ false
      → x.is_l0_lowside ≡ false
      → code.has_custom_worker_pool ≡ false
      → code.is_approved ≡ true
      → x.credentials ≡ code.user_verify_key
      → code.output_policy ≡ some (execute_count limit)
      → map_kwargs_to_id args ≡ ok kwargs
      → checked_inputs a owner_of readable run x code.input_policy kwargs ≡ ok inputs
      → run inputs ≡ ok o
      → call a owner_of readable run x code args h
        ≡ (ok (executed (shown x o)), one_more o kwargs h)
  unfolding call call_permitted
  call-ignores_limit x code args kwargs inputs o limit h p n l w v c g m i r =
      ap (λ (z : Result CallError Bool). call_permitted a owner_of readable run x code args z h) p
      ∙ ap
          (λ (z : Bool).
            call_mapped a owner_of readable run x code z args (map_kwargs_to_id args) h)
          n
      ∙ ap
          (λ (z : Result CallError (List (ℕ × ℕ))).
            call_mapped a owner_of readable run x code false args z h)
          m
      ∙ call_mapped-executes x code args kwargs h (execution_allowed x code h.count limit v c g) l
      ∙ execute-runs x code kwargs inputs o limit h n w g i r
