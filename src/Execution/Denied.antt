-- ===== src/Execution/Denied.antt =====
-- Calls of code on which a server has decided (user_code.py and user_code_service.py).
use py_syft.Prelude.{
  ℕ, ◌≡◌, sym, ◌∙◌, Bool, true, Option, some, List, ◌==◌, if◌then◌else◌, inl, inr, arith,
}
use py_syft.Prelude.Result.{Result, ok}
use py_syft.Request.{
  find_key, UserCodeStatus, code_denied, is_approved, StatusDict, compute_status, mutate,
}
use py_syft.Request.Decisions.{mutate_rejects}
use py_syft.Execution.Policies.{CallError, Actions, Input}
use py_syft.Execution.Code.{Arg, Context, UserCode, History, Outcome, Shown, executed}
use py_syft.Execution.Calls.{call}
use py_syft.Execution.Running.{Overrides, call-IsGranted}

not_approved_denied : (s : UserCodeStatus) → s ≡ code_denied → is_approved s ≡ true → ⊥
not_approved_denied s h t = let bad = rw h at t in ground arith

module _ (a : Actions) (owner_of : ℕ → ℕ → Option ℕ) (readable : ℕ → ℕ → Bool)
    (run : List (ℕ × Input a) → Result CallError Outcome) where
  -- After `mutate`, where any server's decision is a denial, the one just set or one of another
  -- server before, `call` runs the code only for an admin, in a context with the permission to
  -- execute, or on arguments of the caller's own with leave to do so, at both levels and whether or
  -- not outputs can be read.
  pub call-denied :
      (x : Context) (code : UserCode) (args : List (ℕ × Arg)) (h : History) (s : Shown)
      (decision : UserCodeStatus) (i j : ℕ) (d d' : StatusDict) (lowside has_outputs : Bool)
      → mutate decision i d ≡ some d'
      → (if i == j then some decision else find_key j d) ≡ some code_denied
      → code.is_approved ≡ is_approved (compute_status lowside has_outputs d')
      → (call a owner_of readable run x code args h).0 ≡ ok (executed s)
      → Overrides a owner_of readable run x code args
  call-denied x code args h s decision i j d d' lowside has_outputs m n p e =
      elim (call-IsGranted a owner_of readable run x code args h s e) [
        | inl o ↦ o
        | inr g ↦ absurd (
            not_approved_denied (compute_status lowside has_outputs d')
              (mutate_rejects decision i j d d' lowside has_outputs m n).0 (sym p ∙ g.0))
      ]
