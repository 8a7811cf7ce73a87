-- ===== src/Request/Decisions.antt =====
-- The status of code, and of a request for code of level 0, by the decisions on the code
-- (user_code.py, request.py).
use py_syft.Prelude.{
  ℕ, ◌≡◌, refl, ◌∙◌, Bool, true, false, some, List, [], ◌∷◌, arith, ◌==◌, if◌then◌else◌,
  Option-cases, inl, inr,
}
use py_syft.Request.{
  ChangeStatus, RequestCode, l0_status, get_status, rejected, set_key, find_key, UserCodeStatus,
  code_denied, StatusDict, denied, compute_status, compute_status_l0, compute_status_l2, mutate,
  from_usercode_status,
}

find_key-set_key :
    (i j : ℕ) (s s' : UserCodeStatus) (d : StatusDict)
    → find_key i d ≡ some s'
    → find_key j (set_key i s d) ≡ (if i == j then some s else find_key j d)
find_key-set_key i j s s' [] h = ground arith
find_key-set_key i j s s' ((k, x) ∷ d) h = ground (arith, find_key-set_key i j s s' d)

denied-find : (j : ℕ) (d : StatusDict) → find_key j d ≡ some code_denied → denied d ≡ true
denied-find j [] h = ground arith
denied-find j ((k, x) ∷ d) h = ground (arith, denied-find j d)

mutate-find :
    (s : UserCodeStatus) (i j : ℕ) (d d' : StatusDict)
    → mutate s i d ≡ some d'
    → find_key j d' ≡ (if i == j then some s else find_key j d)
unfolding mutate
mutate-find s i j d d' h = elim (Option-cases (find_key i d)) [
  | inl e ↦ ground arith
  | inr (s', e) ↦ ground (arith, find_key-set_key i j s s' d e)
]

-- Code of level 0 with its status.
abbrev pub l0_code : Bool → Bool → StatusDict → RequestCode
l0_code lowside readable d = record {
  is_l0_deployment = true;
  status = some (record {
    was_requested_on_lowside = lowside;
    has_readable_outputs = readable;
    status_dict = d;
  });
}

denied-computed :
    (lowside readable : Bool) (d : StatusDict)
    → denied d ≡ true
    → compute_status lowside readable d ≡ code_denied
unfolding compute_status compute_status_l0 compute_status_l2
denied-computed true readable d h = rw h refl
denied-computed false readable d h = rw h refl

-- After `mutate`, where any server's decision is a denial, the one just set or one of another server
-- before, the status of the code is DENIED at both levels, with readable outputs or without, and a
-- request for code of level 0 that has this status is rejected, whatever its changes and its history.
pub mutate_rejects :
    (s : UserCodeStatus) (i j : ℕ) (d d' : StatusDict) (lowside readable : Bool)
    → mutate s i d ≡ some d'
    → (if i == j then some s else find_key j d) ≡ some code_denied
    → (compute_status lowside readable d' ≡ code_denied)
      × ((changes : List ℕ) (h : List ChangeStatus)
          → get_status (some (l0_code lowside readable d')) changes h ≡ rejected)
unfolding get_status l0_status from_usercode_status
mutate_rejects s i j d d' lowside readable m h =
    let some_denied = denied-find j d' (mutate-find s i j d d' m ∙ h) in
    let computed = denied-computed lowside readable d' some_denied in
    (computed, λ changes history. rw computed (rw some_denied refl))
