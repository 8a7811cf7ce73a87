-- ===== src/Request/Examples.antt =====
-- The theorems on requests at concrete requests.
use py_syft.Prelude.{
  elem, ℕ, List, some, if◌then◌else◌, ◌≡◌, ◌≤◌, refl, Bool, true, false, not, ◌+◌, [], ◌∷◌, ◌==◌,
  arith, count, count-cons, count-nil,
}
use py_syft.Request.{
  UserCodeStatus, RequestCode, rejected, approved, get_status, apply, undo, code_pending,
  code_denied, code_approved, mutate, ChangeStatus, compute_status, history_status, l0_status,
  current_change_state, undo_from,
}
use py_syft.Request.History.{keys}
use py_syft.Request.Changes.{apply_lem, undo_rejects}
use py_syft.Request.Decisions.{l0_code, mutate_rejects}

-- The world is the number of changes made; change 9 fails.
abbrev one_change : ℕ → ℕ → Bool × ℕ
one_change c w = (not (c == 9), w + 1)

distinct : (j : ℕ) → count j (4 ∷ 5 ∷ []) ≤ 1
distinct j = ground (arith, count-cons j 4 (5 ∷ []), count-cons j 5 [], count-nil j)

-- Code of level 2 with the decisions of two servers.
abbrev l2_code : UserCodeStatus → UserCodeStatus → RequestCode
l2_code s t = record (l0_code false true ((1, s) ∷ (2, t) ∷ [])) { is_l0_deployment = false }

own_history :
    (j : ℕ) → elem j (keys ((4, true) ∷ (5, false) ∷ [])) ≡ true → elem j (4 ∷ 5 ∷ []) ≡ true
own_history j h = h

-- The second change raised before; now both succeed.
apply_lem_example :
    get_status
      (some (l2_code code_approved code_pending))
      (4 ∷ 5 ∷ [])
      (apply one_change (4 ∷ 5 ∷ []) ((4, true) ∷ (5, false) ∷ []) 0).1
    ≡ (if (apply one_change (4 ∷ 5 ∷ []) ((4, true) ∷ (5, false) ∷ []) 0).0
        then approved
        else rejected)
apply_lem_example =
    apply_lem one_change (some (l2_code code_approved code_pending)) 4 (5 ∷ [])
      ((4, true) ∷ (5, false) ∷ []) 0 refl distinct own_history

-- The first change is applied, the second raises.
raising_rejected :
    get_status
      (some (l2_code code_approved code_pending))
      (4 ∷ 9 ∷ [])
      (apply one_change (4 ∷ 9 ∷ []) [] 0).1
    ≡ rejected
unfolding apply get_status l0_status history_status current_change_state
raising_rejected = refl

undo_rejects_at_work :
    get_status
      (some (l2_code code_approved code_pending))
      (4 ∷ 5 ∷ [])
      (undo one_change (4 ∷ 5 ∷ []) ((4, true) ∷ (5, true) ∷ []) 0).1
    ≡ rejected
unfolding undo undo_from
undo_rejects_at_work =
    undo_rejects one_change (some (l2_code code_approved code_pending)) (4 ∷ 5 ∷ []) 4 (5 ∷ [])
      ((4, true) ∷ (5, true) ∷ []) 0 refl refl

-- Server 1 approves; server 2 has denied.
mutate_rejects_example :
    (compute_status false true ((1, code_approved) ∷ (2, code_denied) ∷ []) ≡ code_denied)
    × ((changes : List ℕ) (h : List ChangeStatus)
        → get_status
            (some (l0_code false true ((1, code_approved) ∷ (2, code_denied) ∷ [])))
            changes
            h
          ≡ rejected)
unfolding mutate
mutate_rejects_example =
    mutate_rejects code_approved 1 2 ((1, code_pending) ∷ (2, code_denied) ∷ [])
      ((1, code_approved) ∷ (2, code_denied) ∷ []) false true refl refl

-- A request for code of level 2 that was applied is approved although server 2 has denied.
applied_though_denied :
    get_status
      (some (record (l0_code false true ((1, code_approved) ∷ (2, code_denied) ∷ [])) {
        is_l0_deployment = false;
      }))
      (4 ∷ [])
      ((4, true) ∷ [])
    ≡ approved
unfolding get_status l0_status history_status current_change_state
applied_though_denied = refl
