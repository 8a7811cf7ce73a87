-- ===== src/Request/Changes.antt =====
-- The status of a request after `apply` and `undo` of request.py.
use py_syft.Prelude.{
  ℕ, ◌≤◌, ◌≡◌, refl, sym, ap, ◌∙◌, Bool, true, false, List, [], ◌∷◌, ◌++◌, length, arith, ==_refl,
  if◌then◌else◌, if_cases, Bool-cases, inl, inr, Option, none, some, elem, count,
}
use py_syft.Request.History.{keys, tag, state_from-applied}
use py_syft.Request.{
  rejected, approved, ChangeStatus, set_key, all_applied, state_from, current_change_state,
  history_status, RequestCode, get_is_l0_deployment, l0_status, get_status, apply, undo, undo_from,
}

state_from-append :
    (d : List (ℕ × Bool)) (h : List ChangeStatus) (c : ℕ) (b : Bool)
    → state_from d (h ++ (c, b) ∷ []) ≡ set_key c b (state_from d h)
state_from-append d [] c b = refl
state_from-append d ((e, x) ∷ h) c b = state_from-append (set_key e x d) h c b

all_applied-set_key : (c : ℕ) (d : List (ℕ × Bool)) → all_applied (set_key c false d) ≡ false
all_applied-set_key c [] = refl
all_applied-set_key c ((e, true) ∷ d) = ground (arith, all_applied-set_key c d)
all_applied-set_key c ((e, false) ∷ d) = ground arith

rejected-append :
    (changes : List ℕ) (h : List ChangeStatus) (c : ℕ)
    → history_status changes (h ++ (c, false) ∷ []) ≡ rejected
unfolding history_status current_change_state
rejected-append changes [] c = refl
rejected-append changes ((e, x) ∷ h) c =
    rw (state_from-append (set_key e x []) h c false)
      (rw (all_applied-set_key c (state_from (set_key e x []) h)) refl)

append_nil : {A : Type 0} (l : List A) → l ++ [] ≡ l
append_nil [] = refl
append_nil (x ∷ l) = ap (λ m. x ∷ m) (append_nil l)

append_assoc : {A : Type 0} (l m n : List A) → (l ++ m) ++ n ≡ l ++ (m ++ n)
append_assoc [] m n = refl
append_assoc (x ∷ l) m n = ap (λ k. x ∷ k) (append_assoc l m n)

approved-history :
    (changes : List ℕ) (h l : List ChangeStatus) (x : ChangeStatus)
    → all_applied (state_from [] (h ++ x ∷ l)) ≡ true
    → length (state_from [] (h ++ x ∷ l)) ≡ length changes
    → history_status changes (h ++ x ∷ l) ≡ approved
unfolding history_status current_change_state
approved-history changes [] l x a n = rw a (rw n (rw (==_refl (length changes)) refl))
approved-history changes (y ∷ h) l x a n = rw a (rw n (rw (==_refl (length changes)) refl))

-- Without code of level 0, the status goes by the history.
get_status-history :
    (code : Option RequestCode) (changes : List ℕ) (h : List ChangeStatus)
    → get_is_l0_deployment code ≡ false
    → get_status code changes h ≡ history_status changes h
unfolding get_status l0_status
get_status-history none changes h l = refl
get_status-history (some code) changes h l = rw l refl

module _ {World : Type 0} (apply_change : ℕ → World → Bool × World) where
  -- Where a change raises, the history that `apply` leaves is that of a rejected request.
  apply_raises :
      (changes cs : List ℕ) (h : List ChangeStatus) (w : World)
      → (apply apply_change cs h w).0 ≡ false
      → history_status changes (apply apply_change cs h w).1 ≡ rejected
  unfolding apply
  apply_raises changes [] h w r = ground arith
  apply_raises changes (c ∷ cs) h w r =
      let w' = (apply_change c w).1 in
      if_cases
        (λ (m : Bool × List ChangeStatus × World).
          m.0 ≡ false → history_status changes m.1 ≡ rejected)
        (apply_change c w).0 (λ _. apply_raises changes cs (h ++ (c, true) ∷ []) w')
        (λ _ _. rejected-append changes h c) r

  apply-history :
      (cs : List ℕ) (h : List ChangeStatus) (w : World)
      → (apply apply_change cs h w).0 ≡ true
      → (apply apply_change cs h w).1 ≡ h ++ tag cs
  unfolding apply
  apply-history [] h w r = sym (append_nil h)
  apply-history (c ∷ cs) h w r =
      let w' = (apply_change c w).1 in
      if_cases (λ (m : Bool × List ChangeStatus × World). m.0 ≡ true → m.1 ≡ h ++ tag (c ∷ cs))
        (apply_change c w).0
        (λ _ g.
          apply-history cs (h ++ (c, true) ∷ []) w' g ∙ append_assoc h ((c, true) ∷ []) (tag cs))
        (λ _ g. ground arith) r

  apply_approves :
      (c : ℕ) (cs : List ℕ) (h : List ChangeStatus) (w : World)
      → ((j : ℕ) → count j (c ∷ cs) ≤ 1)
      → ((j : ℕ) → elem j (keys h) ≡ true → elem j (c ∷ cs) ≡ true)
      → (apply apply_change (c ∷ cs) h w).0 ≡ true
      → history_status (c ∷ cs) (apply apply_change (c ∷ cs) h w).1 ≡ approved
  apply_approves c cs h w u s r =
      let (all, same_length) = state_from-applied h (c ∷ cs) u s in
      rw (apply-history (c ∷ cs) h w r)
        (approved-history (c ∷ cs) h (tag cs) (c, true) all same_length)

  -- Where a request has no code of level 0, has a change, no two of its changes have the same id, and
  -- its history is of its own changes, whatever was applied and undone before, `apply` leaves it
  -- approved where no change raises, and rejected where one does, even if others were applied.
  pub apply_lem :
      (code : Option RequestCode) (c : ℕ) (cs : List ℕ) (h : List ChangeStatus) (w : World)
      → get_is_l0_deployment code ≡ false
      → ((j : ℕ) → count j (c ∷ cs) ≤ 1)
      → ((j : ℕ) → elem j (keys h) ≡ true → elem j (c ∷ cs) ≡ true)
      → get_status code (c ∷ cs) (apply apply_change (c ∷ cs) h w).1
        ≡ (if (apply apply_change (c ∷ cs) h w).0 then approved else rejected)
  apply_lem code c cs h w l u s =
      get_status-history code (c ∷ cs) (apply apply_change (c ∷ cs) h w).1 l
      ∙ elim (Bool-cases (apply apply_change (c ∷ cs) h w).0) [
        | inl t ↦ apply_approves c cs h w u s t ∙ rw t refl
        | inr f ↦ apply_raises (c ∷ cs) (c ∷ cs) h w f ∙ rw f refl
      ]

module _ {World : Type 0} (undo_change : ℕ → World → Bool × World) where
  undo_from-rejected :
      (d : List (ℕ × Bool)) (changes cs : List ℕ) (h : List ChangeStatus) (c : ℕ) (w : World)
      → (undo_from undo_change d cs (h ++ (c, false) ∷ []) w).0 ≡ true
      → history_status changes (undo_from undo_change d cs (h ++ (c, false) ∷ []) w).1 ≡ rejected
  unfolding undo_from
  undo_from-rejected d changes [] h c w r = rejected-append changes h c
  undo_from-rejected d changes (e ∷ cs) h c w r =
      let (fine, w') = undo_change e w in
      if_cases
        (λ (m : Bool × List ChangeStatus × World).
          m.0 ≡ true → history_status changes m.1 ≡ rejected)
        fine (λ _. undo_from-rejected d changes cs (h ++ (c, false) ∷ []) e w')
        (λ _ g. ground arith) r

  undo-history :
      (changes : List ℕ) (c : ℕ) (cs : List ℕ) (h : List ChangeStatus) (w : World)
      → (undo undo_change (c ∷ cs) h w).0 ≡ true
      → history_status changes (undo undo_change (c ∷ cs) h w).1 ≡ rejected
  unfolding undo undo_from
  undo-history changes c cs h w r =
      let (fine, w') = undo_change c w in
      if_cases
        (λ (m : Bool × List ChangeStatus × World).
          m.0 ≡ true → history_status changes m.1 ≡ rejected)
        fine (λ _. undo_from-rejected (current_change_state h) changes cs h c w')
        (λ _ g. ground arith) r

  -- Where a request has no code of level 0 and has a change, and none fails to be undone, `undo`
  -- leaves the request rejected, whatever its history.
  pub undo_rejects :
      (code : Option RequestCode) (changes : List ℕ) (c : ℕ) (cs : List ℕ) (h : List ChangeStatus)
      (w : World)
      → get_is_l0_deployment code ≡ false
      → (undo undo_change (c ∷ cs) h w).0 ≡ true
      → get_status code changes (undo undo_change (c ∷ cs) h w).1 ≡ rejected
  undo_rejects code changes c cs h w l r =
      get_status-history code changes (undo undo_change (c ∷ cs) h w).1 l
      ∙ undo-history changes c cs h w r
