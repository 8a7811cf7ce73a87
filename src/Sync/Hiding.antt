-- ===== src/Sync/Hiding.antt =====
-- `ignore_high_side_code` of service/sync/diff_state.py.
use py_syft.Prelude.{
  ℕ, ◌≡◌, ◌⊎◌, inl, inr, refl, sym, ap, ◌∙◌, true, false, ◌||◌, some, List, [], ◌∷◌, elem, ◌==◌,
  Bool-cases, arith,
}
use py_syft.Prelude.Result.{ok, Result-cases}
use py_syft.Sync.Objects.{ignore, is_ignore}
use py_syft.Sync.Batch.{Shared, Batch}
use py_syft.Sync.Ignore.{
  set_decisions, roots, get_other_ignore_batches, is_high_code, ignore_codes, ignore_high_side_code,
}
use py_syft.Sync.Decisions.{decision_of, decision_of-set_decisions, roots-set_decisions}

is_ignore-set :
    (r : ℕ) (rs : List ℕ) (bs : List Batch)
    → is_ignore (decision_of r bs) ≡ true
    → is_ignore (decision_of r (set_decisions rs (some ignore) bs)) ≡ true
is_ignore-set r rs bs h = ground (arith, decision_of-set_decisions r rs (some ignore) bs)

module _ (sh : Shared) where
  -- One round of the loop: which batches it marks.
  one_round :
      (x : ℕ) (rs : List ℕ) (bs after : List Batch)
      → ignore_codes sh (x ∷ rs) bs ≡ ok after
      → ((is_high_code sh x ≡ false) × (ignore_codes sh rs bs ≡ ok after))
        ⊎ ((others : List Batch) × (ignore_codes sh rs (
                set_decisions
                  (roots others)
                  (some ignore)
                  (set_decisions (x ∷ []) (some ignore) bs))
              ≡ ok after))
  unfolding ignore_codes
  one_round x rs bs after e = elim (Bool-cases (is_high_code sh x)) [
    | inr n ↦ inl (n, sym (rw n refl) ∙ e)
    | inl y ↦
        let marked = set_decisions (x ∷ []) (some ignore) bs in
        elim (Result-cases
          (get_other_ignore_batches sh (record { root_id = x; decision = some ignore }) marked)) [
            | inr (z, f) ↦ absurd (ground arith)
            | inl (others, f) ↦ inr (others, sym (rw y (rw f refl)) ∙ e)
          ]
  ]

  ignore_codes-keeps :
      (r : ℕ) (rs : List ℕ) (bs after : List Batch)
      → ignore_codes sh rs bs ≡ ok after
      → is_ignore (decision_of r bs) ≡ true
      → is_ignore (decision_of r after) ≡ true
  unfolding ignore_codes
  ignore_codes-keeps r [] bs after e i =
      let same : bs ≡ after = cc in
      ap (λ (l : List Batch). is_ignore (decision_of r l)) (sym same) ∙ i
  ignore_codes-keeps r (x ∷ rs) bs after e i = elim (one_round x rs bs after e) [
    | inl (n, f) ↦ ignore_codes-keeps r rs bs after f i
    | inr (others, f) ↦
        ignore_codes-keeps r rs _ after f
          (is_ignore-set r (roots others) _ (is_ignore-set r (x ∷ []) bs i))
  ]

  ignore_codes-marks :
      (r : ℕ) (rs : List ℕ) (bs after : List Batch)
      → ignore_codes sh rs bs ≡ ok after
      → elem r rs ≡ true
      → elem r (roots bs) ≡ true
      → is_high_code sh r ≡ true
      → is_ignore (decision_of r after) ≡ true
  ignore_codes-marks r [] bs after e m l h = absurd (ground arith)
  ignore_codes-marks r (x ∷ rs) bs after e m l h = elim (Bool-cases (x == r)) [
    | inl q ↦
        let same : x ≡ r = ground arith in
        elim (one_round x rs bs after e) [
          | inl (n, f) ↦ absurd (ground (arith, ap (is_high_code sh) same))
          | inr (others, f) ↦ ignore_codes-keeps r rs _ after f (
              is_ignore-set r (roots others) _
                (ground (arith, decision_of-set_decisions r (x ∷ []) (some ignore) bs)))
        ]
    | inr q ↦ elim (one_round x rs bs after e) [
      | inl (n, f) ↦ ignore_codes-marks r rs bs after f (ground arith) l h
      | inr (others, f) ↦
          ignore_codes-marks r rs _ after f (ground arith)
            (ap (elem r) (
                roots-set_decisions (roots others) (some ignore) _
                ∙ roots-set_decisions (x ∷ []) (some ignore) bs)
              ∙ l)
            h
    ]
  ]

  -- Once `ignore_high_side_code` is done, each batch whose root is user code that comes from the high
  -- side is ignored, and no batch that was ignored is not.
  pub ignore_high_side_code_lem :
      (bs after : List Batch) (r : ℕ)
      → ignore_high_side_code sh bs ≡ ok after
      → elem r (roots bs) ≡ true
      → (is_high_code sh r || is_ignore (decision_of r bs)) ≡ true
      → is_ignore (decision_of r after) ≡ true
  unfolding ignore_high_side_code
  ignore_high_side_code_lem bs after r e m h = elim (Bool-cases (is_high_code sh r)) [
    | inl y ↦ ignore_codes-marks r (roots bs) bs after e m m y
    | inr n ↦ ignore_codes-keeps r (roots bs) bs after e (ground arith)
  ]
