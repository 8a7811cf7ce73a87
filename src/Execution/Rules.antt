-- ===== src/Execution/Rules.antt =====
-- What `MixedInputPolicy` of policy.py lets through.
use py_syft.Prelude.{ℕ, ◌≡◌, refl, ◌∙◌, true, false, not, ◌||◌, List, [], ◌∷◌, ◌==◌, ==_refl, arith}
use py_syft.Prelude.Result.{Result, ok, err, raise_if, ◌>>=◌, ◌>>◌}
use py_syft.Execution.Policies.{
  CallError, missing_kwarg, not_approved_kwarg, has_kw, put_kw, Actions, Rule, ByServer, has_keys,
  all_keys, Input, filter_rule, filter_rules, filter_servers, mixed_filter_kwargs, missing,
  any_missing, mixed_is_valid,
}
use py_syft.Execution.Matching.{then-ok}

has_kw-put :
    {A : Type 0} (k j : ℕ) (x : A) (l : List (ℕ × A))
    → has_kw k (put_kw j x l) ≡ (j == k) || has_kw k l
has_kw-put k j x [] = ground arith
has_kw-put k j x ((i, y) ∷ l) = ground (arith, has_kw-put k j x l)

module _ (a : Actions) where
  -- Every key stays.
  filter_rules-keeps :
      (caller : ℕ) (kwargs : List (ℕ × ℕ)) (rules : List (ℕ × Rule)) (acc res : List (ℕ × Input a))
      (k : ℕ)
      → filter_rules a caller kwargs rules acc ≡ ok res
      → has_kw k acc ≡ true
      → has_kw k res ≡ true
  unfolding filter_rules
  filter_rules-keeps caller kwargs [] acc res k h t = let same : acc ≡ res = cc in rw⁻¹ same t
  filter_rules-keeps caller kwargs ((kw, rule) ∷ rules) acc res k h t =
      let (i, _, g) = then-ok (filter_rule a caller kwargs kw rule) _ res h in
      filter_rules-keeps caller kwargs rules (put_kw kw i acc) res k g
        (has_kw-put k kw i acc ∙ ground (arith, t))

  filter_servers-keeps :
      (caller : ℕ) (kwargs : List (ℕ × ℕ)) (ls : ByServer Rule) (acc res : List (ℕ × Input a))
      (k : ℕ)
      → filter_servers a caller kwargs ls acc ≡ ok res
      → has_kw k acc ≡ true
      → has_kw k res ≡ true
  unfolding filter_servers
  filter_servers-keeps caller kwargs [] acc res k h t = let same : acc ≡ res = cc in rw⁻¹ same t
  filter_servers-keeps caller kwargs ((s, rules) ∷ ls) acc res k h t =
      let (mid, e, g) = then-ok (filter_rules a caller kwargs rules acc) _ res h in
      filter_servers-keeps caller kwargs ls mid res k g
        (filter_rules-keeps caller kwargs rules acc mid k e t)

  -- Every key of the rules is there.
  filter_rules-has_keys :
      (caller : ℕ) (kwargs : List (ℕ × ℕ)) (rules : List (ℕ × Rule))
      (acc mid res : List (ℕ × Input a))
      → filter_rules a caller kwargs rules acc ≡ ok mid
      → ((k : ℕ) → has_kw k mid ≡ true → has_kw k res ≡ true)
      → has_keys rules res ≡ true
  unfolding filter_rules
  filter_rules-has_keys caller kwargs [] acc mid res h f = refl
  filter_rules-has_keys caller kwargs ((kw, rule) ∷ rules) acc mid res h f =
      let (i, _, g) = then-ok (filter_rule a caller kwargs kw rule) _ mid h in
      rw
        (f kw (
          filter_rules-keeps caller kwargs rules (put_kw kw i acc) mid kw g
            (has_kw-put kw kw i acc ∙ rw (==_refl kw) refl)))
        (filter_rules-has_keys caller kwargs rules (put_kw kw i acc) mid res g f)

  filter_servers-all_keys :
      (caller : ℕ) (kwargs : List (ℕ × ℕ)) (ls : ByServer Rule) (acc res : List (ℕ × Input a))
      → filter_servers a caller kwargs ls acc ≡ ok res
      → all_keys ls res ≡ true
  unfolding filter_servers
  filter_servers-all_keys caller kwargs [] acc res h = refl
  filter_servers-all_keys caller kwargs ((s, rules) ∷ ls) acc res h =
      let (mid, e, g) = then-ok (filter_rules a caller kwargs rules acc) _ res h in
      rw
        (filter_rules-has_keys caller kwargs rules acc mid res e
          (λ k. filter_servers-keeps caller kwargs ls mid res k g))
        (filter_servers-all_keys caller kwargs ls mid res g)

  has_keys-missing :
      (rules : List (ℕ × Rule)) (kwargs : List (ℕ × ℕ)) (res : List (ℕ × Input a))
      → has_keys rules res ≡ true
      → missing a rules kwargs res ≡ false
  has_keys-missing [] kwargs res h = refl
  has_keys-missing ((k, r) ∷ rules) kwargs res h = ground (arith, has_keys-missing rules kwargs res)

  all_keys-any_missing :
      (ls : ByServer Rule) (kwargs : List (ℕ × ℕ)) (res : List (ℕ × Input a))
      → all_keys ls res ≡ true
      → any_missing a ls kwargs res ≡ false
  all_keys-any_missing [] kwargs res h = refl
  all_keys-any_missing ((s, rules) ∷ ls) kwargs res h =
      ground (arith, has_keys-missing rules kwargs res, all_keys-any_missing ls kwargs res)

  -- `is_valid` of `MixedInputPolicy` raises exactly where `filter_kwargs` raises, and the same: its
  -- own checks of the keys never fail.
  pub mixed_is_valid_lem :
      (caller : ℕ) (rules : ByServer Rule) (kwargs : List (ℕ × ℕ))
      → mixed_is_valid a caller rules kwargs ≡ (mixed_filter_kwargs a caller rules kwargs >> ok tt)
  unfolding mixed_is_valid mixed_filter_kwargs
  mixed_is_valid_lem caller rules kwargs = cases (filter_servers a caller kwargs rules []) refl
    where
      cases :
          (m : Result CallError (List (ℕ × Input a)))
          → filter_servers a caller kwargs rules [] ≡ m
          → (m >>= λ res.
              raise_if (any_missing a rules kwargs res) missing_kwarg
              >> raise_if (not (all_keys rules res)) not_approved_kwarg)
            ≡ (m >> ok tt)
      cases (err x) e = refl
      cases (ok res) e =
          let every = filter_servers-all_keys caller kwargs rules [] res e in
          rw (all_keys-any_missing rules kwargs res every) (rw every refl)
