-- ===== src/Execution/Giving.antt =====
-- What the rules of `MixedInputPolicy` in policy.py let in.
use py_syft.Prelude.{
  ℕ, ◌≡◌, refl, sym, ◌∙◌, Bool, true, false, ◌&&◌, Option, none, some, List, [], ◌∷◌, ◌⊎◌,
  if◌then◌else◌, ◌==◌, ==_iff, inl, inr, Bool-cases, arith,
}
use py_syft.Prelude.Result.{ok}
use py_syft.Execution.Policies.{
  failed_filter, find_kw, put_kw, Actions, Rule, matches, constant, user_owned, object, value,
  ByServer, Input, get_passed, is_met, checked_input, filter_rule, filter_rules, filter_servers,
  mixed_filter_kwargs,
}
use py_syft.Execution.Matching.{err-ok, then-ok}

find_kw-put :
    {A : Type 0} (k j : ℕ) (x : A) (l : List (ℕ × A))
    → find_kw k (put_kw j x l) ≡ (if j == k then some x else find_kw k l)
find_kw-put k j x [] = refl
find_kw-put k j x ((i, y) ∷ l) = ground (arith, find_kw-put k j x l, ==_iff i j, ==_iff i k)

module _ (a : Actions) where
  -- What a rule lets in for an argument. `Matches` lets in the object found under the id that was
  -- passed where it is the one of the rule's id, `UserOwned` where it has the rule's type and is the
  -- caller's own, `Constant` its value.
  abbrev pub Gives : ℕ → List (ℕ × ℕ) → ℕ → Rule → Input a → Type 0
  Gives caller kwargs kw (constant v) x = x ≡ value v
  Gives caller kwargs kw (matches i) x =
      (j : ℕ) × (o : a.Obj) × (find_kw kw kwargs ≡ some j)
      × (a.get j ≡ some o)
      × (a.id o ≡ i)
      × (x ≡ object o)
  Gives caller kwargs kw (user_owned t) x =
      (j : ℕ) × (o : a.Obj) × (find_kw kw kwargs ≡ some j)
      × (a.get j ≡ some o)
      × (a.type o ≡ t)
      × (a.owned caller (a.id o) ≡ true)
      × (x ≡ object o)

  abbrev pub AllMeet : ℕ → List (ℕ × ℕ) → List (ℕ × Rule) → Type 0
  AllMeet caller kwargs [] = Unit
  AllMeet caller kwargs ((kw, rule) ∷ rules) =
      ((x : Input a) × Gives caller kwargs kw rule x) × AllMeet caller kwargs rules

  abbrev pub ServersMeet : ℕ → List (ℕ × ℕ) → ByServer Rule → Type 0
  ServersMeet caller kwargs [] = Unit
  ServersMeet caller kwargs ((s, rules) ∷ ls) =
      AllMeet caller kwargs rules × ServersMeet caller kwargs ls

  -- Some rule for the argument gives the input.
  abbrev pub AnyGives : ℕ → List (ℕ × ℕ) → List (ℕ × Rule) → ℕ → Input a → Type 0
  AnyGives caller kwargs [] kw x = ⊥
  AnyGives caller kwargs ((k, rule) ∷ rules) kw x =
      ((k ≡ kw) × Gives caller kwargs kw rule x) ⊎ AnyGives caller kwargs rules kw x

  abbrev pub ServersGive : ℕ → List (ℕ × ℕ) → ByServer Rule → ℕ → Input a → Type 0
  ServersGive caller kwargs [] kw x = ⊥
  ServersGive caller kwargs ((s, rules) ∷ ls) kw x =
      AnyGives caller kwargs rules kw x ⊎ ServersGive caller kwargs ls kw x

  retrieved-met :
      (caller : ℕ) (rule : Rule) (i : ℕ) (q : Option a.Obj) (x : Input a)
      → a.get i ≡ q
      → checked_input a caller rule q ≡ ok x
      → (o : a.Obj) × (a.get i ≡ some o) × (is_met a caller rule o ≡ true) × (x ≡ object o)
  unfolding checked_input
  retrieved-met caller rule i none x e h = absurd (err-ok failed_filter x h)
  retrieved-met caller rule i (some o) x e h = elim (Bool-cases (is_met a caller rule o)) [
    | inl t ↦ let same = rw t at h in (o, e, t, cc)
    | inr t ↦ absurd (err-ok failed_filter x (rw t at h))
  ]

  checked_input-found :
      (caller : ℕ) (rule : Rule) (p : Option ℕ) (x : Input a)
      → checked_input a caller rule (get_passed a p) ≡ ok x
      → (i : ℕ) × (o : a.Obj) × (p ≡ some i)
        × (a.get i ≡ some o)
        × (is_met a caller rule o ≡ true)
        × (x ≡ object o)
  unfolding checked_input
  checked_input-found caller rule none x h = absurd (err-ok failed_filter x h)
  checked_input-found caller rule (some i) x h =
      let (o, g, m, s) = retrieved-met caller rule i (a.get i) x refl h in (i, o, refl, g, m, s)

  both : (t u : Bool) → (t && u) ≡ true → (t ≡ true) × (u ≡ true)
  both true true h = (refl, refl)
  both true false h = ground arith
  both false u h = ground arith

  filter_rule-Gives :
      (caller : ℕ) (kwargs : List (ℕ × ℕ)) (kw : ℕ) (rule : Rule) (x : Input a)
      → filter_rule a caller kwargs kw rule ≡ ok x
      → Gives caller kwargs kw rule x
  unfolding filter_rule is_met
  filter_rule-Gives caller kwargs kw (constant v) x h = cc
  filter_rule-Gives caller kwargs kw (matches i) x h =
      let (j, o, p, g, m, s) = checked_input-found caller (matches i) (find_kw kw kwargs) x h in
      (j, o, p, g, (==_iff (a.id o) i).0 m, s)
  filter_rule-Gives caller kwargs kw (user_owned t) x h =
      let (j, o, p, g, m, s) = checked_input-found caller (user_owned t) (find_kw kw kwargs) x h in
      let (same_type, own) = both (a.type o == t) (a.owned caller (a.id o)) m in
      (j, o, p, g, (==_iff (a.type o) t).0 same_type, own, s)

  filter_rules-AllMeet :
      (caller : ℕ) (kwargs : List (ℕ × ℕ)) (rules : List (ℕ × Rule)) (acc res : List (ℕ × Input a))
      → filter_rules a caller kwargs rules acc ≡ ok res
      → AllMeet caller kwargs rules
  unfolding filter_rules
  filter_rules-AllMeet caller kwargs [] acc res h = tt
  filter_rules-AllMeet caller kwargs ((kw, rule) ∷ rules) acc res h =
      let (i, e, g) = then-ok (filter_rule a caller kwargs kw rule) _ res h in
      (
        (i, filter_rule-Gives caller kwargs kw rule i e),
        filter_rules-AllMeet caller kwargs rules (put_kw kw i acc) res g,
      )

  filter_servers-ServersMeet :
      (caller : ℕ) (kwargs : List (ℕ × ℕ)) (ls : ByServer Rule) (acc res : List (ℕ × Input a))
      → filter_servers a caller kwargs ls acc ≡ ok res
      → ServersMeet caller kwargs ls
  unfolding filter_servers
  filter_servers-ServersMeet caller kwargs [] acc res h = tt
  filter_servers-ServersMeet caller kwargs ((s, rules) ∷ ls) acc res h =
      let (mid, e, g) = then-ok (filter_rules a caller kwargs rules acc) _ res h in
      (
        filter_rules-AllMeet caller kwargs rules acc mid e,
        filter_servers-ServersMeet caller kwargs ls mid res g,
      )

  -- A predicate of every entry of a dict.
  abbrev Entries : (ℕ → Input a → Type 0) → List (ℕ × Input a) → Type 0
  Entries P l = (kw : ℕ) (x : Input a) → find_kw kw l ≡ some x → P kw x

  Entries-put :
      (P : ℕ → Input a → Type 0) (k : ℕ) (i : Input a) (l : List (ℕ × Input a))
      → P k i
      → Entries P l
      → Entries P (put_kw k i l)
  Entries-put P k i l p f kw x h = elim (Bool-cases (k == kw)) [
    | inl t ↦
        let same_key = (==_iff k kw).0 t in
        let found : some i ≡ some x = sym (find_kw-put kw k i l ∙ rw t refl) ∙ h in
        let same : i ≡ x = cc in rw⁻¹ same (rw⁻¹ same_key p)
    | inr t ↦ f kw x (sym (find_kw-put kw k i l ∙ rw t refl) ∙ h)
  ]

  filter_rules-Entries :
      (P : ℕ → Input a → Type 0) (caller : ℕ) (kwargs : List (ℕ × ℕ)) (rules : List (ℕ × Rule))
      (acc res : List (ℕ × Input a))
      → ((kw : ℕ) (x : Input a) → AnyGives caller kwargs rules kw x → P kw x)
      → Entries P acc
      → filter_rules a caller kwargs rules acc ≡ ok res
      → Entries P res
  unfolding filter_rules
  filter_rules-Entries P caller kwargs [] acc res g f h = let same : acc ≡ res = cc in rw⁻¹ same f
  filter_rules-Entries P caller kwargs ((k, rule) ∷ rules) acc res g f h =
      let (i, e, rest) = then-ok (filter_rule a caller kwargs k rule) _ res h in
      filter_rules-Entries P caller kwargs rules (put_kw k i acc) res (λ kw x y. g kw x (inr y))
        (Entries-put P k i acc (g k i (inl (refl, filter_rule-Gives caller kwargs k rule i e))) f)
        rest

  filter_servers-Entries :
      (P : ℕ → Input a → Type 0) (caller : ℕ) (kwargs : List (ℕ × ℕ)) (ls : ByServer Rule)
      (acc res : List (ℕ × Input a))
      → ((kw : ℕ) (x : Input a) → ServersGive caller kwargs ls kw x → P kw x)
      → Entries P acc
      → filter_servers a caller kwargs ls acc ≡ ok res
      → Entries P res
  unfolding filter_servers
  filter_servers-Entries P caller kwargs [] acc res g f h = let same : acc ≡ res = cc in rw⁻¹ same f
  filter_servers-Entries P caller kwargs ((s, rules) ∷ ls) acc res g f h =
      let (mid, e, rest) = then-ok (filter_rules a caller kwargs rules acc) _ res h in
      filter_servers-Entries P caller kwargs ls mid res (λ kw x y. g kw x (inr y))
        (filter_rules-Entries P caller kwargs rules acc mid (λ kw x y. g kw x (inl y)) f e) rest

  -- Where `filter_kwargs` of `MixedInputPolicy` does not raise, every rule of every server is met, and
  -- every input in the result is one that some rule for its argument lets in: for `Matches` the
  -- object of the rule's id, found under the id that was passed, itself or behind a link; for
  -- `UserOwned` an object of the rule's type of which the caller is an owner, found in the same way;
  -- for `Constant` its value.
  pub mixed_filter_kwargs-ServersMeet :
      (caller : ℕ) (rules : ByServer Rule) (kwargs : List (ℕ × ℕ)) (res : List (ℕ × Input a))
      → mixed_filter_kwargs a caller rules kwargs ≡ ok res
      → ServersMeet caller kwargs rules
        × ((kw : ℕ) (x : Input a) → find_kw kw res ≡ some x → ServersGive caller kwargs rules kw x)
  unfolding mixed_filter_kwargs
  mixed_filter_kwargs-ServersMeet caller rules kwargs res h = (
    filter_servers-ServersMeet caller kwargs rules [] res h,
    filter_servers-Entries (ServersGive caller kwargs rules) caller kwargs rules [] res
        (λ kw x y. y) (λ kw x e. ground arith) h,
  )
