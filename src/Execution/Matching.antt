-- ===== src/Execution/Matching.antt =====
-- What the input policies of policy.py let through.
use py_syft.Prelude.{
  ℕ, ◌≡◌, refl, sym, ap, ◌∙◌, Bool, true, false, not, ◌||◌, Option, none, some, List, [], ◌∷◌, ◌==◌,
  ==_iff, inl, inr, Bool-cases, arith,
}
use py_syft.Prelude.Result.{Result, ok, err, raise_if, or_raise, ◌>>=◌}
use py_syft.Execution.Policies.{
  CallError, not_allowed, find_kw, has_kw, Actions, Server, ByServer, has_keys, all_keys, Input,
  object, retrieve_all, retrieve_from_db, inputs_of, keep_allowed, allowed_loop, allowed_ids_only,
  exact_filter_kwargs, exact_is_valid,
}

pub err-ok : {A : Type 0} (e : CallError) (b : A) → err e ≡ ok b → ⊥
err-ok e b h = ground arith

pub then-ok :
    {A B : Type 0} (m : Result CallError A) (f : A → Result CallError B) (b : B)
    → (m >>= f) ≡ ok b
    → (x : A) × (m ≡ ok x) × (f x ≡ ok b)
then-ok (ok x) f b h = (x, refl, h)
then-ok (err e) f b h = absurd (err-ok e b h)

raise_if-not : (t : Bool) (e : CallError) → raise_if (not t) e ≡ ok tt → t ≡ true
raise_if-not true e h = refl
raise_if-not false e h = ground arith

found : {A : Type 0} (k : ℕ) (l : List (ℕ × A)) → has_kw k l ≡ true → find_kw k l ≡ none → ⊥
found k [] h n = ground arith
found k ((j, x) ∷ l) h n = elim (Bool-cases (j == k)) [
  | inl t ↦ none-some x (rw t at n)
  | inr t ↦ found k l (rw t at h) (rw t at n)
]
  where
    none-some : {A : Type 0} (x : A) → some x ≡ none → ⊥
    none-some x h = ground arith

inputs_of-keys :
    (s : ℕ) (inputs : ByServer ℕ) (kwargs : List (ℕ × ℕ))
    → all_keys inputs kwargs ≡ true
    → has_keys (inputs_of s inputs) kwargs ≡ true
inputs_of-keys s [] kwargs h = refl
inputs_of-keys s ((t, l) ∷ ls) kwargs h = ground (arith, inputs_of-keys s ls kwargs)

module _ (a : Actions) where
  keep-all :
      (i u : ℕ) (o : Option ℕ) (rest : Result CallError (List (ℕ × ℕ))) (l r : List (ℕ × ℕ))
      → (o ≡ none → ⊥)
      → ((r' : List (ℕ × ℕ)) → rest ≡ ok r' → r' ≡ l)
      → keep_allowed i u o rest ≡ ok r
      → r ≡ (i, u) ∷ l
  keep-all i u none rest l r n f h = absurd (n refl)
  keep-all i u (some v) rest l r n f h = elim (Bool-cases (v == u)) [
    | inl t ↦
        let (r', e, g) = then-ok rest (λ r. ok ((i, v) ∷ r)) r (rw t at h) in
        let same : v ≡ u = (==_iff v u).0 t in let tail : r' ≡ l = f r' e in cc
    | inr t ↦ absurd (err-ok not_allowed r (rw t at h))
  ]

  -- Where the loop of `allowed_ids_only` ends and every key was passed, it returns the allowed inputs.
  allowed_loop-all :
      (l kwargs r : List (ℕ × ℕ)) → has_keys l kwargs ≡ true → allowed_loop l kwargs ≡ ok r → r ≡ l
  unfolding allowed_loop
  allowed_loop-all [] kwargs r k h = cc
  allowed_loop-all ((i, u) ∷ l) kwargs r k h =
      keep-all i u (find_kw i kwargs) (allowed_loop l kwargs) l r
        (found i kwargs (ground (arith, k)))
        (λ r'. allowed_loop-all l kwargs r' (ground (arith, k))) h

  -- The retrieved inputs have the keys of the ids.
  retrieve_all-keys :
      (l : List (ℕ × ℕ)) (res : List (ℕ × Input a)) (k : ℕ)
      → retrieve_all a l ≡ ok res
      → has_kw k res ≡ has_kw k l
  unfolding retrieve_all
  retrieve_all-keys [] res k h = let same : res ≡ [] = cc in rw same refl
  retrieve_all-keys ((i, u) ∷ l) res k h =
      let (o, g, h1) = then-ok (or_raise (a.get u) _) _ res h in
      let (r, e, h2) = then-ok (retrieve_all a l) _ res h1 in
      let same : res ≡ (i, object o) ∷ r = cc in
      rw same (ap (λ (t : Bool). (i == k) || t) (retrieve_all-keys l r k e))

  has_keys-same :
      (l : List (ℕ × ℕ)) (res : List (ℕ × Input a)) (keys : List (ℕ × ℕ))
      → ((k : ℕ) → has_kw k res ≡ has_kw k l)
      → has_keys keys res ≡ has_keys keys l
  has_keys-same l res [] h = refl
  has_keys-same l res ((k, u) ∷ keys) h = rw (h k) (rw (has_keys-same l res keys h) refl)

  all_keys-same :
      (l : List (ℕ × ℕ)) (res : List (ℕ × Input a)) (inputs : ByServer ℕ)
      → ((k : ℕ) → has_kw k res ≡ has_kw k l)
      → all_keys inputs res ≡ all_keys inputs l
  all_keys-same l res [] h = refl
  all_keys-same l res ((t, keys) ∷ inputs) h =
      rw (has_keys-same l res keys h) (rw (all_keys-same l res inputs h) refl)

  -- Where `is_valid` of `ExactMatch` does not raise, `filter_kwargs` gives the code all objects that
  -- are allowed for the server, and no others, and no other server has an input that this one has
  -- not.
  pub exact_is_valid_lem :
      (server : Server) (inputs : ByServer ℕ) (kwargs : List (ℕ × ℕ))
      → exact_is_valid a server inputs kwargs ≡ ok tt
      → (exact_filter_kwargs a server inputs kwargs
          ≡ retrieve_from_db a server (inputs_of server.id inputs))
        × (all_keys inputs (inputs_of server.id inputs) ≡ true)
  unfolding exact_is_valid exact_filter_kwargs allowed_ids_only retrieve_from_db
  exact_is_valid_lem server inputs kwargs h =
      let (res, f, c) = then-ok (exact_filter_kwargs a server inputs kwargs) _ tt h in
      let (ids, g, d) = then-ok (allowed_ids_only server inputs kwargs) _ res f in
      let (_, m, n) = then-ok (raise_if (not (all_keys inputs kwargs)) _) _ tt c in
      let (_, _, loop) = then-ok (raise_if (not server.is_datasite) _) _ ids g in
      let (_, _, all) = then-ok (raise_if (not server.is_datasite) _) _ res d in
      let same : ids ≡ inputs_of server.id inputs =
        allowed_loop-all (inputs_of server.id inputs) kwargs ids
          (inputs_of-keys server.id inputs kwargs (raise_if-not _ _ m)) loop in
      (
        f ∙ sym d ∙ ap (retrieve_from_db a server) same,
        sym (
              all_keys-same (inputs_of server.id inputs) res inputs
                (λ k. retrieve_all-keys ids res k all ∙ ap (λ (l : List (ℕ × ℕ)). has_kw k l) same))
            ∙ raise_if-not _ _ n,
      )
