-- ===== src/Network/Updating.antt =====
-- How the routes of a peer change (server_peer.py).
use py_syft.Prelude.{
  ℕ, zero, suc, ◌+◌, ◌<◌, ◌≤◌, ◌≡◌, ◌⊎◌, refl, ◌∙◌, true, false, Option, none, some, List, [], ◌∷◌,
  ◌++◌, inl, inr, All, arith, Bool-cases, Option-cases,
}
use py_syft.Prelude.Result.{Result, ok, err}
use py_syft.Network.{
  Address, PeerError, http, python, Route, Hashes, max_of, max_priority, update_route_priority,
  route_eq, existed_route, change_at, get_at, append_route, update_route, update_routes, above,
  place, then_update, prioritise_found, set_priority, prioritise, new_priority,
  update_existed_route_priority,
}

All-append {ℓ} :
    (P : Route → Type ℓ) (rs : List Route) (r : Route) → All P rs → P r → All P (rs ++ r ∷ [])
All-append P [] r a p = (p, tt)
All-append P (s ∷ rs) r a p = (a.0, All-append P rs r a.1 p)

All-change {ℓ} :
    (P : Route → Type ℓ) (i : ℕ) (r : Route) (rs : List Route)
    → All P rs
    → P r
    → All P (change_at i (λ _. r) rs)
unfolding change_at
All-change P i r [] a p = tt
All-change P zero r (s ∷ rs) a p = (p, a.1)
All-change P (suc i) r (s ∷ rs) a p = (a.0, All-change P i r rs a.1 p)

All-map {ℓ κ} :
    (P : Route → Type ℓ) (Q : Route → Type κ) (rs : List Route)
    → ((s : Route) → P s → Q s)
    → All P rs
    → All Q rs
All-map P Q [] f a = tt
All-map P Q (s ∷ rs) f a = (f s a.0, All-map P Q rs f a.1)

max_priority-none :
    (P : Route → Type 0) (routes : List Route) → max_priority routes ≡ none → All P routes
unfolding max_priority
max_priority-none P [] h = tt
max_priority-none P (r ∷ rs) h = elim (Option-cases (max_priority rs)) [
  | inl e ↦ ground arith
  | inr (k, e) ↦ ground arith
]

max_priority-le :
    (routes : List Route) (m : ℕ) → max_priority routes ≡ some m → All (λ s. s.priority ≤ m) routes
unfolding max_priority
max_priority-le [] m h = tt
max_priority-le (r ∷ rs) m h = elim (Option-cases (max_priority rs)) [
  | inl e ↦ (ground arith, max_priority-none (λ s. s.priority ≤ m) rs e)
  | inr (k, e) ↦ (
    ground arith,
    All-map (λ s. s.priority ≤ k) (λ s. s.priority ≤ m) rs (λ s l. ground arith)
        (max_priority-le rs k e),
  )
]

new_priority-none :
    (r : Route) (routes : List Route) (m : ℕ)
    → max_priority routes ≡ some m
    → new_priority r none routes ≡ ok (m + 1)
unfolding update_route_priority
new_priority-none r routes m k = rw k refl

module _ (h : Hashes) where
  route_eq_sym : (a b : Address) → route_eq h a b ≡ route_eq h b a
  unfolding route_eq
  route_eq_sym (http a b c d e) (http a' b' c' d' e') = ground arith
  route_eq_sym (http a b c d e) (python a' b' c' d' e') = refl
  route_eq_sym (python a b c d e) (http a' b' c' d' e') = refl
  route_eq_sym (python a b c d e) (python a' b' c' d' e') = ground arith

  route_eq_refl : (a : Address) → route_eq h a a ≡ true
  unfolding route_eq
  route_eq_refl (http a b c d e) = ground arith
  route_eq_refl (python a b c d e) = ground arith

  route_eq_cong : (a b c : Address) → route_eq h a b ≡ true → route_eq h a c ≡ route_eq h b c
  unfolding route_eq
  route_eq_cong (http a b c d e) (http a' b' c' d' e') (http u v w x y) t = ground arith
  route_eq_cong (http a b c d e) (http a' b' c' d' e') (python u v w x y) t = refl
  route_eq_cong (http a b c d e) (python a' b' c' d' e') k t = ground arith
  route_eq_cong (python a b c d e) (http a' b' c' d' e') k t = ground arith
  route_eq_cong (python a b c d e) (python a' b' c' d' e') (http u v w x y) t = refl
  route_eq_cong (python a b c d e) (python a' b' c' d' e') (python u v w x y) t = ground arith

  -- No route of the list is equal to the route.
  abbrev pub IsNew : Route → List Route → Type 0
  IsNew r routes = All (λ s. route_eq h r.address s.address ≡ false) routes

  -- No two routes of a peer are equal.
  abbrev pub AreDistinct : List Route → Type 0
  AreDistinct [] = Unit
  AreDistinct (r ∷ rs) = IsNew r rs × AreDistinct rs

  existed_route-none :
      (r : Route) (routes : List Route) → existed_route h r routes ≡ none → IsNew r routes
  unfolding existed_route
  existed_route-none r [] n = tt
  existed_route-none r (s ∷ rs) n = elim (Option-cases (existed_route h r rs)) [
    | inl e ↦ (ground arith, existed_route-none r rs e)
    | inr (i, e) ↦ ground arith
  ]

  append-AreDistinct :
      (rs : List Route) (r : Route) → AreDistinct rs → IsNew r rs → AreDistinct (rs ++ r ∷ [])
  append-AreDistinct [] r d n = (tt, tt)
  append-AreDistinct (s ∷ rs) r d n = (
    All-append (λ x. route_eq h s.address x.address ≡ false) rs r d.0
        (route_eq_sym s.address r.address ∙ n.0),
    append-AreDistinct rs r d.1 n.1,
  )

  existed_route-cons :
      (i : ℕ) (r s : Route) (rs : List Route)
      → existed_route h r (s ∷ rs) ≡ some i
      → ((route_eq h r.address s.address ≡ true) × (i ≡ 0))
        ⊎ ((j : ℕ) × (route_eq h r.address s.address ≡ false)
            × (existed_route h r rs ≡ some j)
            × (i ≡ suc j))
  unfolding existed_route
  existed_route-cons i r s rs e = elim (Bool-cases (route_eq h r.address s.address)) [
    | inl t ↦ inl (t, ground arith)
    | inr t ↦ elim (Option-cases (existed_route h r rs)) [
      | inl n ↦ ground arith
      | inr (j, g) ↦ inr (j, t, g, ground arith)
    ]
  ]

  change-AreDistinct :
      (i : ℕ) (r : Route) (rs : List Route)
      → existed_route h r rs ≡ some i
      → AreDistinct rs
      → AreDistinct (change_at i (λ _. r) rs)
  unfolding change_at
  change-AreDistinct i r [] e d = tt
  change-AreDistinct i r (s ∷ rs) e d = elim (existed_route-cons i r s rs e) [
    | inl (t, z) ↦ rw z (
      All-map (λ x. route_eq h s.address x.address ≡ false)
          (λ x. route_eq h r.address x.address ≡ false) rs
          (λ x n. route_eq_cong r.address s.address x.address t ∙ n) d.0,
      d.1,
    )
    | inr (j, t, g, z) ↦ rw z (
      All-change (λ x. route_eq h s.address x.address ≡ false) j r rs d.0
          (route_eq_sym s.address r.address ∙ t),
      change-AreDistinct j r rs g d.1,
    )
  ]

  abbrev Kept : Result PeerError (List Route) → Type 0
  Kept (ok routes) = AreDistinct routes
  Kept (err x) = Unit

  place-Kept :
      (r : Route) (routes : List Route) (found : Option ℕ)
      → existed_route h r routes ≡ found
      → AreDistinct routes
      → Kept (place h r routes found)
  unfolding place update_route_priority
  place-Kept r routes (some i) e d = change-AreDistinct i r routes e d
  place-Kept r routes none e d = above-Kept (max_priority routes)
    where
      above-Kept : (m : Option ℕ) → Kept (append_route (above r m) routes)
      above-Kept none = tt
      above-Kept (some m) =
          append-AreDistinct routes (record r { priority = m + 1 }) d
            (existed_route-none r routes e)

  then_update-AreDistinct :
      (rest : List Route → Result PeerError (List Route) × List Route) (routes : List Route)
      (x : Result PeerError (List Route))
      → AreDistinct routes
      → Kept x
      → ((l : List Route) → AreDistinct l → AreDistinct (rest l).1)
      → AreDistinct (then_update h rest routes x).1
  unfolding then_update
  then_update-AreDistinct rest routes (ok l) d k f = f l k
  then_update-AreDistinct rest routes (err e) d k f = d

  -- `update_routes` keeps the routes of a peer pairwise different, also where it raises.
  pub update_routes-AreDistinct :
      (rs routes : List Route) → AreDistinct routes → AreDistinct (update_routes h rs routes).1
  unfolding update_routes update_route
  update_routes-AreDistinct [] routes d = d
  update_routes-AreDistinct (r ∷ rs) routes d =
      then_update-AreDistinct (update_routes h rs) routes (update_route h r routes) d
        (place-Kept r routes (existed_route h r routes) refl d) (update_routes-AreDistinct rs)

  none-ne : (i : ℕ) → ◌≡◌ {A = Option ℕ} none (some i) → ⊥
  none-ne i e = cc

  existed_route-max :
      (i : ℕ) (r : Route) (routes : List Route)
      → existed_route h r routes ≡ some i
      → (m : ℕ) × (max_priority routes ≡ some m)
  unfolding existed_route max_priority
  existed_route-max i r [] e = absurd (none-ne i e)
  existed_route-max i r (s ∷ rs) e = elim (Option-cases (max_priority rs)) [
    | inl n ↦ (s.priority, rw n refl)
    | inr (m, k) ↦ (max_of s.priority m, rw k refl)
  ]

  change-get :
      (i : ℕ) (r : Route) (p : ℕ) (routes : List Route)
      → existed_route h r routes ≡ some i
      → (s : Route) × (get_at i (change_at i (set_priority p) routes) ≡ ok (set_priority p s))
  unfolding change_at get_at existed_route
  change-get i r p [] e = absurd (none-ne i e)
  change-get i r p (s ∷ rs) e = elim (existed_route-cons i r s rs e) [
    | inl (t, z) ↦ (s, rw z refl)
    | inr (j, t, g, z) ↦ let (x, k) = change-get j r p rs g in (x, rw z k)
  ]

  -- `update_existed_route_priority` without a priority gives an existing route a number above those
  -- of all routes of the peer.
  pub update_existed_route_priority_lem :
      (r : Route) (i : ℕ) (routes : List Route)
      → existed_route h r routes ≡ some i
      → (r' : Route) × (update_existed_route_priority h r none routes
          ≡ ok (change_at i (set_priority r'.priority) routes, r'))
        × All (λ s. s.priority < r'.priority) routes
  unfolding update_existed_route_priority prioritise_found prioritise
  update_existed_route_priority_lem r i routes e =
      let (m, k) = existed_route-max i r routes e in
      let (s, g) = change-get i r (m + 1) routes e in
      (
        set_priority (m + 1) s,
        rw e (rw (new_priority-none r routes m k) (rw g refl)),
        All-map (λ x. x.priority ≤ m) (λ x. x.priority < m + 1) routes (λ x l. omega arith)
            (max_priority-le routes m k),
      )
