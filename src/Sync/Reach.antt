-- ===== src/Sync/Reach.antt =====
-- What `walk_graph` of diff_state.py finds: the ids that the root reaches.
use py_syft.Prelude.{
  ℕ, zero, suc, ◌+◌, ◌<◌, ◌≤◌, ◌≡◌, ◌⊎◌, refl, sym, ap, ◌∙◌, Bool, true, false, not, ◌&&◌, some,
  inl, inr, List, [], ◌∷◌, ◌++◌, length, filter, elem, elem-append, ◌==◌, ==_refl, if◌then◌else◌,
  Bool-cases, arith,
}
use py_syft.Sync.Graph.{Edges, edges_at, all_targets, new_servers, rounds, to_set}

pub elem-filter : (p : ℕ → Bool) (y : ℕ) (xs : List ℕ) → elem y (filter p xs) ≡ elem y xs && p y
elem-filter p y [] = refl
elem-filter p y (x ∷ xs) = elim (Bool-cases (x == y)) [
  | inl e ↦ let q : x ≡ y = ground arith in ground (arith, elem-filter p y xs, ap p q)
  | inr e ↦ ground (arith, elem-filter p y xs)
]

pub elem-to_set : (y : ℕ) (xs : List ℕ) → elem y (to_set xs) ≡ elem y xs
unfolding to_set
elem-to_set y [] = refl
elem-to_set y (x ∷ xs) = ground (arith, elem-to_set y xs)

elem-edges_at :
    (deps : Edges) (x y : ℕ) → elem y (edges_at deps x) ≡ true → elem y (all_targets deps) ≡ true
unfolding edges_at all_targets
elem-edges_at [] x y h = h
elem-edges_at ((k, ys) ∷ deps) x y h =
    ground (arith, elem-append y ys (all_targets deps), elem-edges_at deps x y)

module _ (deps : Edges) (gr : List ℕ) where
  -- A server found in a round is a target of one that is no global root.
  elem-new_servers :
      (y : ℕ) (us : List ℕ)
      → elem y (new_servers deps gr us) ≡ true
      → (x : ℕ) × (elem x us ≡ true) × (elem x gr ≡ false) × (elem y (edges_at deps x) ≡ true)
  unfolding new_servers
  elem-new_servers y [] h = absurd (ground arith)
  elem-new_servers y (u ∷ us) h = elim (Bool-cases (elem u gr)) [
    | inl g ↦ let (x, m, f, e) = elem-new_servers y us (ground arith) in (x, ground arith, f, e)
    | inr g ↦ elim (Bool-cases (elem y (edges_at deps u))) [
      | inl e ↦ (u, ground (arith, ==_refl u), g, e)
      | inr e ↦
          let (x, m, f, k) =
            elem-new_servers y us
              (ground (arith, elem-append y (edges_at deps u) (new_servers deps gr us))) in
          (x, ground arith, f, k)
    ]
  ]

  new_servers-elem :
      (x y : ℕ) (us : List ℕ)
      → elem x us ≡ true
      → elem x gr ≡ false
      → elem y (edges_at deps x) ≡ true
      → elem y (new_servers deps gr us) ≡ true
  unfolding new_servers
  new_servers-elem x y [] m g e = absurd (ground arith)
  new_servers-elem x y (u ∷ us) m g e = elim (Bool-cases (u == x)) [
    | inl q ↦
        let same : u ≡ x = ground arith in
        ground (
          arith,
          elem-append y (edges_at deps u) (new_servers deps gr us),
          ap (λ v. elem v gr) same,
          ap (λ v. elem y (edges_at deps v)) same,
        )
    | inr q ↦
        ground
          (arith, elem-append y (edges_at deps u) (new_servers deps gr us), new_servers-elem x y us)
  ]

  -- A number of targets that are not found yet, which each round but the last makes smaller.
  pub missing : List ℕ → List ℕ → ℕ
  missing result [] = 0
  missing result (t ∷ ts) = (if elem t result then 0 else 1) + missing result ts

  missing-append : (result new ts : List ℕ) → missing (result ++ new) ts ≤ missing result ts
  unfolding missing
  missing-append result new [] = omega arith
  missing-append result new (t ∷ ts) =
      ground (arith, elem-append t result new, missing-append result new ts)

  missing-append-lt :
      (result new ts : List ℕ) (y : ℕ)
      → elem y new ≡ true
      → elem y result ≡ false
      → elem y ts ≡ true
      → missing (result ++ new) ts < missing result ts
  unfolding missing
  missing-append-lt result new [] y n r t = absurd (ground arith)
  missing-append-lt result new (x ∷ ts) y n r t = elim (Bool-cases (x == y)) [
    | inl q ↦
        let same : x ≡ y = ground arith in
        ground (
          arith,
          elem-append x result new,
          missing-append result new ts,
          ap (λ v. elem v new) same,
          ap (λ v. elem v result) same,
        )
    | inr q ↦ ground (
      arith,
      elem-append x result new,
      missing-append result new ts,
      missing-append-lt result new ts y n r,
    )
  ]

  pub missing-length : (result ts : List ℕ) → missing result ts ≤ length ts
  unfolding missing
  missing-length result [] = omega arith
  missing-length result (t ∷ ts) = ground (arith, missing-length result ts)

  abbrev pub new_of : List ℕ → List ℕ → List ℕ
  new_of result us = filter (λ n. not (elem n result)) (new_servers deps gr us)

  pub new_of-found :
      (y : ℕ) (result us : List ℕ)
      → elem y (new_of result us) ≡ true
      → (elem y result ≡ false) × (elem y (all_targets deps) ≡ true)
  new_of-found y result us h =
      let found : elem y (new_servers deps gr us) && not (elem y result) ≡ true =
        sym (elem-filter (λ n. not (elem n result)) y (new_servers deps gr us)) ∙ h in
      let (x, m, f, e) = elem-new_servers y us (ground arith) in
      (ground arith, elem-edges_at deps x y e)

  grown :
      (x y : ℕ) (result us : List ℕ)
      → elem x us ≡ true
      → elem x gr ≡ false
      → elem y (edges_at deps x) ≡ true
      → elem y (result ++ new_of result us) ≡ true
  grown x y result us m g k = ground (
    arith,
    elem-append y result (new_of result us),
    elem-filter (λ n. not (elem n result)) y (new_servers deps gr us),
    new_servers-elem x y us m g k,
  )

  -- The loop ends within as many rounds as there are targets that are not found, and two.
  pub rounds_total :
      (fuel : ℕ) (result us roots : List ℕ)
      → missing result (all_targets deps) < fuel
      → (found : List ℕ × List ℕ) × (rounds deps gr (suc fuel) result us roots ≡ some found)
  unfolding rounds
  rounds_total zero result us roots h = absurd (ground arith)
  rounds_total (suc fuel) result [] roots h = ((result, roots), refl)
  rounds_total (suc fuel) result (u ∷ us) roots h =
      ends (new_of result (u ∷ us)) (λ y. new_of-found y result (u ∷ us))
        (λ r rs. rounds_total fuel r _ rs) h (roots ++ filter (λ n. elem n gr) (u ∷ us))
    where
      ends :
          (new : List ℕ)
          → ((y : ℕ)
              → elem y new ≡ true
              → (elem y result ≡ false) × (elem y (all_targets deps) ≡ true))
          → ((r rs : List ℕ)
              → missing r (all_targets deps) < fuel
              → (found : List ℕ × List ℕ) × (rounds deps gr (suc fuel) r new rs ≡ some found))
          → missing result (all_targets deps) < suc fuel
          → (found_roots : List ℕ)
          → (found : List ℕ × List ℕ) × (rounds deps gr (suc fuel) (result ++ new) new found_roots
              ≡ some found)
      ends [] k go h rs = ((result ++ [], rs), refl)
      ends (y ∷ new) k go h rs =
          let (r, t) = k y (ground (arith, ==_refl y)) in
          go (result ++ y ∷ new) rs (
            omega (
              arith,
              missing-append-lt result (y ∷ new) (all_targets deps) y (ground (arith, ==_refl y)) r
                  t,
            ))

  -- What is found has each property that passes along the edges of the servers that are expanded.
  pub rounds_sound :
      (P : ℕ → Type 0)
      → ((x y : ℕ) → P x → elem x gr ≡ false → elem y (edges_at deps x) ≡ true → P y)
      → (fuel : ℕ) (result us roots : List ℕ) → ((y : ℕ) → elem y result ≡ true → P y)
      → ((y : ℕ) → elem y us ≡ true → elem y result ≡ true)
      → (found : List ℕ × List ℕ) → rounds deps gr fuel result us roots ≡ some found
      → (y : ℕ) → elem y found.0 ≡ true
      → P y
  unfolding rounds
  rounds_sound P keep zero result us roots hr hu found e y h = absurd (ground arith)
  rounds_sound P keep (suc fuel) result [] roots hr hu found e y h =
      let same : (result, roots) ≡ found = cc in
      hr y (ap (λ (m : List ℕ × List ℕ). elem y m.0) same ∙ h)
  rounds_sound P keep (suc fuel) result (u ∷ us) roots hr hu found e y h =
      let new = new_of result (u ∷ us) in
      rounds_sound P keep fuel (result ++ new) new (roots ++ filter (λ n. elem n gr) (u ∷ us))
        (λ z m. elim (Bool-cases (elem z result)) [
          | inl r ↦ hr z r
          | inr r ↦
              let found_new : elem z (new_servers deps gr (u ∷ us)) ≡ true = ground (
                arith,
                elem-append z result new,
                elem-filter (λ n. not (elem n result)) z (new_servers deps gr (u ∷ us)),
              ) in
              let (x, m', f, k) = elem-new_servers z (u ∷ us) found_new in
              keep x z (hr x (hu x m')) f k
        ])
        (λ z m. ground (arith, elem-append z result new)) found e y h

  -- What is found is closed under those edges, and has all that was found before.
  pub rounds_complete :
      (fuel : ℕ) (result us roots : List ℕ)
      → ((x : ℕ)
          → elem x result ≡ true
          → (elem x us ≡ true)
            ⊎ ((y : ℕ)
                → elem x gr ≡ false
                → elem y (edges_at deps x) ≡ true
                → elem y result ≡ true))
      → (found : List ℕ × List ℕ) → rounds deps gr fuel result us roots ≡ some found
      → ((y : ℕ) → elem y result ≡ true → elem y found.0 ≡ true)
        × ((x y : ℕ)
            → elem x found.0 ≡ true
            → elem x gr ≡ false
            → elem y (edges_at deps x) ≡ true
            → elem y found.0 ≡ true)
  unfolding rounds
  rounds_complete zero result us roots hc found e = absurd (ground arith)
  rounds_complete (suc fuel) result [] roots hc found e =
      let same : (result, roots) ≡ found = cc in
      rw (← same)
        ((λ y h. h), λ x y m. elim (hc x m) [ inl bad ↦ absurd (ground arith) | inr all ↦ all y ])
  rounds_complete (suc fuel) result (u ∷ us) roots hc found e =
      let new = new_of result (u ∷ us) in
      let (before, closed) =
        rounds_complete fuel (result ++ new) new (roots ++ filter (λ n. elem n gr) (u ∷ us))
          (λ x. kept x (hc x)) found e in
      ((λ y h. before y (ground (arith, elem-append y result new))), closed)
    where
      kept :
          (x : ℕ)
          → (elem x result ≡ true
              → (elem x (u ∷ us) ≡ true)
                ⊎ ((y : ℕ)
                    → elem x gr ≡ false
                    → elem y (edges_at deps x) ≡ true
                    → elem y result ≡ true))
          → elem x (result ++ new_of result (u ∷ us)) ≡ true
          → (elem x (new_of result (u ∷ us)) ≡ true)
            ⊎ ((y : ℕ)
                → elem x gr ≡ false
                → elem y (edges_at deps x) ≡ true
                → elem y (result ++ new_of result (u ∷ us)) ≡ true)
      kept x hx m = elim (Bool-cases (elem x result)) [
        | inl r ↦ elim (hx r) [
          | inl now ↦ inr (λ y g k. grown x y result (u ∷ us) now g k)
          | inr all ↦
              inr
                (λ y g k. ground (arith, elem-append y result (new_of result (u ∷ us)), all y g k))
        ]
        | inr r ↦ inl (ground (arith, elem-append x result (new_of result (u ∷ us))))
      ]
