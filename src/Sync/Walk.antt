-- ===== src/Sync/Walk.antt =====
-- `walk_graph` of service/sync/diff_state.py and the options it is called with.
use py_syft.Prelude.{
  ℕ, zero, suc, ◌<◌, ◌≡◌, ◌↔◌, refl, ap, ◌∙◌, Bool, true, false, not, ◌&&◌, ◌||◌, some, inl, inr,
  List, [], ◌∷◌, ◌++◌, length, filter, elem, elem-append, remove, count, count-remove, count-append,
  count-cons, count-nil, elem_iff, not_elem→count, ◌==◌, ==_refl, Bool-cases, arith,
}
use py_syft.Sync.Graph.{
  Edges, edges_at, all_targets, new_servers, rounds, roots_without, with_roots, with_batch_root,
  to_set, walk_ids,
}
use py_syft.Sync.Reach.{
  elem-filter, elem-to_set, new_of, rounds_total, rounds_sound, rounds_complete, missing-length,
}

-- What a walk is to find: the root, the targets of the root's edges, and those of each id found that
-- is not a global root.
pub data Reaches (deps : Edges) (global_roots : List ℕ) (root_id : ℕ) : ℕ → Type 0 where
  at_root : Reaches deps global_roots root_id root_id
  from_root : {y : ℕ} → elem y (edges_at deps root_id) ≡ true → Reaches deps global_roots root_id y
  onward :
      {x y : ℕ}
      → Reaches deps global_roots root_id x
      → elem x global_roots ≡ false
      → elem y (edges_at deps x) ≡ true
      → Reaches deps global_roots root_id y

module _ (deps : Edges) (gr : List ℕ) where
  rounds_roots :
      (fuel : ℕ) (result us roots : List ℕ)
      → ((y : ℕ) → elem y roots ≡ true → elem y result ≡ true)
      → ((y : ℕ) → elem y us ≡ true → elem y result ≡ true)
      → (found : List ℕ × List ℕ) → rounds deps gr fuel result us roots ≡ some found
      → (y : ℕ) → elem y found.1 ≡ true
      → elem y found.0 ≡ true
  unfolding rounds
  rounds_roots zero result us roots hr hu found e y h = absurd (ground arith)
  rounds_roots (suc fuel) result [] roots hr hu found e y h =
      let same : (result, roots) ≡ found = cc in
      let kept : elem y found.1 ≡ true → elem y found.0 ≡ true = rw (← same) (hr y) in kept h
  rounds_roots (suc fuel) result (u ∷ us) roots hr hu found e y h =
      let new = new_of deps gr result (u ∷ us) in
      let at = filter (λ n. elem n gr) (u ∷ us) in
      rounds_roots fuel (result ++ new) new (roots ++ at)
        (λ z m. ground (
          arith,
          elem-append z result new,
          elem-append z roots at,
          elem-filter (λ n. elem n gr) z (u ∷ us),
          hr z,
          hu z,
        ))
        (λ z m. ground (arith, elem-append z result new)) found e y h

  -- An id that is found already is not found again, and one that is no global root is not noted as one.
  rounds_once :
      (k fuel : ℕ) (result us roots : List ℕ)
      → elem k result ≡ true
      → elem k gr ≡ false
      → count k roots ≡ 0
      → (found : List ℕ × List ℕ) → rounds deps gr fuel result us roots ≡ some found
      → (count k found.0 ≡ count k result) × (count k found.1 ≡ 0)
  unfolding rounds
  rounds_once k zero result us roots m g c found e = absurd (ground arith)
  rounds_once k (suc fuel) result [] roots m g c found e =
      let same : (result, roots) ≡ found = cc in rw (← same) (refl, c)
  rounds_once k (suc fuel) result (u ∷ us) roots m g c found e =
      let new = new_of deps gr result (u ∷ us) in
      let at = filter (λ n. elem n gr) (u ∷ us) in
      let (one, two) =
        rounds_once k fuel (result ++ new) new (roots ++ at)
          (ground (arith, elem-append k result new)) g
          (ground (
            arith,
            count-append k roots at,
            elem-filter (λ n. elem n gr) k (u ∷ us),
            not_elem→count k at,
          ))
          found e in
      (
        ground (
          arith,
          one,
          count-append k result new,
          elem-filter (λ n. not (elem n result)) k (new_servers deps gr (u ∷ us)),
          not_elem→count k new,
        ),
        two,
      )

-- Within as many rounds as there are targets of edges, and two, the loop of `walk_graph` ends.
pub rounds_end :
    (deps : Edges) (global_roots : List ℕ) (root_id fuel : ℕ)
    → suc (length (all_targets deps)) < fuel
    → (found : List ℕ × List ℕ) × (rounds deps global_roots fuel (root_id ∷ []) (root_id ∷ []) []
        ≡ some found)
rounds_end deps gr root_id zero h = absurd (omega (arith, h))
rounds_end deps gr root_id (suc fuel) h =
    rounds_total deps gr fuel (root_id ∷ []) (root_id ∷ []) []
      (omega (arith, h, missing-length deps gr (root_id ∷ []) (all_targets deps)))

elem-remove :
    (k y : ℕ) (xs : List ℕ) → count k xs ≡ 1 → elem y (remove k xs) ≡ elem y xs && not (y == k)
elem-remove k y xs c = elim (Bool-cases (y == k)) [
  | inl e ↦
      let same : y ≡ k = ground arith in
      ground (arith, elem_iff y (remove k xs), count-remove y k xs, ap (λ v. count v xs) same)
  | inr e ↦ ground (arith, elem_iff y (remove k xs), elem_iff y xs, count-remove y k xs)
]

module _ (deps : Edges) (global_roots : List ℕ) (root_id : ℕ) where
  abbrev others : List ℕ
  others = roots_without root_id global_roots

  root-not-other : elem root_id others ≡ false
  root-not-other =
      ground (arith, elem-filter (λ x. not (x == root_id)) root_id global_roots, ==_refl root_id)

  other-root : (x : ℕ) → (x == root_id) ≡ false → elem x others ≡ elem x global_roots
  other-root x n = ground (arith, elem-filter (λ x. not (x == root_id)) x global_roots)

  found_reach :
      (fuel : ℕ) (found : List ℕ × List ℕ)
      → rounds deps others fuel (root_id ∷ []) (root_id ∷ []) [] ≡ some found
      → (y : ℕ) → (elem y found.0 ≡ true) ↔ Reaches deps global_roots root_id y
  found_reach fuel found e y = (
    rounds_sound deps others (Reaches deps global_roots root_id) keep fuel (root_id ∷ [])
        (root_id ∷ []) []
        (λ z m. let same : root_id ≡ z = ground arith in rw (← same) Reaches.at_root) (λ z m. m)
        found e y,
    complete y,
  )
    where
      keep :
          (x z : ℕ)
          → Reaches deps global_roots root_id x
          → elem x others ≡ false
          → elem z (edges_at deps x) ≡ true
          → Reaches deps global_roots root_id z
      keep x z r g m = elim (Bool-cases (x == root_id)) [
        | inl q ↦
            let same : x ≡ root_id = ground arith in
            Reaches.from_root (ground (arith, ap (λ v. elem z (edges_at deps v)) same))
        | inr q ↦ Reaches.onward r (ground (arith, other-root x q)) m
      ]

      all :
          ((z : ℕ) → elem z (root_id ∷ []) ≡ true → elem z found.0 ≡ true)
          × ((x z : ℕ)
              → elem x found.0 ≡ true
              → elem x others ≡ false
              → elem z (edges_at deps x) ≡ true
              → elem z found.0 ≡ true)
      all = rounds_complete deps others fuel (root_id ∷ []) (root_id ∷ []) [] (λ x m. inl m) found e

      first : elem root_id found.0 ≡ true
      first = all.0 root_id (ground (arith, ==_refl root_id))

      complete : (z : ℕ) → Reaches deps global_roots root_id z → elem z found.0 ≡ true
      complete z Reaches.at_root = first
      complete z (Reaches.from_root m) = all.1 root_id z first root-not-other m
      complete z (Reaches.onward {x} r g m) =
          all.1 x z (complete x r)
            (ground (arith, elem-filter (λ v. not (v == root_id)) x global_roots)) m

  set_found :
      (include_roots include_batch_root : Bool) (fuel : ℕ) (found : List ℕ × List ℕ)
      → rounds deps others fuel (root_id ∷ []) (root_id ∷ []) [] ≡ some found
      → (y : ℕ)
      → elem y
          (to_set (with_batch_root include_batch_root root_id (with_roots include_roots found)))
        ≡ elem y found.0 && (include_batch_root || not (y == root_id))
  set_found include_roots include_batch_root fuel found e y =
      let listed =
        rounds_roots deps others fuel (root_id ∷ []) (root_id ∷ []) []
          (λ z m. absurd (ground arith)) (λ z m. m) found e in
      let once =
        rounds_once deps others root_id fuel (root_id ∷ []) (root_id ∷ []) []
          (ground (arith, ==_refl root_id)) root-not-other (count-nil root_id) found e in
      elem-to_set y _ ∙ by_options include_roots include_batch_root (listed y) once.0 once.1
    where
      by_options :
          (ir ib : Bool)
          → (elem y found.1 ≡ true → elem y found.0 ≡ true)
          → count root_id found.0 ≡ count root_id (root_id ∷ [])
          → count root_id found.1 ≡ 0
          → elem y (with_batch_root ib root_id (with_roots ir found))
            ≡ elem y found.0 && (ib || not (y == root_id))
      by_options true true l o t = ground (arith, elem-append y found.0 found.1)
      by_options false true l o t = ground arith
      by_options true false l o t = ground (
        arith,
        elem-append y found.0 found.1,
        elem-remove root_id y (found.0 ++ found.1) (
            ground (
              arith,
              count-append root_id found.0 found.1,
              count-cons root_id root_id [],
              count-nil root_id,
              ==_refl root_id,
            )),
      )
      by_options false false l o t = ground (
        arith,
        elem-remove root_id y found.0
            (ground (arith, count-cons root_id root_id [], count-nil root_id, ==_refl root_id)),
      )

  -- `walk_graph` ends, whatever the graph, and looks up exactly the ids that the root reaches, the root
  -- among them if `include_batch_root`; `include_roots` makes no difference.
  pub walk_ids_lem :
      (include_roots include_batch_root : Bool)
      → (ids : List ℕ) × (walk_ids deps global_roots root_id include_roots include_batch_root
          ≡ some ids)
        × ((y : ℕ)
            → (elem y ids ≡ true)
              ↔ Reaches deps global_roots root_id y
                × ((include_batch_root || not (y == root_id)) ≡ true))
  unfolding walk_ids
  walk_ids_lem include_roots include_batch_root =
      let fuel = suc (suc (length (all_targets deps))) in
      let (found, e) = rounds_end deps others root_id fuel (omega arith) in
      (
        to_set (with_batch_root include_batch_root root_id (with_roots include_roots found)),
        rw e refl,
        λ y.
            exactly (found_reach fuel found e y)
              (set_found include_roots include_batch_root fuel found e y),
      )
    where
      exactly :
          {R : Type 0} {a b c : Bool} → (b ≡ true) ↔ R → a ≡ b && c → (a ≡ true) ↔ R × (c ≡ true)
      exactly (to, from) e =
          ((λ m. (to (ground (arith, e)), ground (arith, e))), λ r. ground (arith, e, from r.0))
