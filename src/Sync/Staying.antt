-- ===== src/Sync/Staying.antt =====
-- That what `handle_unignore_batch` of client/syncing.py makes available again is not ignored by the
-- next comparison.
use py_syft.Prelude.{
  ℕ, ◌≡◌, ◌⊎◌, inl, inr, refl, sym, ap, ◌∙◌, true, false, not, ◌||◌, none, some, List, [], ◌∷◌,
  elem, elem-append, filter, ◌==◌, ==_refl, Bool-cases, arith,
}
use py_syft.Prelude.Result.{Result, ok, err, Result-cases}
use py_syft.Sync.Objects.{ignore, is_ignore, DiffError}
use py_syft.Sync.Resolved.{ResolvedSyncState, add_unignored}
use py_syft.Sync.Batch.{
  Shared, Batch, Hashing, hash_batch, dependency_ids, source_server_uid, create_new_resolved_states,
}
use py_syft.Sync.Ignore.{
  set_decisions, roots, Sent, restore, apply_previous_ignore_state, add_all_unignored, unignored,
  unignore_with, handle_unignore_batch, get_other_unignore_batches, others_of, sent,
}
use py_syft.Sync.Decisions.{decision_of, decision_of-set_decisions, raises-not-sent}
use py_syft.Sync.Restoring.{keys}
use py_syft.Sync.Server.{with_new, current_ignored}

module _ (sh : Shared) (hashing : Hashing) where
  -- A batch that `restore` leaves ignored was ignored, or is the one of the entry.
  restore-only :
      (r h x : ℕ) (rs : List ℕ) (bs after : List Batch)
      → restore sh hashing r h rs bs ≡ ok after
      → is_ignore (decision_of x after) ≡ true
      → (is_ignore (decision_of x bs) || (r == x)) ≡ true
  unfolding restore
  restore-only r h x [] bs after e i =
      let eq : bs ≡ after = cc in
      ground (arith, ap (λ (l : List Batch). is_ignore (decision_of x l)) eq)
  restore-only r h x (y ∷ rs) bs after e i = elim (Bool-cases (y == r)) [
    | inr n ↦ restore-only r h x rs bs after (sym (rw n refl) ∙ e) i
    | inl n ↦ elim (Result-cases (hash_batch hashing sh y)) [
      | inr (z, f) ↦ let at : err z ≡ ok after = sym (rw n (rw f refl)) ∙ e in absurd (ground arith)
      | inl (g, f) ↦ elim (Bool-cases (g == h)) [
        | inl k ↦
            let rest =
              restore-only r h x rs (set_decisions (y ∷ []) (some ignore) bs) after
                (sym (rw n (rw f (rw k refl))) ∙ e) i in
            ground (arith, rest, decision_of-set_decisions x (y ∷ []) (some ignore) bs)
        | inr k ↦ elim (Result-cases (dependency_ids sh y)) [
          | inr (z, d) ↦
              let at : err z ≡ ok after = sym (rw n (rw f (rw k (rw d refl)))) ∙ e in
              absurd (ground arith)
          | inl (required, d) ↦
              let rest =
                restore-only r h x rs (set_decisions (y ∷ []) none (set_decisions required none bs))
                  after (sym (rw n (rw f (rw k (rw d refl)))) ∙ e) i in
              ground (
                arith,
                rest,
                decision_of-set_decisions x (y ∷ []) none (set_decisions required none bs),
                decision_of-set_decisions x required none bs,
              )
        ]
      ]
    ]
  ]

  -- Only what was ignored, or is recorded, is ignored after `apply_previous_ignore_state`.
  apply_previous-only :
      (x : ℕ) (d : List (ℕ × ℕ)) (bs after : List Batch)
      → apply_previous_ignore_state sh hashing d bs ≡ ok after
      → is_ignore (decision_of x after) ≡ true
      → (is_ignore (decision_of x bs) || elem x (keys d)) ≡ true
  unfolding apply_previous_ignore_state
  apply_previous-only x [] bs after e i =
      let eq : bs ≡ after = cc in
      ground (arith, ap (λ (l : List Batch). is_ignore (decision_of x l)) eq)
  apply_previous-only x ((r, h) ∷ d) bs after e i =
      elim (Result-cases (restore sh hashing r h (roots bs) bs)) [
        | inr (z, f) ↦ let at : err z ≡ ok after = sym (rw f refl) ∙ e in absurd (ground arith)
        | inl (m, f) ↦ elim (Bool-cases (is_ignore (decision_of x m))) [
          | inl k ↦ ground (arith, restore-only r h x (roots bs) bs m f k)
          | inr k ↦ ground (arith, apply_previous-only x d m after (sym (rw f refl) ∙ e) i)
        ]
      ]

elem-filter_keys :
    (x : ℕ) (out : List ℕ) (d : List (ℕ × ℕ))
    → elem x out ≡ true
    → elem x (keys (filter (λ (e : ℕ × ℕ). not (elem e.0 out)) d)) ≡ false
elem-filter_keys x out [] h = refl
elem-filter_keys x out ((k, g) ∷ d) h = elim (Bool-cases (k == x)) [
  | inl q ↦
      let at : k ≡ x = ground arith in
      ground (arith, ap (λ v. elem v out) at, elem-filter_keys x out d h)
  | inr q ↦ ground (arith, elem-filter_keys x out d h)
]

module _ (sh : Shared) where
  unignored-kept :
      (x r : ℕ) (s : ResolvedSyncState)
      → elem x (add_unignored r s).unignored_batches ≡ elem x s.unignored_batches || (r == x)
  unfolding add_unignored
  unignored-kept x r s = elim (Bool-cases (elem r s.unignored_batches)) [
    | inl m ↦ elim (Bool-cases (r == x)) [
      | inl q ↦
          let at : r ≡ x = ground arith in
          rw m (ground (arith, ap (λ v. elem v s.unignored_batches) at))
      | inr q ↦ rw m (ground arith)
    ]
    | inr m ↦ rw m (ground (arith, elem-append x s.unignored_batches (r ∷ [])))
  ]

  unignored-all :
      (x : ℕ) (rs : List ℕ) (s : ResolvedSyncState)
      → (elem x rs || elem x s.unignored_batches) ≡ true
      → elem x (add_all_unignored sh rs s).unignored_batches ≡ true
  unfolding add_all_unignored
  unignored-all x [] s h = ground arith
  unignored-all x (r ∷ rs) s h =
      unignored-all x rs (add_unignored r s) (ground (arith, unignored-kept x r s))

  -- The states that are sent list the root.
  ListsRoot : ℕ → ResolvedSyncState × ResolvedSyncState → Type 0
  ListsRoot r states =
      (elem r states.0.unignored_batches ≡ true) × (elem r states.1.unignored_batches ≡ true)

  unignored-lists :
      (root_id : ℕ) (bs after : List Batch) (states : ResolvedSyncState × ResolvedSyncState)
      (others : Result DiffError (List Batch))
      → unignored sh root_id bs others ≡ (after, ok (some states))
      → ListsRoot root_id states
  unfolding unignored sent ListsRoot
  unignored-lists root_id bs after states (err x) e = absurd (raises-not-sent e)
  unignored-lists root_id bs after states (ok found) e =
      let start = create_new_resolved_states sh in
      let rs = root_id ∷ roots found in
      let at : ◌≡◌ {A = Sent}
          (ok (some (add_all_unignored sh rs start.0, add_all_unignored sh rs start.1)))
          (ok (some states)) =
        ap (λ (m : List Batch × Sent). m.1) e in
      let eq : (add_all_unignored sh rs start.0, add_all_unignored sh rs start.1) ≡ states = cc in
      rw (← eq) (
        unignored-all root_id rs start.0 (ground (arith, ==_refl root_id)),
        unignored-all root_id rs start.1 (ground (arith, ==_refl root_id)),
      )

  unignore-lists :
      (b : Batch) (all after : List Batch) (states : ResolvedSyncState × ResolvedSyncState)
      (source : Result DiffError ℕ)
      → unignore_with sh b all source ≡ (after, ok (some states))
      → ListsRoot b.root_id states
  unfolding unignore_with
  unignore-lists b all after states (err x) e = absurd (raises-not-sent e)
  unignore-lists b all after states (ok source) e =
      unignored-lists b.root_id (set_decisions (b.root_id ∷ []) none all) after states
        (get_other_unignore_batches sh (record { root_id = b.root_id; decision = none })
          (others_of b.root_id all))
        e

  module _ (hashing : Hashing) where
    -- Once a server has stored the state that `handle_unignore_batch` sends to it, whatever was ignored
    -- there before, `apply_previous_ignore_state` does not ignore the batch.
    pub apply_previous-handle_unignore :
        (b : Batch) (all after : List Batch) (states : ResolvedSyncState × ResolvedSyncState)
        (s : ResolvedSyncState) (previous : List (ℕ × ℕ)) (bs next : List Batch)
        → handle_unignore_batch sh b all ≡ (after, ok (some states))
        → (s ≡ states.0) ⊎ (s ≡ states.1)
        → is_ignore (decision_of b.root_id bs) ≡ false
        → apply_previous_ignore_state sh hashing (current_ignored previous s) bs ≡ ok next
        → is_ignore (decision_of b.root_id next) ≡ false
    unfolding handle_unignore_batch ListsRoot current_ignored
    apply_previous-handle_unignore b all after states s previous bs next e of fresh f =
        let lists = unignore-lists b all after states (source_server_uid sh) e in
        let out : elem b.root_id s.unignored_batches ≡ true = elim of [
          | inl at ↦ ap (λ (m : ResolvedSyncState). elem b.root_id m.unignored_batches) at ∙ lists.0
          | inr at ↦ ap (λ (m : ResolvedSyncState). elem b.root_id m.unignored_batches) at ∙ lists.1
        ] in
        elim (Bool-cases (is_ignore (decision_of b.root_id next))) [
          | inr n ↦ n
          | inl i ↦
              let listed =
                apply_previous-only sh hashing b.root_id (current_ignored previous s) bs next f i in
              absurd (
                ground (
                  arith,
                  listed,
                  elem-filter_keys b.root_id s.unignored_batches
                      (with_new previous s.ignored_batches) out,
                ))
        ]
