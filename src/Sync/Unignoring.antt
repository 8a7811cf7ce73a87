-- ===== src/Sync/Unignoring.antt =====
-- Which batches `handle_unignore_batch` of client/syncing.py makes available again.
use py_syft.Prelude.{
  ℕ, ◌≡◌, inl, inr, refl, sym, ap, ◌∙◌, Bool, true, false, ◌||◌, none, some, List, [], ◌∷◌, elem,
  filter, ◌==◌, Bool-cases, arith,
}
use py_syft.Prelude.Result.{Result, ok, err}
use py_syft.Sync.Objects.{is_ignore, DiffError}
use py_syft.Sync.Resolved.{ResolvedSyncState}
use py_syft.Sync.Batch.{Shared, Batch, dependency_ids, source_server_uid}
use py_syft.Sync.Ignore.{
  set_decisions, others_of, roots, Sent, is_required, get_other_unignore_batches,
  handle_unignore_batch, unignore_with, unignored,
}
use py_syft.Sync.Decisions.{
  decision_of, decision_of-set_decisions, roots-set_decisions, decision_of-others, roots-others,
  decision_of-absent, raises-not-sent,
}

module _ (sh : Shared) where
  unignored-sent :
      (root_id : ℕ) (bs after : List Batch) (sent : ResolvedSyncState × ResolvedSyncState)
      (others : Result DiffError (List Batch))
      → unignored sh root_id bs others ≡ (after, ok (some sent))
      → (found : List Batch) × (others ≡ ok found) × (after ≡ set_decisions (roots found) none bs)
  unfolding unignored
  unignored-sent root_id bs after sent (err x) e = absurd (raises-not-sent e)
  unignored-sent root_id bs after sent (ok found) e =
      (found, refl, sym (ap (λ (m : List Batch × Sent). m.0) e))

  roots-filter :
      (p : Batch → Bool) (r : ℕ) (bs : List Batch)
      → ((b : Batch) → b.root_id ≡ r → p b ≡ is_ignore b.decision)
      → elem r (roots bs) ≡ true
      → is_ignore (decision_of r bs) ≡ true
      → elem r (roots (filter p bs)) ≡ true
  roots-filter p r [] h m i = m
  roots-filter p r (b ∷ bs) h m i = elim (Bool-cases (b.root_id == r)) [
    | inl q ↦ let same : b.root_id ≡ r = ground arith in ground (arith, h b same)
    | inr q ↦ ground (arith, roots-filter p r bs h)
  ]

  unignored-found :
      (b : Batch) (bs found : List Batch) (r : ℕ) (is : List ℕ)
      → get_other_unignore_batches sh (record { root_id = b.root_id; decision = none }) bs
        ≡ ok found
      → dependency_ids sh b.root_id ≡ ok is
      → elem r is ≡ true
      → elem r (roots bs) ≡ true
      → is_ignore (decision_of r bs) ≡ true
      → elem r (roots found) ≡ true
  unfolding get_other_unignore_batches
  unignored-found b bs found r is e k d m i =
      let listed : ok (filter (is_required sh is) bs) ≡ ok found = sym (rw k refl) ∙ e in
      let same : filter (is_required sh is) bs ≡ found = cc in
      ap (λ (l : List Batch). elem r (roots l)) (sym same)
      ∙ roots-filter (is_required sh is) r bs (λ c q. ground (arith, ap (λ v. elem v is) q)) m i

  unignore-sent :
      (b : Batch) (all after : List Batch) (sent : ResolvedSyncState × ResolvedSyncState)
      (source : Result DiffError ℕ)
      → unignore_with sh b all source ≡ (after, ok (some sent))
      → (found : List Batch) × (get_other_unignore_batches sh
            (record { root_id = b.root_id; decision = none })
            (others_of b.root_id all)
          ≡ ok found)
        × (after ≡ set_decisions (roots found) none (set_decisions (b.root_id ∷ []) none all))
  unfolding unignore_with
  unignore-sent b all after sent (err x) e = absurd (raises-not-sent e)
  unignore-sent b all after sent (ok source) e = unignored-sent b.root_id _ after sent _ e

  -- Once `handle_unignore_batch` has sent its states, no batch whose root the batch depends on is
  -- ignored, the batch itself among them.
  pub handle_unignore_batch_lem :
      (b : Batch) (all after : List Batch) (sent : ResolvedSyncState × ResolvedSyncState) (r : ℕ)
      (is : List ℕ)
      → handle_unignore_batch sh b all ≡ (after, ok (some sent))
      → dependency_ids sh b.root_id ≡ ok is
      → (elem r is || (b.root_id == r)) ≡ true
      → is_ignore (decision_of r after) ≡ false
  unfolding handle_unignore_batch
  handle_unignore_batch_lem b all after sent r is e k d =
      let (found, f, a) = unignore-sent b all after sent (source_server_uid sh) e in
      let marked = set_decisions (b.root_id ∷ []) none all in
      let at : decision_of r after ≡ decision_of r (set_decisions (roots found) none marked) =
        ap (decision_of r) a in
      elim (Bool-cases (elem r (roots all))) [
        | inl m ↦ elim (Bool-cases (b.root_id == r)) [
          | inl q ↦ ground (
            arith,
            ap is_ignore at,
            decision_of-set_decisions r (roots found) none marked,
            decision_of-set_decisions r (b.root_id ∷ []) none all,
          )
          | inr q ↦ elim (Bool-cases (is_ignore (decision_of r all))) [
            | inl i ↦ ground (
              arith,
              ap is_ignore at,
              decision_of-set_decisions r (roots found) none marked,
              decision_of-set_decisions r (b.root_id ∷ []) none all,
              ap (elem r) (roots-set_decisions (b.root_id ∷ []) none all),
              decision_of-others r b.root_id all q,
              roots-others r b.root_id all q,
              unignored-found b (others_of b.root_id all) found r is f k,
            )
            | inr i ↦ ground (
              arith,
              ap is_ignore at,
              decision_of-set_decisions r (roots found) none marked,
              decision_of-set_decisions r (b.root_id ∷ []) none all,
            )
          ]
        ]
        | inr m ↦ ground (
          arith,
          ap is_ignore at,
          decision_of-set_decisions r (roots found) none marked,
          decision_of-set_decisions r (b.root_id ∷ []) none all,
          decision_of-absent r all,
        )
      ]
