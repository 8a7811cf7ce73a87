-- ===== src/Sync/Ignoring.antt =====
-- Which batches `handle_ignore_batch` of client/syncing.py ignores.
use py_syft.Prelude.{
  ℕ, ◌≡◌, inl, inr, refl, sym, ap, ◌∙◌, true, false, Option, none, some, List, [], ◌∷◌, ◌++◌, elem,
  elem-append, ◌==◌, Bool-cases, arith,
}
use py_syft.Prelude.Result.{Result, ok, err, Result-cases}
use py_syft.Sync.Objects.{SyncDecision, ignore, is_ignore, DiffError}
use py_syft.Sync.Resolved.{ResolvedSyncState}
use py_syft.Sync.Instructions.{diff_error}
use py_syft.Sync.Batch.{Shared, Batch, Hashing, dependency_ids, dependent_ids, source_server_uid}
use py_syft.Sync.Ignore.{
  set_decisions, others_of, roots, overlap, Sent, other_ignored, get_other_ignore_batches,
  handle_ignore_batch, by_decision, ignored_with, sent_ignored,
}
use py_syft.Sync.Decisions.{
  decision_of, decision_of-set_decisions, roots-set_decisions, decision_of-others, roots-others,
  raises-not-sent,
}

overlap-append : (is xs ys : List ℕ) → overlap is xs ≡ true → overlap is (xs ++ ys) ≡ true
overlap-append [] xs ys h = h
overlap-append (i ∷ is) xs ys h = ground (arith, elem-append i xs ys, overlap-append is xs ys)

module _ (sh : Shared) where
  -- A batch that is not ignored and has a dependency among the ignored ids is found.
  other_ignored-found :
      (bs : List Batch) (ids is : List ℕ) (r : ℕ) (found : List Batch)
      → other_ignored sh ids bs ≡ ok found
      → elem r (roots bs) ≡ true
      → is_ignore (decision_of r bs) ≡ false
      → dependency_ids sh r ≡ ok is
      → overlap is ids ≡ true
      → elem r (roots found) ≡ true
  unfolding other_ignored
  other_ignored-found [] ids is r found e m n k o = absurd (ground arith)
  other_ignored-found (b ∷ bs) ids is r found e m n k o = elim (Bool-cases (is_ignore b.decision)) [
    | inl g ↦
        let tail : other_ignored sh ids bs ≡ ok found = sym (rw g refl) ∙ e in
        ground (arith, other_ignored-found bs ids is r found tail)
    | inr g ↦ elim (Result-cases (dependency_ids sh b.root_id)) [
      | inr (x, f) ↦ absurd (ground arith)
      | inl (js, f) ↦ elim (Bool-cases (overlap js ids)) [
        | inl v ↦ elim (Result-cases (other_ignored sh (ids ++ js) bs)) [
          | inr (x, t) ↦ absurd (ground arith)
          | inl (more, t) ↦
              let step : other_ignored sh ids (b ∷ bs) ≡ ok (b ∷ more) =
                rw g (rw f (rw v (rw t refl))) in
              let same : b ∷ more ≡ found = cc in
              rw (← same) (
                ground (
                  arith,
                  other_ignored-found bs (ids ++ js) is r more t,
                  overlap-append is ids js o,
                ))
        ]
        | inr v ↦
            let tail : other_ignored sh ids bs ≡ ok found = sym (rw g (rw f (rw v refl))) ∙ e in
            elim (Bool-cases (b.root_id == r)) [
              | inl q ↦
                  let at : b.root_id ≡ r = ground arith in
                  let ids_at : dependency_ids sh b.root_id ≡ dependency_ids sh r =
                    ap (dependency_ids sh) at in
                  let same : js ≡ is = cc in absurd (ground (arith, ap (λ js. overlap js ids) same))
              | inr q ↦ ground (arith, other_ignored-found bs ids is r found tail)
            ]
      ]
    ]
  ]

  get_other-found :
      (b : Batch) (bs found : List Batch) (r : ℕ) (is ds : List ℕ)
      → is_ignore b.decision ≡ true
      → get_other_ignore_batches sh b bs ≡ ok found
      → elem r (roots bs) ≡ true
      → is_ignore (decision_of r bs) ≡ false
      → dependency_ids sh r ≡ ok is
      → dependent_ids sh b.root_id ≡ ok ds
      → overlap is ds ≡ true
      → elem r (roots found) ≡ true
  unfolding get_other_ignore_batches
  get_other-found b bs found r is ds g e m n k k' o =
      other_ignored-found bs ds is r found (sym (rw g (rw k' refl)) ∙ e) m n k o

  module _ (hashing : Hashing) where
    with-sent :
        (root_id : ℕ) (bs after : List Batch) (sent : ResolvedSyncState × ResolvedSyncState)
        (others : Result DiffError (List Batch))
        → ignored_with sh hashing root_id bs others ≡ (after, ok (some sent))
        → (found : List Batch) × (others ≡ ok found)
          × (after ≡ set_decisions (roots found) (some ignore) bs)
          × (sent_ignored sh hashing (root_id ∷ roots found) (source_server_uid sh)
              ≡ ok (some sent))
    unfolding ignored_with
    with-sent root_id bs after sent (err x) e =
        let bad : err (diff_error x) ≡ ok (some sent) = ap (λ (m : List Batch × Sent). m.1) e in
        absurd (ground arith)
    with-sent root_id bs after sent (ok found) e = (
      found,
      refl,
      sym (ap (λ (m : List Batch × Sent). m.0) e),
      ap (λ (m : List Batch × Sent). m.1) e,
    )

    decided-sent :
        (d : Option SyncDecision) (root_id : ℕ) (all after : List Batch)
        (sent : ResolvedSyncState × ResolvedSyncState)
        → by_decision sh hashing d root_id all ≡ (after, ok (some sent))
        → ignored_with sh hashing root_id (set_decisions (root_id ∷ []) (some ignore) all) (
            get_other_ignore_batches sh
              (record { root_id = root_id; decision = some ignore })
              (others_of root_id all))
          ≡ (after, ok (some sent))
    unfolding by_decision
    decided-sent none root_id all after sent e = e
    decided-sent (some SyncDecision.ignore) root_id all after sent e =
        let bad : ◌≡◌ {A = Sent} (ok none) (ok (some sent)) =
          ap (λ (m : List Batch × Sent). m.1) e in
        absurd (ground arith)
    decided-sent (some SyncDecision.low) root_id all after sent e = absurd (raises-not-sent e)
    decided-sent (some SyncDecision.high) root_id all after sent e = absurd (raises-not-sent e)
    decided-sent (some SyncDecision.skip) root_id all after sent e = absurd (raises-not-sent e)

    -- Where `handle_ignore_batch` sends states, the decisions of the batch and of those that are found
    -- with it are set.
    pub handle_ignore-sent :
        (b : Batch) (all after : List Batch) (sent : ResolvedSyncState × ResolvedSyncState)
        → handle_ignore_batch sh hashing b all ≡ (after, ok (some sent))
        → (found : List Batch) × (get_other_ignore_batches sh
              (record { root_id = b.root_id; decision = some ignore })
              (others_of b.root_id all)
            ≡ ok found)
          × (after
              ≡ set_decisions
                  (roots found)
                  (some ignore)
                  (set_decisions (b.root_id ∷ []) (some ignore) all))
          × (sent_ignored sh hashing (b.root_id ∷ roots found) (source_server_uid sh)
              ≡ ok (some sent))
    unfolding handle_ignore_batch
    handle_ignore-sent b all after sent e =
        with-sent b.root_id _ after sent _ (decided-sent b.decision b.root_id all after sent e)

    -- Once `handle_ignore_batch` has sent its states, no batch that is not ignored depends on an object
    -- that depends on the ignored root, or on the root itself.
    pub handle_ignore_batch_lem :
        (b : Batch) (all after : List Batch) (sent : ResolvedSyncState × ResolvedSyncState) (r : ℕ)
        (is ds : List ℕ)
        → handle_ignore_batch sh hashing b all ≡ (after, ok (some sent))
        → elem r (roots all) ≡ true
        → is_ignore (decision_of r after) ≡ false
        → dependency_ids sh r ≡ ok is
        → dependent_ids sh b.root_id ≡ ok ds
        → overlap is ds ≡ false
    handle_ignore_batch_lem b all after sent r is ds e m n k k' =
        let (found, f, a, s) = handle_ignore-sent b all after sent e in
        let marked = set_decisions (b.root_id ∷ []) (some ignore) all in
        let at : is_ignore (decision_of r (set_decisions (roots found) (some ignore) marked))
            ≡ false =
          ap (λ (bs : List Batch). is_ignore (decision_of r bs)) (sym a) ∙ n in
        elim (Bool-cases (b.root_id == r)) [
          | inl q ↦ absurd (
              ground (
                arith,
                decision_of-set_decisions r (roots found) (some ignore) marked,
                decision_of-set_decisions r (b.root_id ∷ []) (some ignore) all,
                roots-set_decisions (b.root_id ∷ []) (some ignore) all,
              ))
          | inr q ↦ ground (
            arith,
            decision_of-set_decisions r (roots found) (some ignore) marked,
            decision_of-set_decisions r (b.root_id ∷ []) (some ignore) all,
            ap (elem r) (roots-set_decisions (b.root_id ∷ []) (some ignore) all),
            decision_of-others r b.root_id all q,
            roots-others r b.root_id all q,
            get_other-found (record { root_id = b.root_id; decision = some ignore })
                (others_of b.root_id all) found r is ds refl f,
          )
        ]
