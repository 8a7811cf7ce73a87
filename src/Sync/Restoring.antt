-- ===== src/Sync/Restoring.antt =====
-- What `handle_ignore_batch` of client/syncing.py sends, and `apply_previous_ignore_state` of
-- service/sync/diff_state.py makes of it.
use py_syft.Prelude.{
  ℕ, ◌≡◌, inl, inr, refl, sym, ap, ◌∙◌, Bool, true, false, ◌||◌, Option, none, some, List, [], ◌∷◌,
  elem, All, ◌==◌, ==_refl, if◌then◌else◌, if_both, Bool-cases, arith,
}
use py_syft.Prelude.Result.{Result, ok, err, Result-cases}
use py_syft.Sync.Objects.{SyncDirection, low_side, high_side, ignore, DiffError}
use py_syft.Sync.Resolved.{ResolvedSyncState, new_resolved, set_hash, add_ignored}
use py_syft.Sync.Batch.{
  Shared, Batch, Hashing, hash_batch, source_server_uid, create_new_resolved_states, source_target,
}
use py_syft.Sync.Ignore.{
  set_decisions, roots, add_all_ignored, ignored_hashes, sent_hashes, sent_ignored, sent,
  handle_ignore_batch, restore, apply_previous_ignore_state,
}
use py_syft.Sync.Ignoring.{handle_ignore-sent}
use py_syft.Sync.Setting.{set_decisions-ext, set_decisions-twice, set_decisions-absent}

-- The keys of a dict of hashes.
abbrev pub keys : List (ℕ × ℕ) → List ℕ
keys [] = []
keys ((r, h) ∷ d) = r ∷ keys d

module _ (sh : Shared) (hashing : Hashing) where
  abbrev Holds : List (ℕ × ℕ) → Type 0
  Holds d = All (λ (e : ℕ × ℕ). hash_batch hashing sh e.0 ≡ ok e.1) d

  restore-same :
      (r h : ℕ) (rs : List ℕ) (bs : List Batch)
      → hash_batch hashing sh r ≡ ok h
      → restore sh hashing r h rs bs
        ≡ ok (if elem r rs then set_decisions (r ∷ []) (some ignore) bs else bs)
  unfolding restore
  restore-same r h [] bs e = refl
  restore-same r h (x ∷ rs) bs e = elim (Bool-cases (x == r)) [
    | inl q ↦
        let same : x ≡ r = ground arith in
        let marked = set_decisions (x ∷ []) (some ignore) bs in
        rw q (
          rw (ap (hash_batch hashing sh) same ∙ e)
            (rw (==_refl h) (rw (restore-same r h rs marked e) (ap ok (again x same (elem r rs))))))
    | inr q ↦ rw q (restore-same r h rs bs e)
  ]
    where
      again :
          (y : ℕ)
          → y ≡ r
          → (c : Bool)
          → (if c
              then set_decisions (r ∷ []) (some ignore) (set_decisions (y ∷ []) (some ignore) bs)
              else set_decisions (y ∷ []) (some ignore) bs)
            ≡ set_decisions (r ∷ []) (some ignore) bs
      again y q true = rw q (
          set_decisions-twice (r ∷ []) (r ∷ []) (some ignore) bs
          ∙ set_decisions-ext (r ∷ r ∷ []) (r ∷ []) (some ignore) bs (λ v. ground arith))
      again y q false = rw q refl

  -- Where the hashes are those of the batches, each batch whose root is a key is ignored.
  restored :
      (d : List (ℕ × ℕ)) (bs : List Batch)
      → Holds d
      → apply_previous_ignore_state sh hashing d bs ≡ ok (set_decisions (keys d) (some ignore) bs)
  unfolding apply_previous_ignore_state
  restored [] bs a =
      ap ok (sym (set_decisions-absent [] (some ignore) bs (λ r m. absurd (ground arith))))
  restored ((r, h) ∷ d) bs (e, a) =
      rw (restore-same r h (roots bs) bs e)
        (by_found (λ l. restored d l a) (elem r (roots bs)) refl)
    where
      by_found :
          ((l : List Batch)
            → apply_previous_ignore_state sh hashing d l
              ≡ ok (set_decisions (keys d) (some ignore) l))
          → (c : Bool) → elem r (roots bs) ≡ c
          → apply_previous_ignore_state sh hashing d
              (if c then set_decisions (r ∷ []) (some ignore) bs else bs)
            ≡ ok (set_decisions (r ∷ keys d) (some ignore) bs)
      by_found go true m =
          go (set_decisions (r ∷ []) (some ignore) bs)
          ∙ ap ok (set_decisions-twice (keys d) (r ∷ []) (some ignore) bs)
      by_found go false m =
          go bs
          ∙ ap ok (
              ap (set_decisions (keys d) (some ignore)) (
                sym (
                  set_decisions-absent (r ∷ []) (some ignore) bs (λ v n.
                    let same : r ≡ v = ground arith in ap (λ k. elem k (roots bs)) (sym same) ∙ m)))
              ∙ set_decisions-twice (keys d) (r ∷ []) (some ignore) bs)

  Holds-set_hash :
      (r h : ℕ) (d : List (ℕ × ℕ))
      → hash_batch hashing sh r ≡ ok h
      → Holds d
      → Holds (set_hash r h d)
  unfolding set_hash
  Holds-set_hash r h [] e a = (e, tt)
  Holds-set_hash r h ((k, g) ∷ d) e (f, a) =
      if_both Holds (k == r) (e, a) (f, Holds-set_hash r h d e a)

  elem-set_hash :
      (v r h : ℕ) (d : List (ℕ × ℕ)) → elem v (keys (set_hash r h d)) ≡ elem v (keys d) || (r == v)
  unfolding set_hash
  elem-set_hash v r h [] = ground arith
  elem-set_hash v r h ((k, g) ∷ d) = ground (arith, elem-set_hash v r h d)

  -- What is recorded in a state by its dict: hashes of batches, and the keys.
  recorded :
      (hashes : List (ℕ × ℕ)) (s : ResolvedSyncState)
      → Holds hashes
      → Holds s.ignored_batches
      → Holds (ignored_hashes sh hashing hashes s).ignored_batches
        × ((v : ℕ)
            → elem v (keys (ignored_hashes sh hashing hashes s).ignored_batches)
              ≡ elem v (keys s.ignored_batches) || elem v (keys hashes))
  unfolding ignored_hashes add_ignored
  recorded [] s a b = (b, λ v. ground arith)
  recorded ((r, h) ∷ hashes) s (e, a) b =
      let (holds, listed) =
        recorded hashes (add_ignored r h s) a (Holds-set_hash r h s.ignored_batches e b) in
      (holds, λ v. ground (arith, listed v, elem-set_hash v r h s.ignored_batches))

  hashed :
      (rs : List ℕ) (hashes : List (ℕ × ℕ))
      → add_all_ignored sh hashing rs ≡ ok hashes
      → Holds hashes × (keys hashes ≡ rs)
  unfolding add_all_ignored
  hashed [] hashes e = let same : [] ≡ hashes = cc in rw (← same) (tt, refl)
  hashed (r ∷ rs) hashes e = elim (Result-cases (hash_batch hashing sh r)) [
    | inr (x, f) ↦ absurd (ground arith)
    | inl (h, f) ↦ elim (Result-cases (add_all_ignored sh hashing rs)) [
      | inr (x, g) ↦ absurd (ground arith)
      | inl (more, g) ↦
          let step : add_all_ignored sh hashing (r ∷ rs) ≡ ok ((r, h) ∷ more) = rw f (rw g refl) in
          let same : (r, h) ∷ more ≡ hashes = cc in
          let (holds, listed) = hashed rs more g in rw (← same) ((f, holds), ap (λ l. r ∷ l) listed)
    ]
  ]

  start_states :
      ((create_new_resolved_states sh).0.ignored_batches ≡ [])
      × ((create_new_resolved_states sh).1.ignored_batches ≡ [])
  unfolding create_new_resolved_states
  start_states = by_direction sh.sync_direction
    where
      by_direction :
          (d : Option SyncDirection)
          → ((source_target d
                (new_resolved sh.low_server_uid low_side)
                (new_resolved sh.high_server_uid high_side)).0.ignored_batches
              ≡ [])
            × ((source_target d
                  (new_resolved sh.low_server_uid low_side)
                  (new_resolved sh.high_server_uid high_side)).1.ignored_batches
                ≡ [])
      by_direction none = (refl, refl)
      by_direction (some SyncDirection.low_to_high) = (refl, refl)
      by_direction (some SyncDirection.high_to_low) = (refl, refl)

  sent_hashes-sent :
      (rs : List ℕ) (source : Result DiffError ℕ) (states : ResolvedSyncState × ResolvedSyncState)
      → sent_ignored sh hashing rs source ≡ ok (some states)
      → (hashes : List (ℕ × ℕ)) × (add_all_ignored sh hashing rs ≡ ok hashes)
        × (states.0 ≡ ignored_hashes sh hashing hashes (create_new_resolved_states sh).0)
        × (states.1 ≡ ignored_hashes sh hashing hashes (create_new_resolved_states sh).1)
  unfolding sent_ignored sent_hashes sent
  sent_hashes-sent rs (err x) states e = absurd (ground arith)
  sent_hashes-sent rs (ok source) states e = elim (Result-cases (add_all_ignored sh hashing rs)) [
    | inr (x, f) ↦ absurd (ground arith)
    | inl (hashes, f) ↦
        let at = create_new_resolved_states sh in
        let step : sent_ignored sh hashing rs (ok source)
            ≡ ok (
                some
                  (ignored_hashes sh hashing hashes at.0, ignored_hashes sh hashing hashes at.1)) =
          rw f refl in
        let same : (ignored_hashes sh hashing hashes at.0, ignored_hashes sh hashing hashes at.1)
            ≡ states =
          cc in
        (
          hashes,
          f,
          sym (ap (λ (m : ResolvedSyncState × ResolvedSyncState). m.0) same),
          sym (ap (λ (m : ResolvedSyncState × ResolvedSyncState). m.1) same),
        )
  ]

  -- A state that records the hashes of batches ignores these again.
  restored_from :
      (rs : List ℕ) (hashes : List (ℕ × ℕ)) (start s : ResolvedSyncState) (bs : List Batch)
      → add_all_ignored sh hashing rs ≡ ok hashes
      → start.ignored_batches ≡ []
      → s ≡ ignored_hashes sh hashing hashes start
      → apply_previous_ignore_state sh hashing s.ignored_batches bs
        ≡ ok (set_decisions rs (some ignore) bs)
  restored_from rs hashes start s bs f z e =
      let (holds, listed) = hashed rs hashes f in
      let (all, keyed) = recorded hashes start holds (rw z tt) in
      rw e (
        restored (ignored_hashes sh hashing hashes start).ignored_batches bs all
        ∙ ap ok
            (set_decisions-ext _ rs (some ignore) bs (λ v. keyed v ∙ rw z (ap (elem v) listed))))

  -- What `handle_ignore_batch` sends to the two servers, the next comparison restores: as long as the
  -- hashes of the batches are what they were, exactly the roots that it ignored are ignored again.
  pub apply_previous-handle_ignore :
      (b : Batch) (all after : List Batch) (sent : ResolvedSyncState × ResolvedSyncState)
      → handle_ignore_batch sh hashing b all ≡ (after, ok (some sent))
      → (ids : List ℕ) × (after ≡ set_decisions ids (some ignore) all)
        × ((bs : List Batch)
            → (apply_previous_ignore_state sh hashing sent.0.ignored_batches bs
                ≡ ok (set_decisions ids (some ignore) bs))
              × (apply_previous_ignore_state sh hashing sent.1.ignored_batches bs
                  ≡ ok (set_decisions ids (some ignore) bs)))
  apply_previous-handle_ignore b all after sent e =
      let (found, f, a, s) = handle_ignore-sent sh hashing b all after sent e in
      let ids = b.root_id ∷ roots found in
      let (hashes, g, l, h) = sent_hashes-sent ids (source_server_uid sh) sent s in
      (
        ids,
        a ∙ set_decisions-twice (roots found) (b.root_id ∷ []) (some ignore) all,
        λ bs. (
          restored_from ids hashes (create_new_resolved_states sh).0 sent.0 bs g start_states.0 l,
          restored_from ids hashes (create_new_resolved_states sh).1 sent.1 bs g start_states.1 h,
        ),
      )
