-- ===== src/Sync/Parts.antt =====
-- The parts of a run of `handle_sync_batch` of client/syncing.py: the instructions and the states.
use py_syft.Prelude.{
  ℕ, ◌≡◌, inl, inr, refl, sym, ap, ◌∙◌, true, Option, none, some, List, [], ◌∷◌, arith,
}
use py_syft.Prelude.Result.{Result, ok, err, Result-cases}
use py_syft.Sync.Objects.{
  SyncDirection, SyncDecision, to_sync_decision, Attr, ObjectDiff, Status, new, modified, DiffError,
}
use py_syft.Sync.Resolved.{ResolvedSyncState}
use py_syft.Sync.Instructions.{SyncInstruction}
use py_syft.Sync.Batch.{Shared, Batch, get_dependencies, create_new_resolved_states, batch_status}
use py_syft.Sync.Ignore.{Sent, set_decisions}
use py_syft.Sync.Handle.{
  Choices, share_to_user, instructions, add_all, resolve, resolve_diffs, sync_decided, sync_changed,
  sync_directed, handle_sync_batch,
}
use py_syft.Sync.Decisions.{raises-not-sent}

-- The parts of a run of `handle_sync_batch` that sends states.
module _ (sh : Shared) (mocks : ℕ → List (ℕ × Attr)) (c : Choices) where
  abbrev pub Resolves :
      SyncDirection → List ObjectDiff → ResolvedSyncState × ResolvedSyncState → Type 0
  Resolves direction ds states =
      (is : List SyncInstruction) × (instructions c direction (share_to_user c ds) ds ≡ ok is)
      × (add_all mocks is (create_new_resolved_states sh).0 ≡ ok states.0)
      × (add_all mocks is (create_new_resolved_states sh).1 ≡ ok states.1)

  resolve-parts :
      (direction : SyncDirection) (ds : List ObjectDiff)
      (states : ResolvedSyncState × ResolvedSyncState)
      → resolve sh mocks c direction ds ≡ ok (some states)
      → Resolves direction ds states
  unfolding resolve
  resolve-parts direction ds states e =
      elim (Result-cases (instructions c direction (share_to_user c ds) ds)) [
        | inr (x, f) ↦
            let at : err x ≡ ok (some states) = sym (rw f refl) ∙ e in absurd (ground arith)
        | inl (is, f) ↦ elim (Result-cases (add_all mocks is (create_new_resolved_states sh).0)) [
          | inr (x, g) ↦
              let at : err x ≡ ok (some states) = sym (rw f (rw g refl)) ∙ e in
              absurd (ground arith)
          | inl (source, g) ↦
              elim (Result-cases (add_all mocks is (create_new_resolved_states sh).1)) [
                | inr (x, h) ↦
                    let at : err x ≡ ok (some states) = sym (rw f (rw g (rw h refl))) ∙ e in
                    absurd (ground arith)
                | inl (target, h) ↦
                    let at : ok (some (source, target)) ≡ ok (some states) =
                      sym (rw f (rw g (rw h refl))) ∙ e in
                    let eq : (source, target) ≡ states = cc in
                    (
                      is,
                      f,
                      g ∙ ap (λ (m : ResolvedSyncState × ResolvedSyncState). ok m.0) eq,
                      h ∙ ap (λ (m : ResolvedSyncState × ResolvedSyncState). ok m.1) eq,
                    )
              ]
        ]
      ]

  diffs-parts :
      (direction : SyncDirection) (found : Result DiffError (List ObjectDiff))
      (states : ResolvedSyncState × ResolvedSyncState)
      → resolve_diffs sh mocks c direction found ≡ ok (some states)
      → (ds : List ObjectDiff) × (found ≡ ok ds) × Resolves direction ds states
  unfolding resolve_diffs
  diffs-parts direction (err x) states e = absurd (ground arith)
  diffs-parts direction (ok ds) states e = (ds, refl, resolve-parts direction ds states e)

  abbrev pub Syncs :
      SyncDirection
      → Batch
      → List Batch
      → List Batch
      → ResolvedSyncState × ResolvedSyncState
      → Type 0
  Syncs direction b all after states =
      (ds : List ObjectDiff) × (get_dependencies sh b.root_id true true ≡ ok ds)
      × (after ≡ set_decisions (b.root_id ∷ []) (some (to_sync_decision direction)) all)
      × Resolves direction ds states

  decided-parts :
      (direction : SyncDirection) (d : Option SyncDecision) (b : Batch) (all after : List Batch)
      (states : ResolvedSyncState × ResolvedSyncState)
      → sync_decided sh mocks c direction b all d ≡ (after, ok (some states))
      → (d ≡ none) × Syncs direction b all after states
  unfolding sync_decided
  decided-parts direction none b all after states e =
      let (ds, f, r) =
        diffs-parts direction (get_dependencies sh b.root_id true true) states
          (ap (λ (m : List Batch × Sent). m.1) e) in
      (refl, (ds, f, sym (ap (λ (m : List Batch × Sent). m.0) e), r))
  decided-parts direction (some SyncDecision.ignore) b all after states e =
      absurd (raises-not-sent e)
  decided-parts direction (some SyncDecision.skip) b all after states e = absurd (raises-not-sent e)
  decided-parts direction (some SyncDecision.low) b all after states e = absurd (raises-not-sent e)
  decided-parts direction (some SyncDecision.high) b all after states e = absurd (raises-not-sent e)

  changed-parts :
      (direction : SyncDirection) (st : Result DiffError Status) (b : Batch)
      (all after : List Batch) (states : ResolvedSyncState × ResolvedSyncState)
      → sync_changed sh mocks c direction b all st ≡ (after, ok (some states))
      → (b.decision ≡ none) × Syncs direction b all after states
  unfolding sync_changed
  changed-parts direction (err x) b all after states e = absurd (raises-not-sent e)
  changed-parts direction (ok Status.same) b all after states e =
      let at : ◌≡◌ {A = Sent} (ok none) (ok (some states)) =
        ap (λ (m : List Batch × Sent). m.1) e in
      absurd (ground arith)
  changed-parts direction (ok new) b all after states e =
      decided-parts direction b.decision b all after states e
  changed-parts direction (ok modified) b all after states e =
      decided-parts direction b.decision b all after states e

  directed-parts :
      (o : Option SyncDirection) (root_diff : ObjectDiff) (b : Batch) (all after : List Batch)
      (states : ResolvedSyncState × ResolvedSyncState)
      → sync_directed sh mocks c o root_diff b all ≡ (after, ok (some states))
      → (direction : SyncDirection) × (o ≡ some direction)
        × (b.decision ≡ none)
        × Syncs direction b all after states
  unfolding sync_directed
  directed-parts none root_diff b all after states e = absurd (raises-not-sent e)
  directed-parts (some direction) root_diff b all after states e =
      let (n, r) =
        changed-parts direction (batch_status sh root_diff b.root_id) b all after states e in
      (direction, refl, n, r)

  -- A batch is synced where it has no decision, and then has that of the direction.
  pub handle_sync-parts :
      (root_diff : ObjectDiff) (b : Batch) (all after : List Batch)
      (states : ResolvedSyncState × ResolvedSyncState)
      → handle_sync_batch sh mocks c root_diff b all ≡ (after, ok (some states))
      → (direction : SyncDirection) × (sh.sync_direction ≡ some direction)
        × (b.decision ≡ none)
        × Syncs direction b all after states
  unfolding handle_sync_batch
  handle_sync-parts root_diff b all after states e =
      directed-parts sh.sync_direction root_diff b all after states e

  -- The same for a known direction and the known diffs of the batch.
  pub handle_sync-Resolves :
      (root_diff : ObjectDiff) (b : Batch) (all after : List Batch)
      (states : ResolvedSyncState × ResolvedSyncState) (direction : SyncDirection)
      (ds : List ObjectDiff)
      → handle_sync_batch sh mocks c root_diff b all ≡ (after, ok (some states))
      → sh.sync_direction ≡ some direction
      → get_dependencies sh b.root_id true true ≡ ok ds
      → Resolves direction ds states
  handle_sync-Resolves root_diff b all after states direction ds e d g =
      let (dir, d', n, (ds', g', a, (is, f, x, y))) =
        handle_sync-parts root_diff b all after states e in
      let eq : dir ≡ direction = cc in
      let eqs : ds' ≡ ds = cc in (is, rw (← eq) (rw (← eqs) f), x, y)
