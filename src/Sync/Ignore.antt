-- ===== src/Sync/Ignore.antt =====
-- client/syncing.py, the handlers that ignore and unignore batches, and the methods of
-- service/sync/diff_state.py that restore what was ignored.
use py_syft.Prelude.{
  ℕ, Bool, true, false, not, ◌&&◌, Option, none, some, List, [], ◌∷◌, ◌++◌, elem, filter, any, ◌==◌,
  if◌then◌else◌,
}
use py_syft.Prelude.Result.{Result, ok, err, ◌>>=◌}
use py_syft.Sync.Objects.{
  SyncDecision, ignore, is_ignore, high_side, user_code, SyncObject, ObjectDiff, non_empty_object,
  DiffError,
}
use py_syft.Sync.Resolved.{ResolvedSyncState, add_ignored, add_unignored}
use py_syft.Sync.Instructions.{SyncError, already_synced, diff_error}
use py_syft.Sync.Batch.{
  Shared, Batch, Hashing, diff_at, dependency_ids, dependent_ids, hash_batch,
  create_new_resolved_states, source_server_uid,
}

-- `batch.decision = d` of each batch whose root is among the ids.
unfoldable pub set_decisions : List ℕ → Option SyncDecision → List Batch → List Batch
set_decisions roots d [] = []
set_decisions roots d (b ∷ bs) =
    (if elem b.root_id roots then record b { decision = d } else b) ∷ set_decisions roots d bs

-- `[b for b in all_batches if b is not batch]`
abbrev pub others_of : ℕ → List Batch → List Batch
others_of root_id bs = filter (λ (b : Batch). not (b.root_id == root_id)) bs

abbrev pub roots : List Batch → List ℕ
roots [] = []
roots (b ∷ bs) = b.root_id ∷ roots bs

-- `len(xs & ys) != 0`
abbrev pub overlap : List ℕ → List ℕ → Bool
overlap xs ys = any (λ x. elem x ys) xs

-- The result of a handler: the states sent to the source and to the target, or nothing sent.
abbrev pub Sent : Type 0
Sent = Result SyncError (Option (ResolvedSyncState × ResolvedSyncState))

abbrev pub raised : {A : Type 0} → Result DiffError A → Result SyncError A
raised (ok a) = ok a
raised (err e) = err (diff_error e)

module _ (sh : Shared) where
  -- The loop of `get_other_ignore_batches`; what it finds counts as ignored for those that follow.
  unfoldable pub other_ignored : List ℕ → List Batch → Result DiffError (List Batch)
  unfolding dependency_ids
  other_ignored ignored_ids [] = ok []
  other_ignored ignored_ids (b ∷ bs) =
      let passed = other_ignored ignored_ids bs in
      let looked = dependency_ids sh b.root_id >>= λ is.
      let found = other_ignored (ignored_ids ++ is) bs >>= λ more. ok (b ∷ more) in
      if overlap is ignored_ids then found else passed in
      if is_ignore b.decision then passed else looked

  -- `get_other_ignore_batches`
  unfoldable pub get_other_ignore_batches : Batch → List Batch → Result DiffError (List Batch)
  unfolding other_ignored dependent_ids
  get_other_ignore_batches b others =
      let found = dependent_ids sh b.root_id >>= λ ids. other_ignored ids others in
      if is_ignore b.decision then found else ok []

  abbrev pub is_required : List ℕ → Batch → Bool
  is_required required b = is_ignore b.decision && elem b.root_id required

  abbrev is_decided : Option SyncDecision → Bool
  is_decided none = false
  is_decided (some d) = true

  -- `get_other_unignore_batches`
  unfoldable pub get_other_unignore_batches : Batch → List Batch → Result DiffError (List Batch)
  unfolding dependency_ids
  get_other_unignore_batches b others =
      let found =
        dependency_ids sh b.root_id >>= λ required. ok (filter (is_required required) others) in
      if is_decided b.decision then ok [] else found

  unfoldable pub add_all_unignored : List ℕ → ResolvedSyncState → ResolvedSyncState
  unfolding add_unignored
  add_all_unignored [] s = s
  add_all_unignored (r ∷ rs) s = add_all_unignored rs (add_unignored r s)

  -- The states of the source and the target, each with the change.
  unfoldable pub sent : (ResolvedSyncState → ResolvedSyncState) → Sent
  unfolding create_new_resolved_states
  sent change =
      let states = create_new_resolved_states sh in ok (some (change states.0, change states.1))

  unfoldable pub unignored : ℕ → List Batch → Result DiffError (List Batch) → List Batch × Sent
  unfolding set_decisions add_all_unignored sent
  unignored root_id bs (err e) = (bs, err (diff_error e))
  unignored root_id bs (ok others) =
      (set_decisions (roots others) none bs, sent (add_all_unignored (root_id ∷ roots others)))

  unfoldable pub unignore_with : Batch → List Batch → Result DiffError ℕ → List Batch × Sent
  unfolding set_decisions get_other_unignore_batches unignored
  unignore_with b bs (err e) = (bs, err (diff_error e))
  unignore_with b bs (ok source) =
      unignored b.root_id (set_decisions (b.root_id ∷ []) none bs)
        (get_other_unignore_batches (record b { decision = none }) (others_of b.root_id bs))

  -- `handle_unignore_batch`: the batches after it, and what is sent. Clients are made where there is
  -- a direction.
  unfoldable pub handle_unignore_batch : Batch → List Batch → List Batch × Sent
  unfolding source_server_uid unignore_with
  handle_unignore_batch b all_batches = unignore_with b all_batches (source_server_uid sh)

  -- `IgnoredBatchView.stage_change`
  unfoldable pub staged :
      List Batch → Result DiffError (List ℕ) → List Batch × Result DiffError (Unit {0})
  unfolding set_decisions
  staged bs (err e) = (bs, err e)
  staged bs (ok required) =
      (set_decisions (roots (filter (is_required required) bs)) none bs, ok tt)

  unfoldable pub stage_change : Batch → List Batch → List Batch × Result DiffError (Unit {0})
  unfolding dependency_ids set_decisions staged
  stage_change b all_batches =
      staged (set_decisions (b.root_id ∷ []) none all_batches) (dependency_ids sh b.root_id)

  -- `ignore_high_side_code`
  abbrev is_high_side_code : Option SyncObject → Bool
  is_high_side_code none = false
  is_high_side_code (some o) = elim o.kind [ user_code high_side ↦ true | _ ↦ false ]

  abbrev object_at : Option ObjectDiff → Option SyncObject
  object_at none = none
  object_at (some d) = non_empty_object d

  unfoldable pub is_high_code : ℕ → Bool
  unfolding diff_at
  is_high_code root_id = is_high_side_code (object_at (diff_at root_id sh.global_diffs))

  -- The loop over the batches, by their roots.
  unfoldable pub ignore_codes : List ℕ → List Batch → Result DiffError (List Batch)
  unfolding is_high_code set_decisions get_other_ignore_batches
  ignore_codes [] bs = ok bs
  ignore_codes (r ∷ rs) bs =
      let marked = set_decisions (r ∷ []) (some ignore) bs in
      let passed = ignore_codes rs bs in
      let found =
        get_other_ignore_batches (record { root_id = r; decision = some ignore }) marked
        >>= λ others. ignore_codes rs (set_decisions (roots others) (some ignore) marked) in
      if is_high_code r then found else passed

  unfoldable pub ignore_high_side_code : List Batch → Result DiffError (List Batch)
  unfolding ignore_codes
  ignore_high_side_code bs = ignore_codes (roots bs) bs

  module _ (hashing : Hashing) where
    -- `add_ignored` of each batch; its hash may raise.
    unfoldable pub add_all_ignored : List ℕ → Result DiffError (List (ℕ × ℕ))
    unfolding hash_batch
    add_all_ignored [] = ok []
    add_all_ignored (r ∷ rs) =
        hash_batch hashing sh r >>= λ h. add_all_ignored rs >>= λ more. ok ((r, h) ∷ more)

    unfoldable pub ignored_hashes : List (ℕ × ℕ) → ResolvedSyncState → ResolvedSyncState
    unfolding add_ignored
    ignored_hashes [] s = s
    ignored_hashes ((r, h) ∷ hashes) s = ignored_hashes hashes (add_ignored r h s)

    unfoldable pub sent_hashes : Result DiffError (List (ℕ × ℕ)) → Sent
    unfolding ignored_hashes sent
    sent_hashes (err e) = err (diff_error e)
    sent_hashes (ok hashes) = sent (ignored_hashes hashes)

    -- What is sent, once the clients are made.
    unfoldable pub sent_ignored : List ℕ → Result DiffError ℕ → Sent
    unfolding add_all_ignored sent_hashes
    sent_ignored rs (err e) = err (diff_error e)
    sent_ignored rs (ok source) = sent_hashes (add_all_ignored rs)

    unfoldable pub ignored_with : ℕ → List Batch → Result DiffError (List Batch) → List Batch × Sent
    unfolding set_decisions sent_ignored source_server_uid
    ignored_with root_id bs (err e) = (bs, err (diff_error e))
    ignored_with root_id bs (ok others) = (
      set_decisions (roots others) (some ignore) bs,
      sent_ignored (root_id ∷ roots others) (source_server_uid sh),
    )

    unfoldable pub by_decision : Option SyncDecision → ℕ → List Batch → List Batch × Sent
    unfolding set_decisions get_other_ignore_batches ignored_with
    by_decision (some ignore) root_id bs = (bs, ok none)
    by_decision (some d) root_id bs = (bs, err already_synced)
    by_decision none root_id bs =
        ignored_with root_id (set_decisions (root_id ∷ []) (some ignore) bs) (
          get_other_ignore_batches (record { root_id = root_id; decision = some ignore })
            (others_of root_id bs))

    -- `handle_ignore_batch`: the batches after it, and what is sent.
    unfoldable pub handle_ignore_batch : Batch → List Batch → List Batch × Sent
    unfolding by_decision
    handle_ignore_batch b all_batches = by_decision b.decision b.root_id all_batches

    -- The inner loops of `apply_previous_ignore_state`, for one entry of the dict.
    unfoldable pub restore : ℕ → ℕ → List ℕ → List Batch → Result DiffError (List Batch)
    unfolding hash_batch dependency_ids set_decisions
    restore root_id hash [] bs = ok bs
    restore root_id hash (r ∷ rs) bs =
        let changed = dependency_ids sh r >>= λ required.
        restore root_id hash rs (set_decisions (r ∷ []) none (set_decisions (required) none bs)) in
        let kept = restore root_id hash rs (set_decisions (r ∷ []) (some ignore) bs) in
        let found = hash_batch hashing sh r >>= λ h. if h == hash then kept else changed in
        let passed = restore root_id hash rs bs in if r == root_id then found else passed

    -- `apply_previous_ignore_state`
    unfoldable pub apply_previous_ignore_state :
        List (ℕ × ℕ) → List Batch → Result DiffError (List Batch)
    unfolding restore
    apply_previous_ignore_state [] bs = ok bs
    apply_previous_ignore_state ((root_id, hash) ∷ ignored) bs =
        restore root_id hash (roots bs) bs >>= apply_previous_ignore_state ignored
