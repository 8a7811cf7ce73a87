-- ===== src/Sync/Batch.antt =====
-- service/sync/diff_state.py, `ObjectDiffBatch`: the diffs that hang together with a root.
use py_syft.Prelude.{
  ℕ, ◌+◌, Bool, true, false, ◌&&◌, Option, none, some, List, [], ◌∷◌, ◌==◌, if◌then◌else◌,
}
use py_syft.Prelude.Result.{Result, ok, err, ◌>>=◌}
use py_syft.Sync.Objects.{
  SyncDirection, low_to_high, high_to_low, SyncDecision, low_side, high_side, ObjectDiff, Status,
  new, same, modified, status, object_id, DiffError, no_attribute, key_error, no_direction,
}
use py_syft.Sync.Graph.{Edges, walk_ids}
use py_syft.Sync.Resolved.{ResolvedSyncState, new_resolved}

-- The fields that the batches of one comparison have in common.
pub record Shared : Type 0 where
  pub global_diffs : List (ℕ × ObjectDiff)
  pub global_roots : List ℕ
  pub dependencies : Edges
  pub dependents : Edges
  pub low_server_uid : ℕ
  pub high_server_uid : ℕ
  pub sync_direction : Option SyncDirection

-- A batch: its `root_diff`, by its id, which no other batch has, and its decision.
pub record Batch : Type 0 where
  pub root_id : ℕ
  pub decision : Option SyncDecision

-- `self.global_diffs[r]`
unfoldable pub diff_at : ℕ → List (ℕ × ObjectDiff) → Option ObjectDiff
diff_at r [] = none
diff_at r ((k, d) ∷ diffs) = if k == r then some d else diff_at r diffs

abbrev pub or_key_error : Option ObjectDiff → Result DiffError ObjectDiff
or_key_error none = err key_error
or_key_error (some d) = ok d

unfoldable pub diffs_at : List ℕ → List (ℕ × ObjectDiff) → Result DiffError (List ObjectDiff)
unfolding diff_at
diffs_at [] diffs = ok []
diffs_at (r ∷ rs) diffs =
    or_key_error (diff_at r diffs) >>= λ d. diffs_at rs diffs >>= λ ds. ok (d ∷ ds)

-- `{d.object_id for d in ...}`
abbrev id_or_raise : Option ℕ → Result DiffError ℕ
id_or_raise none = err no_attribute
id_or_raise (some i) = ok i

unfoldable pub object_ids : List ObjectDiff → Result DiffError (List ℕ)
unfolding object_id
object_ids [] = ok []
object_ids (d ∷ ds) = id_or_raise (object_id d) >>= λ i. object_ids ds >>= λ is. ok (i ∷ is)

abbrev is_same : Status → Bool
is_same same = true
is_same _ = false

abbrev all_same : List ObjectDiff → Bool
unfolding status
all_same [] = true
all_same (d ∷ ds) = is_same (status d) && all_same ds

abbrev status_from : Status → Result DiffError (List ObjectDiff) → Result DiffError Status
status_from new diffs = ok new
status_from s diffs = diffs >>= λ ds. ok (if all_same ds then same else modified)

abbrev pub source_target :
    Option SyncDirection
    → ResolvedSyncState
    → ResolvedSyncState
    → ResolvedSyncState × ResolvedSyncState
source_target (some low_to_high) l h = (l, h)
source_target _ l h = (h, l)

abbrev source_uid : Option SyncDirection → ℕ → ℕ → Result DiffError ℕ
source_uid none l h = err no_direction
source_uid (some low_to_high) l h = ok l
source_uid (some high_to_low) l h = ok h

module _ (sh : Shared) where
  -- The walk ends, so that the case without an answer is never met.
  unfoldable pub looked_up : Option (List ℕ) → Result DiffError (List ObjectDiff)
  unfolding diffs_at
  looked_up none = ok []
  looked_up (some ids) = diffs_at ids sh.global_diffs

  -- `walk_graph`, of a batch by its root.
  unfoldable pub walk_graph : Edges → ℕ → Bool → Bool → Result DiffError (List ObjectDiff)
  unfolding walk_ids looked_up
  walk_graph deps root_id include_roots include_batch_root =
      looked_up (walk_ids deps sh.global_roots root_id include_roots include_batch_root)

  unfoldable pub get_dependencies : ℕ → Bool → Bool → Result DiffError (List ObjectDiff)
  unfolding walk_graph
  get_dependencies = walk_graph sh.dependencies

  unfoldable pub get_dependents : ℕ → Bool → Bool → Result DiffError (List ObjectDiff)
  unfolding walk_graph
  get_dependents = walk_graph sh.dependents

  -- `{d.object_id for d in batch.get_dependencies(include_roots=True)}`
  unfoldable pub dependency_ids : ℕ → Result DiffError (List ℕ)
  unfolding get_dependencies object_ids
  dependency_ids root_id = get_dependencies root_id true true >>= object_ids

  -- `{x.object_id for x in batch.get_dependents(include_roots=False)}`
  unfoldable pub dependent_ids : ℕ → Result DiffError (List ℕ)
  unfolding get_dependents object_ids
  dependent_ids root_id = get_dependents root_id false true >>= object_ids

  -- `status` of a batch
  unfoldable pub batch_status : ObjectDiff → ℕ → Result DiffError Status
  unfolding status get_dependencies
  batch_status root_diff root_id =
      status_from (status root_diff) (get_dependencies root_id false true)

  -- `create_new_resolved_states`: those of the source and of the target.
  unfoldable pub create_new_resolved_states : ResolvedSyncState × ResolvedSyncState
  create_new_resolved_states =
      source_target sh.sync_direction (new_resolved sh.low_server_uid low_side)
        (new_resolved sh.high_server_uid high_side)

  -- `source_server_uid` and `target_server_uid`
  unfoldable pub source_server_uid : Result DiffError ℕ
  source_server_uid = source_uid sh.sync_direction sh.low_server_uid sh.high_server_uid

  unfoldable pub target_server_uid : Result DiffError ℕ
  target_server_uid = source_uid sh.sync_direction sh.high_server_uid sh.low_server_uid

-- `hash` of an `ObjectDiff`, and what `hash` makes of the sum that `__hash__` of a batch returns.
pub record Hashing : Type 0 where
  pub of_diff : ObjectDiff → ℕ
  pub reduce : ℕ → ℕ

module _ (hashing : Hashing) where
  abbrev pub sum_hashes : List ObjectDiff → ℕ
  sum_hashes [] = 0
  sum_hashes (d ∷ ds) = hashing.of_diff d + sum_hashes ds

  -- `hash(batch)`
  unfoldable pub hash_batch : Shared → ℕ → Result DiffError ℕ
  unfolding get_dependents
  hash_batch sh root_id =
      get_dependents sh root_id false true >>= λ ds. ok (hashing.reduce (sum_hashes ds))
