-- ===== src/Sync/Examples.antt =====
-- The theorems on synchronisation at a concrete comparison: on the high side a request 1 and a job 3
-- for the user code 2, and the log 4 of the job; the low side has none of them.
use py_syft.Prelude.{
  inl, ℕ, ◌≡◌, ◌↔◌, refl, true, false, not, ◌&&◌, ◌||◌, none, some, List, [], ◌∷◌, elem, leb, ltb,
  ◌==◌, arith,
}
use py_syft.Prelude.Result.{ok, err}
use py_syft.Sync.Objects.{
  high_to_low, ignore, is_ignore, Side, low_side, high_side, Kind, user_code, request, syft_log,
  job, ObjectDiff, new, from_lists, key_error,
}
use py_syft.Sync.Graph.{walk_ids, rounds, all_targets, edges_at}
use py_syft.Sync.Walk.{Reaches, walk_ids_lem, rounds_end}
use py_syft.Sync.Resolved.{ResolvedSyncState, new_resolved}
use py_syft.Sync.Batch.{
  Shared, Batch, Hashing, diff_at, get_dependencies, dependency_ids, dependent_ids,
  create_new_resolved_states, source_server_uid,
}
use py_syft.Sync.Ignore.{
  set_decisions, overlap, get_other_ignore_batches, handle_ignore_batch, add_all_ignored,
  handle_unignore_batch, apply_previous_ignore_state, ignore_high_side_code, is_high_code,
}
use py_syft.Sync.Ignoring.{handle_ignore_batch_lem}
use py_syft.Sync.Unignoring.{handle_unignore_batch_lem}
use py_syft.Sync.Decisions.{decision_of}
use py_syft.Sync.Restoring.{apply_previous-handle_ignore}
use py_syft.Sync.Server.{current_ignored}
use py_syft.Sync.Staying.{apply_previous-handle_unignore}
use py_syft.Sync.Hiding.{ignore_high_side_code_lem}
use py_syft.Sync.Listing.{differ_at, from_lists_lem}
use py_syft.Sync.Sort.{sort_batches}
use py_syft.Sync.Sorting.{occurs, occurs-sort_batches}
use py_syft.Sync.Missing.{get_dependencies-raises}

-- An object that only the high side has.
abbrev pub only_high : ℕ → Kind → ℕ × ObjectDiff
only_high i k = (
  i,
  record {
    low_obj = none;
    high_obj = some (record { id = i; kind = k; attrs = [] });
    low_server_uid = 100;
    high_server_uid = 200;
    low_storage_permissions = [];
    high_storage_permissions = 200 ∷ [];
    low_status = some new;
    high_status = some new;
    last_sync_date_low = none;
    last_sync_dat_high = none;
    diff_list = [];
  },
)

abbrev pub shared : Shared
shared = record {
  global_diffs =
      only_high 1 request
      ∷ only_high 2 (user_code low_side)
      ∷ only_high 3 (job none false)
      ∷ only_high 4 syft_log
      ∷ [];
  global_roots = 1 ∷ 2 ∷ 3 ∷ [];
  dependencies = (1, 2 ∷ []) ∷ (3, 2 ∷ 4 ∷ []) ∷ [];
  dependents = (2, 1 ∷ 3 ∷ []) ∷ (4, 3 ∷ []) ∷ [];
  low_server_uid = 100;
  high_server_uid = 200;
  sync_direction = some high_to_low;
}

abbrev pub open_batch : ℕ → Batch
open_batch r = record { root_id = r; decision = none }

abbrev pub all_batches : List Batch
all_batches = open_batch 1 ∷ open_batch 2 ∷ open_batch 3 ∷ []

abbrev plain : Hashing
plain = record { of_diff = λ d. 1; reduce = λ n. n }

walk_ids_lem_example :
    (ids : List ℕ) × (walk_ids shared.dependencies shared.global_roots 3 false true ≡ some ids)
    × ((y : ℕ)
        → (elem y ids ≡ true)
          ↔ Reaches shared.dependencies shared.global_roots 3 y × ((true || not (y == 3)) ≡ true))
walk_ids_lem_example = walk_ids_lem shared.dependencies shared.global_roots 3 false true

rounds_end_example :
    (found : List ℕ × List ℕ) × (rounds shared.dependencies shared.global_roots 5
        (3 ∷ [])
        (3 ∷ [])
        []
      ≡ some found)
unfolding all_targets
rounds_end_example = rounds_end shared.dependencies shared.global_roots 3 5 (omega arith)

ids_of_3 : walk_ids shared.dependencies shared.global_roots 3 false true ≡ some (3 ∷ 2 ∷ 4 ∷ [])
unfolding walk_ids
ids_of_3 = refl

abbrev pub ignored_batch : ℕ → Batch
ignored_batch r = record { root_id = r; decision = some ignore }

-- A resolved state with the hashes of ignored batches, or the roots of those that are not any more.
abbrev ignoring : ℕ → Side → List (ℕ × ℕ) → ResolvedSyncState
ignoring uid side hashes = record (new_resolved uid side) { ignored_batches = hashes }

abbrev unignoring : ℕ → Side → List ℕ → ResolvedSyncState
unignoring uid side ids = record (new_resolved uid side) { unignored_batches = ids }

ignored_3 : handle_ignore_batch shared plain (open_batch 3) all_batches ≡ (
  open_batch 1 ∷ open_batch 2 ∷ ignored_batch 3 ∷ [],
  ok (some (ignoring 200 high_side ((3, 1) ∷ []), ignoring 100 low_side ((3, 1) ∷ []))),
)
unfolding handle_ignore_batch get_other_ignore_batches source_server_uid add_all_ignored
    create_new_resolved_states dependency_ids dependent_ids
ignored_3 = refl

ignored_2 : handle_ignore_batch shared plain (open_batch 2) all_batches ≡ (
  ignored_batch 1 ∷ ignored_batch 2 ∷ ignored_batch 3 ∷ [],
  ok (
      some (
        ignoring 200 high_side ((2, 3) ∷ (1, 1) ∷ (3, 1) ∷ []),
        ignoring 100 low_side ((2, 3) ∷ (1, 1) ∷ (3, 1) ∷ []),
      )),
)
unfolding handle_ignore_batch get_other_ignore_batches source_server_uid add_all_ignored
    create_new_resolved_states dependency_ids dependent_ids
ignored_2 = refl

dependencies_1 : dependency_ids shared 1 ≡ ok (1 ∷ 2 ∷ [])
unfolding dependency_ids
dependencies_1 = refl

dependents_3 : dependent_ids shared 3 ≡ ok (3 ∷ [])
unfolding dependent_ids
dependents_3 = refl

handle_ignore_batch_lem_example : overlap (1 ∷ 2 ∷ []) (3 ∷ []) ≡ false
handle_ignore_batch_lem_example =
    handle_ignore_batch_lem shared plain (open_batch 3) all_batches
      (open_batch 1 ∷ open_batch 2 ∷ ignored_batch 3 ∷ [])
      (ignoring 200 high_side ((3, 1) ∷ []), ignoring 100 low_side ((3, 1) ∷ [])) 1 (1 ∷ 2 ∷ [])
      (3 ∷ []) ignored_3 refl refl dependencies_1 dependents_3

unignored_1 :
    handle_unignore_batch shared
      (ignored_batch 1)
      (ignored_batch 1 ∷ ignored_batch 2 ∷ ignored_batch 3 ∷ [])
    ≡ (
      open_batch 1 ∷ open_batch 2 ∷ ignored_batch 3 ∷ [],
      ok (some (unignoring 200 high_side (1 ∷ 2 ∷ []), unignoring 100 low_side (1 ∷ 2 ∷ []))),
    )
unfolding handle_unignore_batch source_server_uid create_new_resolved_states dependency_ids
unignored_1 = refl

handle_unignore_batch_lem_example :
    is_ignore (decision_of 2 (open_batch 1 ∷ open_batch 2 ∷ ignored_batch 3 ∷ [])) ≡ false
handle_unignore_batch_lem_example =
    handle_unignore_batch_lem shared (ignored_batch 1)
      (ignored_batch 1 ∷ ignored_batch 2 ∷ ignored_batch 3 ∷ [])
      (open_batch 1 ∷ open_batch 2 ∷ ignored_batch 3 ∷ [])
      (unignoring 200 high_side (1 ∷ 2 ∷ []), unignoring 100 low_side (1 ∷ 2 ∷ [])) 2 (1 ∷ 2 ∷ [])
      unignored_1 dependencies_1 refl

apply_previous-handle_ignore_example :
    (ids : List ℕ) × (ignored_batch 1 ∷ ignored_batch 2 ∷ ignored_batch 3 ∷ []
      ≡ set_decisions ids (some ignore) all_batches)
    × ((bs : List Batch)
        → (apply_previous_ignore_state shared plain ((2, 3) ∷ (1, 1) ∷ (3, 1) ∷ []) bs
            ≡ ok (set_decisions ids (some ignore) bs))
          × (apply_previous_ignore_state shared plain ((2, 3) ∷ (1, 1) ∷ (3, 1) ∷ []) bs
              ≡ ok (set_decisions ids (some ignore) bs)))
apply_previous-handle_ignore_example =
    apply_previous-handle_ignore shared plain (open_batch 2) all_batches
      (ignored_batch 1 ∷ ignored_batch 2 ∷ ignored_batch 3 ∷ [])
      (
        ignoring 200 high_side ((2, 3) ∷ (1, 1) ∷ (3, 1) ∷ []),
        ignoring 100 low_side ((2, 3) ∷ (1, 1) ∷ (3, 1) ∷ []),
      )
      ignored_2

-- A code that comes from the high side: the batches that depend on it are ignored with it.
abbrev high_shared : Shared
high_shared = record shared {
  global_diffs =
      only_high 1 request
      ∷ only_high 2 (user_code high_side)
      ∷ only_high 3 (job none false)
      ∷ only_high 4 syft_log
      ∷ [];
}

hidden :
    ignore_high_side_code high_shared all_batches
    ≡ ok (ignored_batch 1 ∷ ignored_batch 2 ∷ ignored_batch 3 ∷ [])
unfolding ignore_high_side_code dependency_ids dependent_ids
hidden = refl

ignore_high_side_code_lem_example :
    is_ignore (decision_of 2 (ignored_batch 1 ∷ ignored_batch 2 ∷ ignored_batch 3 ∷ [])) ≡ true
unfolding is_high_code
ignore_high_side_code_lem_example =
    ignore_high_side_code_lem high_shared all_batches
      (ignored_batch 1 ∷ ignored_batch 2 ∷ ignored_batch 3 ∷ []) 2 hidden refl refl

-- Two lists that differ at 1, where the first is longer.
from_lists_lem_example :
    (elem 1 (from_lists ◌==◌ (5 ∷ 6 ∷ 7 ∷ []) (5 ∷ 8 ∷ [])).diff_ids
      ≡ differ_at ◌==◌ (5 ∷ 6 ∷ 7 ∷ []) (5 ∷ 8 ∷ []) 1)
    × (elem 1 (from_lists ◌==◌ (5 ∷ 6 ∷ 7 ∷ []) (5 ∷ 8 ∷ [])).new_low_ids ≡ leb 2 1 && ltb 1 3)
    × (elem 1 (from_lists ◌==◌ (5 ∷ 6 ∷ 7 ∷ []) (5 ∷ 8 ∷ [])).new_high_ids ≡ leb 3 1 && ltb 1 2)
from_lists_lem_example = from_lists_lem ◌==◌ (5 ∷ 6 ∷ 7 ∷ []) (5 ∷ 8 ∷ []) 1

sorted : sort_batches shared all_batches ≡ ok (open_batch 2 ∷ open_batch 1 ∷ open_batch 3 ∷ [])
unfolding sort_batches get_dependencies diff_at
sorted = refl

occurs-sort_batches_example :
    occurs 3 (open_batch 2 ∷ open_batch 1 ∷ open_batch 3 ∷ []) ≡ occurs 3 all_batches
occurs-sort_batches_example =
    occurs-sort_batches shared 3 all_batches (open_batch 2 ∷ open_batch 1 ∷ open_batch 3 ∷ [])
      sorted

-- The job's log has no diff: it is on the target only.
abbrev torn : Shared
torn = record shared {
  global_diffs =
      only_high 1 request ∷ only_high 2 (user_code low_side) ∷ only_high 3 (job none false) ∷ [];
}

get_dependencies-raises_example : get_dependencies torn 3 true true ≡ err key_error
unfolding edges_at diff_at
get_dependencies-raises_example =
    get_dependencies-raises torn 3 true 4 (Reaches.from_root refl) refl

-- The batch 1 was ignored on the high side before; after `unignored_1` only 3 is.
restored_3 :
    apply_previous_ignore_state shared plain
      (current_ignored ((1, 1) ∷ (2, 3) ∷ (3, 1) ∷ []) (unignoring 200 high_side (1 ∷ 2 ∷ [])))
      all_batches
    ≡ ok (open_batch 1 ∷ open_batch 2 ∷ ignored_batch 3 ∷ [])
unfolding apply_previous_ignore_state current_ignored
restored_3 = refl

apply_previous-handle_unignore_example :
    is_ignore (decision_of 1 (open_batch 1 ∷ open_batch 2 ∷ ignored_batch 3 ∷ [])) ≡ false
apply_previous-handle_unignore_example =
    apply_previous-handle_unignore shared plain (ignored_batch 1)
      (ignored_batch 1 ∷ ignored_batch 2 ∷ ignored_batch 3 ∷ [])
      (open_batch 1 ∷ open_batch 2 ∷ ignored_batch 3 ∷ [])
      (unignoring 200 high_side (1 ∷ 2 ∷ []), unignoring 100 low_side (1 ∷ 2 ∷ []))
      (unignoring 200 high_side (1 ∷ 2 ∷ [])) ((1, 1) ∷ (2, 3) ∷ (3, 1) ∷ []) all_batches
      (open_batch 1 ∷ open_batch 2 ∷ ignored_batch 3 ∷ []) unignored_1 (inl refl) refl restored_3
