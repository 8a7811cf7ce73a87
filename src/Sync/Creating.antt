-- ===== src/Sync/Creating.antt =====
-- service/sync/diff_state.py, `from_sync_state` and `_create_batches`; service/sync/sync_state.py,
-- the objects and dependencies of a state.
use py_syft.Prelude.{
  ℕ, Bool, true, false, not, Option, none, some, List, [], ◌∷◌, ◌++◌, elem, filter, ◌==◌,
  if◌then◌else◌,
}
use py_syft.Prelude.Result.{Result, ok, err, ◌>>=◌}
use py_syft.Sync.Objects.{
  SyncDirection, low_to_high, Kind, user_code, request, twin_api_endpoint, job, SyncObject,
  ObjectDiff, new, from_objects, non_empty_object, object_id, DiffError, no_attribute,
}
use py_syft.Sync.Graph.{Edges, to_set, dependencies_from_states, dependents_from}
use py_syft.Sync.Batch.{Shared, Batch, Hashing}
use py_syft.Sync.Ignore.{apply_previous_ignore_state, ignore_high_side_code}

-- `SyncState`: dicts as lists of keys and values.
pub record SyncState : Type 0 where
  pub server_uid : ℕ
  pub objects : List (ℕ × SyncObject)
  pub dependencies : Edges
  pub storage_permissions : Edges
  pub ignored_batches : List (ℕ × ℕ)
  pub object_sync_dates : List (ℕ × ℕ)

-- `d.get(k, None)`
unfoldable pub get {ℓ} : {A : Type ℓ} → ℕ → List (ℕ × A) → Option A
get k [] = none
get k ((j, a) ∷ d) = if j == k then some a else get k d

abbrev pub or_empty : Option (List ℕ) → List ℕ
or_empty none = []
or_empty (some xs) = xs

abbrev pub object_keys {ℓ} : {A : Type ℓ} → List (ℕ × A) → List ℕ
object_keys [] = []
object_keys ((k, a) ∷ d) = k ∷ object_keys d

-- `add_objects`: `self.objects[obj.id] = obj`
unfoldable pub put {ℓ} : {A : Type ℓ} → ℕ → A → List (ℕ × A) → List (ℕ × A)
put k a [] = (k, a) ∷ []
put k a ((j, b) ∷ d) = let rest = put k a d in if j == k then (k, a) ∷ d else (j, b) ∷ rest

unfoldable pub put_objects : List SyncObject → List (ℕ × SyncObject) → List (ℕ × SyncObject)
unfolding put
put_objects [] d = d
put_objects (o ∷ os) d = put_objects os (put o.id o d)

-- `get_sync_dependencies` of the objects that have it.
module _ (sync_dependencies : SyncObject → List ℕ) where
  abbrev is_known : List ℕ → ℕ → Bool
  is_known all_ids d = elem d all_ids

  abbrev with_dependencies : ℕ → List ℕ → Edges → Edges
  with_dependencies k [] deps = deps
  with_dependencies k (x ∷ xs) deps = (k, x ∷ xs) ∷ deps

  -- `_build_dependencies`
  unfoldable pub build_dependencies : List ℕ → List (ℕ × SyncObject) → Edges
  build_dependencies all_ids [] = []
  build_dependencies all_ids ((k, o) ∷ objects) =
      with_dependencies o.id (filter (is_known all_ids) (sync_dependencies o))
        (build_dependencies all_ids objects)

  unfoldable pub add_objects : List SyncObject → SyncState → SyncState
  unfolding put_objects build_dependencies
  add_objects os s =
      let objects = put_objects os s.objects in
      record s {
        objects = objects;
        dependencies = build_dependencies (object_keys objects) objects;
      }

-- The object of the source, by the direction; `None` counts as from the high to the low side.
abbrev pub source_obj :
    Option SyncDirection → Option SyncObject → Option SyncObject → Option SyncObject
source_obj (some low_to_high) l h = l
source_obj _ l h = h

-- The `ObjectDiff` that `from_objects` first makes for an id, with the statuses `"NEW"`.
abbrev pub raw_diff : SyncState → SyncState → ℕ → ObjectDiff
unfolding get
raw_diff l h k = record {
  low_obj = get k l.objects;
  high_obj = get k h.objects;
  low_server_uid = l.server_uid;
  high_server_uid = h.server_uid;
  low_storage_permissions = or_empty (get k l.storage_permissions);
  high_storage_permissions = or_empty (get k h.storage_permissions);
  low_status = some new;
  high_status = some new;
  last_sync_date_low = get k l.object_sync_dates;
  last_sync_dat_high = get k h.object_sync_dates;
  diff_list = [];
}

abbrev id_of : ObjectDiff → Result DiffError ℕ
unfolding object_id
id_of d = elim (object_id d) [ none ↦ err no_attribute | some i ↦ ok i ]

module _ (equal : ℕ → ℕ → Bool) (direction : Option SyncDirection) (l h : SyncState) where
  -- The loop of `from_sync_state` over the ids of both states; an id that the source lacks is skipped.
  unfoldable pub diffs_of :
      List ℕ → List (ℕ × ObjectDiff) → Result DiffError (List (ℕ × ObjectDiff))
  unfolding get put from_objects id_of
  diffs_of [] diffs = ok diffs
  diffs_of (k ∷ ks) diffs =
      let passed = diffs_of ks diffs in
      let made =
        from_objects equal (raw_diff l h k) >>= λ d. id_of d >>= λ i. diffs_of ks (put i d diffs) in
      elim (source_obj direction (get k l.objects) (get k h.objects)) [
        | none ↦ passed
        | some o ↦ made
      ]

-- The test of `_create_batches` for roots.
abbrev pub is_root_kind : Kind → Bool
is_root_kind request = true
is_root_kind (user_code side) = true
is_root_kind twin_api_endpoint = true
is_root_kind (job none twin) = not twin
is_root_kind _ = false

abbrev pub is_root : Option SyncObject → Bool
is_root none = false
is_root (some o) = is_root_kind o.kind

-- `root_ids`
unfoldable pub root_ids : List (ℕ × ObjectDiff) → List ℕ
root_ids [] = []
root_ids ((k, d) ∷ diffs) =
    let rest = root_ids diffs in if is_root (non_empty_object d) then k ∷ rest else rest

abbrev new_batches : List ℕ → List Batch
new_batches [] = []
new_batches (r ∷ rs) = record { root_id = r; decision = none } ∷ new_batches rs

-- `_create_batches`, before the batches are sorted: what they have in common, and the batches.
unfoldable pub create_batches :
    Option SyncDirection → SyncState → SyncState → List (ℕ × ObjectDiff) → Shared × List Batch
unfolding root_ids dependencies_from_states dependents_from
create_batches direction l h diffs =
    let deps = dependencies_from_states l.dependencies h.dependencies in
    let roots = root_ids diffs in
    (
      record {
        global_diffs = diffs;
        global_roots = roots;
        dependencies = deps;
        dependents = dependents_from deps [];
        low_server_uid = l.server_uid;
        high_server_uid = h.server_uid;
        sync_direction = direction;
      },
      new_batches roots,
    )

-- The steps of `from_sync_state` before the filters, for the ids of both states; `sort` is
-- `_sort_batches`.
module _ (equal : ℕ → ℕ → Bool) (hashing : Hashing)
    (sort : Shared → List Batch → Result DiffError (List Batch)) where
  unfoldable pub from_sync_state :
      Option SyncDirection → SyncState → SyncState → Result DiffError (Shared × List Batch)
  unfolding diffs_of create_batches to_set apply_previous_ignore_state ignore_high_side_code
  from_sync_state direction l h =
      diffs_of equal direction l h (to_set (object_keys l.objects ++ object_keys h.objects)) []
      >>= λ diffs.
          let made = create_batches direction l h diffs in
          sort made.0 made.1 >>= λ bs.
          apply_previous_ignore_state made.0 hashing l.ignored_batches bs >>= λ restored.
          ignore_high_side_code made.0 restored >>= λ hidden. ok (made.0, hidden)
