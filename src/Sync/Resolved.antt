-- ===== src/Sync/Resolved.antt =====
-- service/sync/diff_state.py, `SyncInstruction` and `ResolvedSyncState`; types/syncable_object.py.
use py_syft.Prelude.{
  ℕ, Bool, true, false, ◌&&◌, ◌||◌, Option, none, some, List, [], ◌∷◌, ◌++◌, elem, ◌==◌,
  if◌then◌else◌,
}
use py_syft.Prelude.Result.{Result, ok, err, ◌>>=◌}
use py_syft.Permission.{Permission}
use py_syft.Sync.Objects.{
  SyncDecision, low, high, is_ignore, is_skip, Side, low_side, high_side, side_eq, Attr, SyncObject,
  ObjectDiff, Status, new, same, modified, status,
}
use py_syft.Sync.Instructions.{
  type_of, OnServer, Permissions, SyncInstruction, SyncError, attribute_error,
}

pub record ResolvedSyncState : Type 0 where
  pub server_uid : ℕ
  pub alias : Side
  pub create_objs : List SyncObject
  pub update_objs : List SyncObject
  pub delete_objs : List SyncObject
  pub new_permissions : Permissions
  pub new_storage_permissions : List OnServer
  pub ignored_batches : List (ℕ × ℕ)
  pub unignored_batches : List ℕ

-- `ResolvedSyncState(server_uid=..., alias=...)`
abbrev pub new_resolved : ℕ → Side → ResolvedSyncState
new_resolved uid side = record {
  server_uid = uid;
  alias = side;
  create_objs = [];
  update_objs = [];
  delete_objs = [];
  new_permissions = [];
  new_storage_permissions = [];
  ignored_batches = [];
  unignored_batches = [];
}

-- `self.ignored_batches[root_id] = hash`
unfoldable pub set_hash : ℕ → ℕ → List (ℕ × ℕ) → List (ℕ × ℕ)
set_hash k h [] = (k, h) ∷ []
set_hash k h ((j, g) ∷ d) =
    let rest = set_hash k h d in if j == k then (k, h) ∷ d else (j, g) ∷ rest

-- `add_ignored`, of the hash of the batch, and `add_unignored`.
unfoldable pub add_ignored : ℕ → ℕ → ResolvedSyncState → ResolvedSyncState
unfolding set_hash
add_ignored root_id hash s = record s { ignored_batches = set_hash root_id hash s.ignored_batches }

unfoldable pub add_unignored : ℕ → ResolvedSyncState → ResolvedSyncState
add_unignored root_id s =
    if elem root_id s.unignored_batches
    then s
    else record s { unignored_batches = s.unignored_batches ++ root_id ∷ [] }

-- `if obj.id not in [x.id for x in objs]: objs.append(obj)`
abbrev pub ids : List SyncObject → List ℕ
ids [] = []
ids (o ∷ os) = o.id ∷ ids os

unfoldable pub append_new : SyncObject → List SyncObject → List SyncObject
append_new o os = if elem o.id (ids os) then os else os ++ o ∷ []

-- `self.new_permissions[obj_type].extend(...)`, or the list itself for a new key.
unfoldable pub extend_at : ℕ → List Permission → Permissions → Permissions
extend_at k ps [] = (k, ps) ∷ []
extend_at k ps ((j, qs) ∷ d) =
    let rest = extend_at k ps d in if j == k then (j, qs ++ ps) ∷ d else (j, qs) ∷ rest

unfoldable pub extend_all : Permissions → Permissions → Permissions
unfolding extend_at
extend_all [] d = d
extend_all ((k, ps) ∷ more) d = extend_all more (extend_at k ps d)

-- `decision and decision.value != alias`; `"skip"` and `"ignore"` are no alias.
abbrev pub is_other_side : Option SyncDecision → Side → Bool
is_other_side none side = false
is_other_side (some low) side = side_eq side high_side
is_other_side (some high) side = side_eq side low_side
is_other_side (some _) side = true

abbrev pub is_empty_dict : Permissions → Bool
is_empty_dict [] = true
is_empty_dict (p ∷ ps) = false

abbrev pub is_same : Status → Bool
is_same same = true
is_same _ = false

-- The branches that append the object of the other side, or the own one, to a list.
unfoldable pub place :
    Status
    → Option SyncObject
    → Option SyncObject
    → ResolvedSyncState
    → Result SyncError ResolvedSyncState
unfolding append_new
place modified mine none s = err attribute_error
place modified mine (some o) s = ok (record s { update_objs = append_new o s.update_objs })
place new none none s = err attribute_error
place new none (some o) s = ok (record s { create_objs = append_new o s.create_objs })
place new (some o) none s = ok (record s { delete_objs = append_new o s.delete_objs })
place new (some o) (some _) s = ok s
place same mine others s = ok s

abbrev pub my_obj : Side → ObjectDiff → Option SyncObject
my_obj low_side d = d.low_obj
my_obj high_side d = d.high_obj

abbrev pub other_obj : Side → ObjectDiff → Option SyncObject
other_obj low_side d = d.high_obj
other_obj high_side d = d.low_obj

-- The permissions of the own side.
unfoldable pub add_permissions : Side → SyncInstruction → ResolvedSyncState → ResolvedSyncState
unfolding extend_all
add_permissions low_side i s = record s {
  new_permissions = extend_all i.new_permissions_lowside s.new_permissions;
  new_storage_permissions = s.new_storage_permissions ++ i.new_storage_permissions_lowside;
}
add_permissions high_side i s = record s {
  new_permissions = extend_all i.new_permissions_highside s.new_permissions;
  new_storage_permissions = s.new_storage_permissions ++ i.new_storage_permissions_highside;
}

-- `__private_sync_attr_mocks__` of the classes.
module _ (mocks : ℕ → List (ℕ × Attr)) where
  unfoldable pub replace : ℕ → Attr → List (ℕ × Attr) → List (ℕ × Attr)
  replace name a [] = (name, a) ∷ []
  replace name a ((n, b) ∷ attrs) =
      let rest = replace name a attrs in if n == name then (n, a) ∷ attrs else (n, b) ∷ rest

  unfoldable pub replace_all : List (ℕ × Attr) → List (ℕ × Attr) → List (ℕ × Attr)
  unfolding replace
  replace_all [] attrs = attrs
  replace_all ((n, a) ∷ more) attrs = replace_all more (replace n a attrs)

  -- `create_shareable_sync_copy(mock=True)`
  unfoldable pub create_shareable_sync_copy : SyncObject → SyncObject
  unfolding replace_all type_of
  create_shareable_sync_copy o = record o { attrs = replace_all (mocks (type_of o.kind)) o.attrs }

  unfoldable pub shareable : Bool → Option SyncObject → Option SyncObject
  unfolding create_shareable_sync_copy
  shareable true (some o) = some (create_shareable_sync_copy o)
  shareable mockify o = o

  -- `add_sync_instruction`. An instruction has no `batch_diff`, so that one with `unignore` raises.
  unfoldable pub add_sync_instruction :
      SyncInstruction → ResolvedSyncState → Result SyncError ResolvedSyncState
  unfolding status place add_permissions shareable
  add_sync_instruction i s =
      let d = i.diff in
      let placed =
        if is_other_side i.decision s.alias
        then place (status d) (my_obj s.alias d) (shareable i.mockify (other_obj s.alias d)) s
        else ok s in
      let added = placed >>= λ t. ok (add_permissions s.alias i t) in
      if is_ignore i.decision || is_skip i.decision
      then ok s
      else if i.unignore
      then err attribute_error
      else if is_same (status d) && is_empty_dict i.new_permissions_highside
      then ok s
      else added

abbrev no_objects : List SyncObject → Bool
no_objects [] = true
no_objects (o ∷ os) = false

abbrev no_storage : List OnServer → Bool
no_storage [] = true
no_storage (p ∷ ps) = false

-- `is_empty`
unfoldable pub is_empty : ResolvedSyncState → Bool
is_empty s =
    no_objects s.create_objs
    && (no_objects s.update_objs
        && (no_objects s.delete_objs
            && (is_empty_dict s.new_permissions && no_storage s.new_storage_permissions)))
