-- ===== src/Stash/Write.antt =====
-- Writing to the stash of stash.py: `set`, `update`, `delete_by_uid`, `upsert`.
use py_syft.Prelude.{
  ℕ, zero, suc, Bool, true, false, not, ◌&&◌, Option, none, some, List, [], ◌∷◌, ◌++◌, map, ◌==◌,
  if◌then◌else◌, Text,
}
use py_syft.Prelude.Result.{Result, ok, err, ◌>>=◌}
use py_syft.Permission.{
  VerifyKey, Permission, owner, write, read, execute, for_key, permission_string,
}
use py_syft.Stash.Env.{Row, StashError, not_found, stash_exception, unique_constraint, Env}
use py_syft.Stash.Access.{permitted, get_by_uid, exists, is_unique}

-- What `update` is given: a whole object, or an update of some attributes of the object of an id.
pub data Change (Obj Patch : Type 0) : Type 0 where
  whole : Obj → Change Obj Patch
  partial : ℕ → Patch → Change Obj Patch

module _ (e : Env) where
  open e use {
    keys, Obj, Json, Patch, object_id, to_json, from_json, apply_partial, server_uid, State, rows,
    insert, update as update_rows, delete as delete_rows,
  }

  -- A statement's result with the table, and `with session.begin()`, which undoes what was written
  -- where an exception leaves it.
  abbrev pub transact :
      {A : Type 0} → State → Result StashError A → State → Result StashError A × State
  transact t (ok a) t' = (ok a, t')
  transact t (err x) t' = (err x, t)

  -- `get_ownership_permissions`
  unfoldable pub ownership_permissions : ℕ → VerifyKey → List Text
  ownership_permissions uid k =
      permission_string keys (for_key owner uid k)
      ∷ permission_string keys (for_key write uid k)
      ∷ permission_string keys (for_key read uid k)
      ∷ permission_string keys (for_key execute uid k)
      ∷ []

  -- The row that `set` inserts.
  unfoldable pub new_row : VerifyKey → Obj → List Permission → Bool → Row Json
  unfolding ownership_permissions
  new_row k obj added storage = record {
    id = object_id obj;
    fields = to_json obj;
    permissions = ownership_permissions (object_id obj) k ++ map (permission_string keys) added;
    storage_permissions = if storage then server_uid ∷ [] else [];
  }

  -- The end of `set`: the check that the fields can be read back, the insertion, the reading.
  unfoldable pub insert_new :
      VerifyKey → Obj → List Permission → Bool → Option Obj → State → Result StashError Obj × State
  unfolding new_row get_by_uid
  insert_new k obj added storage none t = (err stash_exception, t)
  insert_new k obj added storage (some _) t =
      let t' = insert (new_row k obj added storage) t in
      transact t (get_by_uid e k (object_id obj) false t') t'

  -- `self.exists(...) or not self.is_unique(...)`; `or` does not ask for uniqueness of an id that is
  -- taken.
  unfoldable pub taken : Obj → State → Result StashError Bool
  taken obj t =
      if exists e (object_id obj) t then ok true else (do u ← is_unique e obj t; ok (not u))

  unfoldable pub set_case :
      VerifyKey
      → Obj
      → List Permission
      → Bool
      → Bool
      → Result StashError Bool
      → State
      → Result StashError Obj × State
  unfolding insert_new
  set_case k obj added storage ignore (err x) t = (err x, t)
  set_case k obj added storage ignore (ok true) t =
      (if ignore then ok obj else err unique_constraint, t)
  set_case k obj added storage ignore (ok false) t =
      insert_new k obj added storage (from_json (to_json obj)) t

  -- `set` with its permissions added, storage permission and `ignore_duplicates`.
  unfoldable pub set :
      VerifyKey → Obj → List Permission → Bool → Bool → State → Result StashError Obj × State
  unfolding set_case taken
  set k obj added storage ignore t = set_case k obj added storage ignore (taken obj t) t

  -- The object that `update` writes.
  unfoldable pub updated : VerifyKey → Change Obj Patch → State → Result StashError Obj
  unfolding get_by_uid
  updated k (whole obj) t = ok obj
  updated k (partial uid p) t = do o ← get_by_uid e k uid false t; apply_partial o p

  -- `rowcount == 0`
  unfoldable pub written : VerifyKey → ℕ → State → State × ℕ → Result StashError Obj × State
  unfolding get_by_uid
  written k uid t (t', zero) = (err not_found, t)
  written k uid t (t', suc n) = transact t (get_by_uid e k uid false t') t'

  -- From the check of the fields on.
  unfoldable pub write_fields :
      VerifyKey → Obj → Bool → Option Obj → State → Result StashError Obj × State
  unfolding written permitted
  write_fields k obj has_permission none t = (err stash_exception, t)
  write_fields k obj has_permission (some _) t = written k (object_id obj) t (
      update_rows (λ r. (r.id == object_id obj) && permitted e write k has_permission r)
        (λ r. record r { fields = to_json obj }) t)

  unfoldable pub update_unique :
      VerifyKey → Obj → Bool → Result StashError Bool → State → Result StashError Obj × State
  unfolding write_fields
  update_unique k obj has_permission (err x) t = (err x, t)
  update_unique k obj has_permission (ok false) t = (err unique_constraint, t)
  update_unique k obj has_permission (ok true) t =
      write_fields k obj has_permission (from_json (to_json obj)) t

  unfoldable pub update_object :
      VerifyKey → Bool → Result StashError Obj → State → Result StashError Obj × State
  unfolding update_unique
  update_object k has_permission (err x) t = (err x, t)
  update_object k has_permission (ok obj) t =
      update_unique k obj has_permission (is_unique e obj t) t

  unfoldable pub update :
      VerifyKey → Change Obj Patch → Bool → State → Result StashError Obj × State
  unfolding update_object updated
  update k change has_permission t = update_object k has_permission (updated k change t) t

  unfoldable pub deleted : ℕ → State → State × ℕ → Result StashError ℕ × State
  deleted uid t (t', zero) = (err not_found, t)
  deleted uid t (t', suc n) = (ok uid, t')

  unfoldable pub delete_by_uid : VerifyKey → ℕ → Bool → State → Result StashError ℕ × State
  unfolding deleted permitted
  delete_by_uid k uid has_permission t =
      deleted uid t (delete_rows (λ r. (r.id == uid) && permitted e write k has_permission r) t)

  unfoldable pub upsert_case :
      VerifyKey → Obj → Result StashError Obj × State → State → Result StashError Obj × State
  unfolding update
  upsert_case k obj (err unique_constraint, t') t = update k (whole obj) false t
  upsert_case k obj (r, t') t = (r, t')

  unfoldable pub upsert : VerifyKey → Obj → State → Result StashError Obj × State
  unfolding upsert_case set
  upsert k obj t = upsert_case k obj (set k obj [] true false t) t
