-- ===== src/Stash/Storage.antt =====
-- The storage permissions of one object in stash.py: which servers hold it. A server is the text of
-- its id without dashes, as it is stored; `UID(_)` and `str` of such a text are taken as one.
use py_syft.Prelude.{
  ℕ, Bool, true, not, ◌&&◌, List, [], ◌∷◌, filter, any, ◌==◌, if◌then◌else◌, Text, text_eq,
}
use py_syft.Prelude.Result.{Result, ok, err}
use py_syft.Stash.Env.{Row, StashError, not_found, Env}

pub record StoragePermission : Type 0 where
  pub uid : ℕ
  pub server : Text

module _ (e : Env) where
  open e use {Json, State, rows, update as update_rows, contains, as_set}

  unfoldable pub storage_of : List (Row Json) → Result StashError (List Text)
  storage_of [] = err not_found
  storage_of (r ∷ l) = ok (as_set r.storage_permissions)

  -- `_get_storage_permissions_for_uid`, which takes the first row.
  unfoldable pub get_storage_permissions : ℕ → State → Result StashError (List Text)
  unfolding storage_of
  get_storage_permissions uid t = storage_of (filter (λ r. r.id == uid) (rows t))

  unfoldable pub write_storage : ℕ → List Text → State → State
  write_storage uid ss t =
      (update_rows (λ r. r.id == uid) (λ r. record r { storage_permissions = as_set ss }) t).0

  unfoldable pub add_storage_to :
      StoragePermission
      → Bool
      → Result StashError (List Text)
      → State
      → Result StashError (Unit {0}) × State
  unfolding write_storage
  add_storage_to p ignore_missing (err not_found) t =
      (if ignore_missing then ok tt else err not_found, t)
  add_storage_to p ignore_missing (err x) t = (err x, t)
  add_storage_to p ignore_missing (ok ss) t = (ok tt, write_storage p.uid (p.server ∷ ss) t)

  unfoldable pub add_storage_permission :
      StoragePermission → Bool → State → Result StashError (Unit {0}) × State
  unfolding add_storage_to get_storage_permissions
  add_storage_permission p ignore_missing t =
      add_storage_to p ignore_missing (get_storage_permissions p.uid t) t

  unfoldable pub remove_storage_from :
      StoragePermission
      → Result StashError (List Text)
      → State
      → Result StashError (Unit {0}) × State
  unfolding write_storage
  remove_storage_from p (err not_found) t = (ok tt, t)
  remove_storage_from p (err x) t = (err x, t)
  remove_storage_from p (ok ss) t =
      (ok tt, write_storage p.uid (filter (λ s. not (text_eq p.server s)) ss) t)

  unfoldable pub remove_storage_permission :
      StoragePermission → State → Result StashError (Unit {0}) × State
  unfolding remove_storage_from get_storage_permissions
  remove_storage_permission p t = remove_storage_from p (get_storage_permissions p.uid t) t

  abbrev pub stored_on_all : List StoragePermission → Row Json → Bool
  stored_on_all [] r = true
  stored_on_all (p ∷ ps) r =
      ((r.id == p.uid) && contains r.storage_permissions p.server) && stored_on_all ps r

  unfoldable pub has_storage_permissions : List StoragePermission → State → Bool
  has_storage_permissions ps t = any (stored_on_all ps) (rows t)

  unfoldable pub has_storage_permission : StoragePermission → State → Bool
  unfolding has_storage_permissions
  has_storage_permission p t = has_storage_permissions (p ∷ []) t
