-- ===== src/Stash/Grants.antt =====
-- The permissions of one object in stash.py: `add_permission`, `remove_permission`,
-- `has_permissions`.
use py_syft.Prelude.{
  ℕ, Bool, true, not, ◌&&◌, List, [], ◌∷◌, filter, any, ◌==◌, if◌then◌else◌, Text, text_eq,
}
use py_syft.Prelude.Result.{Result, ok, err}
use py_syft.Permission.{Permission, permission_string}
use py_syft.Stash.Env.{Row, StashError, not_found, stash_exception, Env}
use py_syft.Stash.Access.{grants}

module _ (e : Env) where
  open e use {keys, Json, State, rows, update as update_rows, as_set}

  unfoldable pub permissions_of : List (Row Json) → Result StashError (List Text)
  permissions_of [] = err not_found
  permissions_of (r ∷ []) = ok (as_set r.permissions)
  permissions_of (r ∷ s ∷ l) = err stash_exception

  -- `_get_permissions_for_uid`; `scalar_one_or_none` raises where there is more than one row.
  unfoldable pub get_permissions : ℕ → State → Result StashError (List Text)
  unfolding permissions_of
  get_permissions uid t = permissions_of (filter (λ r. r.id == uid) (rows t))

  -- The statement that writes the permissions of an id.
  unfoldable pub write_permissions : ℕ → List Text → State → State
  write_permissions uid ps t =
      (update_rows (λ r. r.id == uid) (λ r. record r { permissions = as_set ps }) t).0

  unfoldable pub add_to :
      Permission
      → Bool
      → Result StashError (List Text)
      → State
      → Result StashError (Unit {0}) × State
  unfolding write_permissions
  add_to p ignore_missing (err not_found) t = (if ignore_missing then ok tt else err not_found, t)
  add_to p ignore_missing (err x) t = (err x, t)
  add_to p ignore_missing (ok ps) t =
      (ok tt, write_permissions p.uid (permission_string keys p ∷ ps) t)

  unfoldable pub add_permission : Permission → Bool → State → Result StashError (Unit {0}) × State
  unfolding add_to get_permissions
  add_permission p ignore_missing t = add_to p ignore_missing (get_permissions p.uid t) t

  unfoldable pub remove_from :
      Permission → Result StashError (List Text) → State → Result StashError (Unit {0}) × State
  unfolding write_permissions
  remove_from p (err not_found) t = (ok tt, t)
  remove_from p (err x) t = (err x, t)
  remove_from p (ok ps) t =
      if any (text_eq (permission_string keys p)) ps
      then (
        ok tt,
        write_permissions p.uid (filter (λ s. not (text_eq (permission_string keys p) s)) ps) t,
      )
      else (ok tt, t)

  -- `remove_permission`, which ignores a missing object and a missing permission.
  unfoldable pub remove_permission : Permission → State → Result StashError (Unit {0}) × State
  unfolding remove_from get_permissions
  remove_permission p t = remove_from p (get_permissions p.uid t) t

  abbrev pub meets_all : List Permission → Row Json → Bool
  meets_all [] r = true
  meets_all (p ∷ ps) r = ((r.id == p.uid) && grants e p r) && meets_all ps r

  -- `has_permissions`: one row has to meet the filters of all the permissions.
  unfoldable pub has_permissions : List Permission → State → Bool
  unfolding grants
  has_permissions ps t = any (meets_all ps) (rows t)
