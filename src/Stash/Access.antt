-- ===== src/Stash/Access.antt =====
-- Reading from the stash of stash.py: roles, permission filters, queries by id, uniqueness.
use mathlib.Core.List.{head?}
use py_syft.Prelude.{
  ℕ, Bool, true, false, ◌||◌, ◌&&◌, none, some, List, [], ◌∷◌, length, filter, ltb, ◌==◌,
  if◌then◌else◌,
}
use py_syft.Prelude.Result.{Result, ok, err, or_raise, ◌>>=◌}
use py_syft.Permission.{
  VerifyKey, ActionPermission, Permission, read, for_key, permission_string,
  compound_permission_string,
}
use py_syft.Role.{ServiceRole, guest, admin, data_owner, role_eq}
use py_syft.Stash.Env.{
  Row, Attribute, null, other, primitive, StashError, not_found, stash_exception, Env,
}

module _ (e : Env) where
  open e use {
    keys, Obj, Json, object_id, unique_fields, attr, from_json, users, State, rows, order, contains,
    field_eq, or_,
  }

  unfoldable pub find_role : VerifyKey → List (VerifyKey × ServiceRole) → ServiceRole
  find_role k [] = guest
  find_role k ((j, r) ∷ l) = if j == k then r else find_role k l

  -- `get_role`; without a table of users everybody is a guest.
  unfoldable pub get_role : VerifyKey → ServiceRole
  unfolding find_role
  get_role k = elim users [ none ↦ guest | some l ↦ find_role k l ]

  -- `role in (ServiceRole.ADMIN, ServiceRole.DATA_OWNER)`
  abbrev pub sees_all : ServiceRole → Bool
  sees_all r = role_eq r admin || role_eq r data_owner

  -- `_get_permission_filter_from_permisson`
  unfoldable pub grants : Permission → Row Json → Bool
  grants p r =
      contains r.permissions (permission_string keys p)
      || contains r.permissions (compound_permission_string keys p)

  -- `_apply_permission_filter`, and `with_permissions` of query.py: the condition that they add.
  unfoldable pub permitted : ActionPermission → VerifyKey → Bool → Row Json → Bool
  unfolding grants
  permitted p k has_permission r =
      if has_permission || sees_all (get_role k) then true else grants (for_key p 0 k) r

  -- `row_as_obj`
  unfoldable pub row_as_obj : Row Json → Result StashError Obj
  row_as_obj r = or_raise (from_json r.fields) stash_exception

  -- `get_by_uid`, which is `get_one` with the filter on the id.
  unfoldable pub get_by_uid : VerifyKey → ℕ → Bool → State → Result StashError Obj
  unfolding permitted row_as_obj
  get_by_uid k uid has_permission t = do
    row ←
        or_raise
          (head?
            (order (filter (λ r. permitted read k has_permission r && (r.id == uid)) (rows t))))
          not_found
    row_as_obj row

  unfoldable pub exists : ℕ → State → Bool
  exists uid t = ltb 0 (length (filter (λ r. r.id == uid) (rows t)))

  unfoldable pub add_filter :
      Attribute Json
      → ℕ
      → Result StashError (List (Row Json → Bool))
      → Result StashError (List (Row Json → Bool))
  add_filter other f rest = err stash_exception
  add_filter null f rest = rest
  add_filter (primitive v) f rest = do fs ← rest; ok ((λ r. field_eq r.fields f v) ∷ fs)

  -- The filters that `is_unique` collects; an attribute that is no JSON primitive raises.
  unfoldable pub unique_filters : Obj → List ℕ → Result StashError (List (Row Json → Bool))
  unfolding add_filter
  unique_filters obj [] = ok []
  unique_filters obj (f ∷ fs) = add_filter (attr obj f) f (unique_filters obj fs)

  -- The rows that share a unique field, none or one, and then of the same id.
  unfoldable pub only_self : ℕ → List (Row Json) → Bool
  only_self uid [] = true
  only_self uid (r ∷ []) = r.id == uid
  only_self uid (r ∷ s ∷ l) = false

  unfoldable pub some_fields : List ℕ → Bool
  some_fields [] = false
  some_fields (f ∷ fs) = true

  unfoldable pub is_unique : Obj → State → Result StashError Bool
  unfolding only_self some_fields
  is_unique obj t =
      if some_fields unique_fields
      then (do
        fs ← unique_filters obj unique_fields
        ok (only_self (object_id obj) (filter (or_ fs) (rows t))))
      else ok true
