-- ===== src/Jobs/Stashes.antt =====
-- `QueueStash` of queue_stash.py, on the stash of stash.py.
use py_syft.Prelude.{ℕ, Bool, true, false, Option, none, some, List, [], if◌then◌else◌}
use py_syft.Prelude.Result.{Result, ok, err}
use py_syft.Permission.{VerifyKey, Permission}
use py_syft.Stash.Env.{StashError, not_found, Env}
use py_syft.Stash.Access.{get_by_uid}
use py_syft.Stash.Write.{whole, set, update, delete_by_uid}

abbrev pub is_nonempty : List Permission → Bool
is_nonempty [] = false
is_nonempty _ = true

module _ (e : Env) where
  open e use {Obj, State, object_id}

  abbrev pub found : Result StashError Obj × State → Result StashError (Option Obj) × State
  found (ok o, t) = (ok (some o), t)
  found (err x, t) = (err x, t)

  -- `QueueStash.set_result`. `update` takes `add_permissions` for its `has_permission`, which is true
  -- where the list has an element. `resolved` is the attribute of the item.
  unfoldable pub set_result :
      (Obj → Bool)
      → VerifyKey
      → Obj
      → List Permission
      → State
      → Result StashError (Option Obj) × State
  unfolding update
  set_result resolved k item added t =
      if resolved item then found (update e k (whole item) (is_nonempty added) t) else (ok none, t)

  unfoldable pub place_item :
      VerifyKey
      → Obj
      → List Permission
      → Result StashError Obj
      → State
      → Result StashError Obj × State
  unfolding set
  place_item k item added (ok o) t = (ok item, t)
  place_item k item added (err not_found) t = set e k item added true false t
  place_item k item added (err x) t = (err x, t)

  -- `set_placeholder`
  unfoldable pub set_placeholder :
      (Obj → Bool) → VerifyKey → Obj → List Permission → State → Result StashError Obj × State
  unfolding place_item get_by_uid
  set_placeholder resolved k item added t =
      if resolved item
      then (ok item, t)
      else place_item k item added (get_by_uid e k (object_id item) false t) t

  abbrev pub taken : Obj → Result StashError ℕ × State → Result StashError (Option Obj) × State
  taken o (ok uid, t) = (ok (some o), t)
  taken o (err x, t) = (err x, t)

  unfoldable pub pop_item :
      VerifyKey → ℕ → Result StashError Obj → State → Result StashError (Option Obj) × State
  unfolding delete_by_uid
  pop_item k uid (err not_found) t = (ok none, t)
  pop_item k uid (err x) t = (err x, t)
  pop_item k uid (ok o) t = taken o (delete_by_uid e k uid false t)

  -- `pop`
  unfoldable pub pop : VerifyKey → ℕ → State → Result StashError (Option Obj) × State
  unfolding pop_item get_by_uid
  pop k uid t = pop_item k uid (get_by_uid e k uid false t) t

  -- `pop_on_complete`, which does not look at what the deletion returns.
  unfoldable pub drop_completed :
      (Obj → Bool) → VerifyKey → ℕ → Result StashError Obj → State → Result StashError Obj × State
  unfolding delete_by_uid
  drop_completed is_completed k uid (err x) t = (err x, t)
  drop_completed is_completed k uid (ok o) t =
      (ok o, if is_completed o then (delete_by_uid e k uid false t).1 else t)

  unfoldable pub pop_on_complete :
      (Obj → Bool) → VerifyKey → ℕ → State → Result StashError Obj × State
  unfolding drop_completed get_by_uid
  pop_on_complete is_completed k uid t =
      drop_completed is_completed k uid (get_by_uid e k uid false t) t
