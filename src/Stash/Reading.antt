-- ===== src/Stash/Reading.antt =====
-- Who may read what through `get_by_uid` of stash.py.
use mathlib.Core.List.{head?}
use py_syft.Prelude.{
  ℕ, ◌≡◌, ap, ◌∙◌, Bool, ◌||◌, Option, none, some, if◌then◌else◌, if_cases, Bool-cases, inl, inr,
}
use mathlib.Core.Path.{fun_ext}
use py_syft.Prelude.Result.{Result, err, or_raise, ◌>>=◌}
use py_syft.Permission.{VerifyKey, ActionPermission, read, for_key}
use py_syft.Stash.Env.{Row, StashError, not_found, Env}
use py_syft.Stash.Access.{permitted, grants, sees_all, get_role, row_as_obj, get_by_uid}
use py_syft.Stash.Rows.{find_row, UniqueIds, pick, filter-id}

module _ (e : Env) where
  -- The object of a row, where there is one and it meets the condition.
  abbrev pub read_row : (Row e.Json → Bool) → Option (Row e.Json) → Result StashError e.Obj
  read_row p none = err not_found
  read_row p (some r) = if p r then row_as_obj e r else err not_found

  first_picked :
      (p : Row e.Json → Bool) (o : Option (Row e.Json))
      → (do row ← or_raise (head? (e.order (pick p o))) not_found; row_as_obj e row) ≡ read_row p o
  first_picked p none = rw e.order-nil
  first_picked p (some r) =
      if_cases
        (λ l.
          (do row ← or_raise (head? (e.order l)) not_found; row_as_obj e row) ≡ read_row p (some r))
        (p r) (λ h. rw (e.order-one r) (rw h)) (λ h. rw e.order-nil (rw h))

  pub permitted_or :
      (p : ActionPermission) (k : VerifyKey) (has_permission : Bool) (r : Row e.Json)
      → permitted e p k has_permission r
        ≡ ((has_permission || sees_all e (get_role e k)) || grants e (for_key p 0 k) r)
  unfolding permitted
  permitted_or p k has_permission r =
      elim (Bool-cases (has_permission || sees_all e (get_role e k))) [
        | inl h ↦ rw h
        | inr h ↦ rw h
      ]

  -- Where ids are unique, `get_by_uid` returns the object of the row of the id if the caller may read
  -- it: permissions are waived, or the caller's role is admin or data owner, or the row has READ for
  -- the caller's key or ALL_READ. In every other case it finds nothing.
  pub get_by_uid_lem :
      (k : VerifyKey) (uid : ℕ) (has_permission : Bool) (t : e.State)
      → UniqueIds (e.rows t)
      → get_by_uid e k uid has_permission t
        ≡ read_row
            (λ r. (has_permission || sees_all e (get_role e k)) || grants e (for_key read 0 k) r)
            (find_row uid (e.rows t))
  unfolding get_by_uid
  get_by_uid_lem k uid has_permission t u =
      rw (filter-id (permitted e read k has_permission) uid (e.rows t) (u uid)) (
        first_picked (permitted e read k has_permission) (find_row uid (e.rows t))
        ∙ ap (λ (p : Row e.Json → Bool). read_row p (find_row uid (e.rows t)))
            (fun_ext (permitted_or read k has_permission)))
