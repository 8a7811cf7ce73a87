-- ===== src/Stash/Deleting.antt =====
-- What `delete_by_uid` of stash.py does to the table, and the rows that a statement on an id meets.
use mathlib.Core.Path.{fun_ext}
use py_syft.Prelude.{
  ℕ, zero, suc, ◌≡◌, refl, ap, ◌∙◌, Bool, true, false, not, ◌||◌, ◌&&◌, Option, none, some, length,
  filter, arith, ◌==◌, if◌then◌else◌, Bool-cases, inl, inr,
}
use py_syft.Prelude.Result.{ok, err}
use py_syft.Permission.{VerifyKey, ActionPermission, write, for_key}
use py_syft.Stash.Env.{Row, not_found, Env}
use py_syft.Stash.Access.{permitted, grants, sees_all, get_role}
use py_syft.Stash.Write.{delete_by_uid, deleted}
use py_syft.Stash.Rows.{find_row, UniqueIds, pick, meets, filter-not, filter-id, filter-id_first}
use py_syft.Stash.Reading.{permitted_or}

module _ (e : Env) where
  -- The caller may use the row so, or permissions are waived.
  abbrev pub may : ActionPermission → VerifyKey → Bool → Row e.Json → Bool
  may p k has_permission r =
      (has_permission || sees_all e (get_role e k)) || grants e (for_key p 0 k) r

  -- The rows that a statement on the row of an id meets.
  pub met :
      (p : Row e.Json → Bool) (uid : ℕ) (t : e.State)
      → UniqueIds (e.rows t)
      → filter (λ r. (r.id == uid) && p r) (e.rows t) ≡ pick p (find_row uid (e.rows t))
  met p uid t u = filter-id_first p uid (e.rows t) ∙ filter-id p uid (e.rows t) (u uid)

  pub pick-length :
      (p : Row e.Json → Bool) (o : Option (Row e.Json))
      → length (pick p o) ≡ (if meets p o then 1 else 0)
  pick-length p none = refl
  pick-length p (some r) = ground arith

  pub permitted-may :
      (p : ActionPermission) (k : VerifyKey) (has_permission : Bool)
      → permitted e p k has_permission ≡ may p k has_permission
  permitted-may p k has_permission = fun_ext (permitted_or e p k has_permission)

  deleted-if :
      (uid : ℕ) (t : e.State) (m : e.State × ℕ) (c : Bool)
      → m.1 ≡ (if c then 1 else 0)
      → deleted e uid t m ≡ (if c then (ok uid, m.0) else (err not_found, t))
  unfolding deleted
  deleted-if uid t (t', zero) true h = ground arith
  deleted-if uid t (t', zero) false h = refl
  deleted-if uid t (t', suc n) true h = refl
  deleted-if uid t (t', suc n) false h = ground arith

  abbrev pub delete_statement : VerifyKey → ℕ → Bool → e.State → e.State × ℕ
  delete_statement k uid has_permission t =
      e.delete (λ r. (r.id == uid) && may write k has_permission r) t

  delete_by_uid-if :
      (k : VerifyKey) (uid : ℕ) (has_permission : Bool) (t : e.State)
      → UniqueIds (e.rows t)
      → delete_by_uid e k uid has_permission t ≡ (
          if meets (may write k has_permission) (find_row uid (e.rows t))
          then (ok uid, (delete_statement k uid has_permission t).0)
          else (err not_found, t))
  unfolding delete_by_uid
  delete_by_uid-if k uid has_permission t u =
      ap (λ (q : Row e.Json → Bool). deleted e uid t (e.delete (λ r. (r.id == uid) && q r) t))
        (permitted-may write k has_permission)
      ∙ (deleted-if uid t (delete_statement k uid has_permission t)
          (meets (may write k has_permission) (find_row uid (e.rows t)))
          (e.count-delete _ t
            ∙ ap length (met (may write k has_permission) uid t u)
            ∙ pick-length (may write k has_permission) (find_row uid (e.rows t))))

  -- Where ids are unique, `delete_by_uid` removes the row of the id and no other, if there is one
  -- and the caller may write it (permissions waived, role admin or data owner, or WRITE for the key
  -- or ALL_WRITE); else it raises and leaves the table as it was.
  pub delete_by_uid_lem :
      (k : VerifyKey) (uid : ℕ) (has_permission : Bool) (t : e.State)
      → UniqueIds (e.rows t)
      → if meets (may write k has_permission) (find_row uid (e.rows t))
        then ((delete_by_uid e k uid has_permission t).0 ≡ ok uid)
          × (e.rows (delete_by_uid e k uid has_permission t).1
              ≡ filter (λ r. not (r.id == uid)) (e.rows t))
        else delete_by_uid e k uid has_permission t ≡ (err not_found, t)
  delete_by_uid_lem k uid has_permission t u =
      rw (delete_by_uid-if k uid has_permission t u)
        (elim (Bool-cases (meets (may write k has_permission) (find_row uid (e.rows t)))) [
          | inl h ↦ rw h (
            refl,
            e.rows-delete _ t ∙ filter-not (may write k has_permission) uid (e.rows t) (u uid) h,
          )
          | inr h ↦ rw h refl
        ])
