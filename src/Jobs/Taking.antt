-- ===== src/Jobs/Taking.antt =====
-- What `pop` of queue_stash.py returns and removes.
use py_syft.Prelude.{
  ℕ, ◌≡◌, refl, ap, ◌∙◌, Bool, true, false, not, none, some, List, filter, ◌==◌, if◌then◌else◌,
  Bool-cases, inl, inr, arith,
}
use py_syft.Prelude.Result.{Result, ok, err}
use py_syft.Permission.{VerifyKey, read, write}
use py_syft.Stash.Env.{Row, StashError, not_found, Env}
use py_syft.Stash.Access.{row_as_obj, get_by_uid}
use py_syft.Stash.Write.{delete_by_uid}
use py_syft.Stash.Rows.{find_row, UniqueIds}
use py_syft.Stash.Reading.{get_by_uid_lem}
use py_syft.Stash.Deleting.{may, delete_by_uid_lem}
use py_syft.Jobs.Stashes.{taken, pop_item, pop}

module _ (e : Env) where
  get-found :
      (k : VerifyKey) (uid : ℕ) (r : Row e.Json) (o : e.Obj) (t : e.State)
      → UniqueIds (e.rows t)
      → find_row uid (e.rows t) ≡ some r
      → row_as_obj e r ≡ ok o
      → get_by_uid e k uid false t ≡ (if may e read k false r then ok o else err not_found)
  get-found k uid r o t u f g = get_by_uid_lem e k uid false t u ∙ rw f (rw g refl)

  taken-deleted :
      (uid : ℕ) (o : e.Obj) (t : e.State) (c : Bool) (l : List (Row e.Json))
      (m : Result StashError ℕ × e.State)
      → if c then (m.0 ≡ ok uid) × (e.rows m.1 ≡ l) else m ≡ (err not_found, t)
      → if c
        then ((taken e o m).0 ≡ ok (some o)) × (e.rows (taken e o m).1 ≡ l)
        else taken e o m ≡ (err not_found, t)
  taken-deleted uid o t true l (ok n, t') h = (refl, h.1)
  taken-deleted uid o t true l (err x, t') h = ground arith
  taken-deleted uid o t false l m h = ap (taken e o) h

  -- Where ids are unique and the table has a row of the id whose fields can be read, `pop` returns
  -- its object and removes this row and no other, if the caller may read and write it; it raises and
  -- leaves the table as it was if the caller may only read it, and returns nothing and leaves the
  -- table as it was if the caller may not read it.
  pub pop_lem :
      (k : VerifyKey) (uid : ℕ) (r : Row e.Json) (o : e.Obj) (t : e.State)
      → UniqueIds (e.rows t)
      → find_row uid (e.rows t) ≡ some r
      → row_as_obj e r ≡ ok o
      → if may e read k false r
        then (if may e write k false r
            then ((pop e k uid t).0 ≡ ok (some o))
              × (e.rows (pop e k uid t).1 ≡ filter (λ x. not (x.id == uid)) (e.rows t))
            else pop e k uid t ≡ (err not_found, t))
        else pop e k uid t ≡ (ok none, t)
  unfolding pop pop_item
  pop_lem k uid r o t u f g = elim (Bool-cases (may e read k false r)) [
    | inl m ↦ rw (get-found k uid r o t u f g) (
        rw m (
          taken-deleted uid o t (may e write k false r) _ (delete_by_uid e k uid false t)
            (rw f at (delete_by_uid_lem e k uid false t u))))
    | inr m ↦ rw (get-found k uid r o t u f g) (rw m refl)
  ]
