-- ===== src/Stash/Updating.antt =====
-- What `update` of stash.py does to the table.
use mathlib.Core.Option
use py_syft.Prelude.{
  ℕ, zero, suc, ◌≡◌, refl, ap, ◌∙◌, Bool, true, false, ◌&&◌, Option, none, some, List, map, length,
  arith, ◌==◌, if◌then◌else◌, Bool-cases, inl, inr,
}
use py_syft.Prelude.Result.{ok, err}
use py_syft.Permission.{VerifyKey, read, write}
use py_syft.Stash.Env.{Row, not_found, Env}
use py_syft.Stash.Access.{grants, row_as_obj, get_by_uid, is_unique}
use py_syft.Stash.Write.{
  whole, transact, update, updated, update_object, update_unique, write_fields, written,
}
use py_syft.Stash.Rows.{
  find_row, UniqueIds, meets, changed-id, find_row-changed, ids-changed, changed,
}
use py_syft.Stash.Reading.{read_row, get_by_uid_lem}
use py_syft.Stash.Deleting.{may, met, pick-length, permitted-may}

module _ (e : Env) where
  written-if :
      (k : VerifyKey) (uid : ℕ) (t : e.State) (m : e.State × ℕ) (c : Bool)
      → m.1 ≡ (if c then 1 else 0)
      → written e k uid t m
        ≡ (if c then transact e t (get_by_uid e k uid false m.0) m.0 else (err not_found, t))
  unfolding written
  written-if k uid t (t', zero) true h = ground arith
  written-if k uid t (t', zero) false h = refl
  written-if k uid t (t', suc n) true h = refl
  written-if k uid t (t', suc n) false h = ground arith

  abbrev put : e.Obj → Row e.Json → Row e.Json
  put obj r = record r { fields = e.to_json obj }

  abbrev update_statement : VerifyKey → e.Obj → Bool → e.State → e.State × ℕ
  update_statement k obj has_permission t =
      e.update (λ r. (r.id == e.object_id obj) && may e write k has_permission r) (put obj) t

  update-if :
      (k : VerifyKey) (obj o : e.Obj) (has_permission : Bool) (t : e.State)
      → UniqueIds (e.rows t)
      → is_unique e obj t ≡ ok true
      → e.from_json (e.to_json obj) ≡ some o
      → update e k (whole obj) has_permission t ≡ (
          let t' = (update_statement k obj has_permission t).0 in
          if meets (may e write k has_permission) (find_row (e.object_id obj) (e.rows t))
          then transact e t (get_by_uid e k (e.object_id obj) false t') t'
          else (err not_found, t))
  unfolding update updated update_object update_unique write_fields
  update-if k obj o has_permission t u q j = rw q (
      rw j (
        ap
          (λ (q : Row e.Json → Bool).
            written e k (e.object_id obj) t
              (e.update (λ r. (r.id == e.object_id obj) && q r) (put obj) t))
          (permitted-may e write k has_permission)
        ∙ written-if k (e.object_id obj) t (update_statement k obj has_permission t)
            (meets (may e write k has_permission) (find_row (e.object_id obj) (e.rows t)))
            (e.count-update _ (put obj) t
              ∙ ap length (met e (may e write k has_permission) (e.object_id obj) t u)
              ∙ pick-length e (may e write k has_permission)
                  (find_row (e.object_id obj) (e.rows t)))))

  UniqueIds-changed :
      (p : Row e.Json → Bool) (obj : e.Obj) (rs : List (Row e.Json))
      → UniqueIds rs
      → UniqueIds (changed p (put obj) rs)
  UniqueIds-changed p obj rs u uid = rw (ids-changed p (put obj) rs (λ r. refl)) (u uid)

  read_row-put :
      (q p : Row e.Json → Bool) (obj o : e.Obj) (found : Option (Row e.Json))
      → ((r : Row e.Json) → q (put obj r) ≡ q r)
      → e.from_json (e.to_json obj) ≡ some o
      → meets p found ≡ true
      → read_row e q (Option.map (λ r. if p r then put obj r else r) found)
        ≡ (if meets q found then ok o else err not_found)
  unfolding row_as_obj grants
  read_row-put q p obj o none h j m = ground arith
  read_row-put q p obj o (some r) h j m = rw m (rw (h r) (rw j refl))

  -- The reading at the end of `update`, of a row that the caller may e write.
  reread :
      (k : VerifyKey) (obj o : e.Obj) (has_permission : Bool) (t : e.State)
      → UniqueIds (e.rows t)
      → e.from_json (e.to_json obj) ≡ some o
      → meets (may e write k has_permission) (find_row (e.object_id obj) (e.rows t)) ≡ true
      → get_by_uid e k (e.object_id obj) false (update_statement k obj has_permission t).0 ≡ (
          if meets (may e read k false) (find_row (e.object_id obj) (e.rows t))
          then ok o
          else err not_found)
  unfolding row_as_obj grants
  reread k obj o has_permission t u j m =
      let t' = (update_statement k obj has_permission t).0 in
      let p = may e write k has_permission in
      let uid = e.object_id obj in
      let rows' : e.rows t' ≡ changed (λ r. (r.id == uid) && p r) (put obj) (e.rows t) =
        e.rows-update _ (put obj) t in
      let u' : UniqueIds (e.rows t') = rw rows' (UniqueIds-changed _ obj (e.rows t) u) in
      get_by_uid_lem e k uid false t' u'
      ∙ rw rows' (
          rw (find_row-changed p (put obj) uid (e.rows t) (λ r. refl))
            (read_row-put (may e read k false) p obj o (find_row uid (e.rows t)) (λ r. refl) j m))

  -- Where ids are unique, the object's unique fields are unique and its fields can be read back,
  -- `update` with a whole object replaces the fields of the row of its id and no other row, if there
  -- is one, the caller may e write it, and the caller may e read it without the waiver
  -- `has_permission`; else it raises and leaves the table as it was.
  pub update_lem :
      (k : VerifyKey) (obj o : e.Obj) (has_permission : Bool) (t : e.State)
      → UniqueIds (e.rows t)
      → is_unique e obj t ≡ ok true
      → e.from_json (e.to_json obj) ≡ some o
      → if meets (may e write k has_permission) (find_row (e.object_id obj) (e.rows t))
          && meets (may e read k false) (find_row (e.object_id obj) (e.rows t))
        then ((update e k (whole obj) has_permission t).0 ≡ ok o)
          × (e.rows (update e k (whole obj) has_permission t).1
              ≡ map
                  (λ r. if r.id == e.object_id obj then record r { fields = e.to_json obj } else r)
                  (e.rows t))
        else update e k (whole obj) has_permission t ≡ (err not_found, t)
  update_lem k obj o has_permission t u q j =
      let found = find_row (e.object_id obj) (e.rows t) in
      rw (update-if k obj o has_permission t u q j)
        (elim (Bool-cases (meets (may e write k has_permission) found)) [
          | inl h ↦ rw h (
              rw (reread k obj o has_permission t u j h)
                (elim (Bool-cases (meets (may e read k false) found)) [
                  | inl g ↦ rw g (
                    refl,
                    e.rows-update _ (put obj) t
                        ∙ changed-id (may e write k has_permission) (put obj) (e.object_id obj)
                            (e.rows t) (u (e.object_id obj)) h,
                  )
                  | inr g ↦ rw g refl
                ]))
          | inr h ↦ rw h refl
        ])
