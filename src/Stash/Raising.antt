-- ===== src/Stash/Raising.antt =====
-- The operations of stash.py that write, where they raise.
use py_syft.Prelude.{ℕ, zero, suc, ◌≡◌, refl, Bool, true, false, Option, none, some, List, arith}
use py_syft.Prelude.Result.{Result, ok, err}
use py_syft.Permission.{VerifyKey, Permission}
use py_syft.Stash.Env.{StashError, Env}
use py_syft.Stash.Access.{get_by_uid, is_unique}
use py_syft.Stash.Write.{
  Change, transact, set, set_case, taken, insert_new, new_row, update, update_object, update_unique,
  updated, write_fields, written,
}

module _ (e : Env) where
  -- Where an exception leaves the operation, the table is as before.
  abbrev RollsBack : {A : Type 0} → e.State → Result StashError A × e.State → Type 0
  RollsBack t m = (x : StashError) → m.0 ≡ err x → m.1 ≡ t

  transact-RollsBack :
      {A : Type 0} (t : e.State) (m : Result StashError A) (t' : e.State)
      → RollsBack t (transact e t m t')
  transact-RollsBack t (ok a) t' x h = ground arith
  transact-RollsBack t (err y) t' x h = refl

  insert_new-RollsBack :
      (k : VerifyKey) (obj : e.Obj) (added : List Permission) (storage : Bool) (o : Option e.Obj)
      (t : e.State)
      → RollsBack t (insert_new e k obj added storage o t)
  unfolding insert_new
  insert_new-RollsBack k obj added storage none t x h = refl
  insert_new-RollsBack k obj added storage (some o) t x h =
      let t' = e.insert (new_row e k obj added storage) t in
      transact-RollsBack t (get_by_uid e k (e.object_id obj) false t') t' x h

  set_case-RollsBack :
      (k : VerifyKey) (obj : e.Obj) (added : List Permission) (storage ignore : Bool)
      (b : Result StashError Bool) (t : e.State)
      → RollsBack t (set_case e k obj added storage ignore b t)
  unfolding set_case
  set_case-RollsBack k obj added storage ignore (err y) t x h = refl
  set_case-RollsBack k obj added storage ignore (ok true) t x h = refl
  set_case-RollsBack k obj added storage ignore (ok false) t x h =
      insert_new-RollsBack k obj added storage (e.from_json (e.to_json obj)) t x h

  written-RollsBack :
      (k : VerifyKey) (uid : ℕ) (t : e.State) (m : e.State × ℕ) → RollsBack t (written e k uid t m)
  unfolding written
  written-RollsBack k uid t (t', zero) x h = refl
  written-RollsBack k uid t (t', suc n) x h =
      transact-RollsBack t (get_by_uid e k uid false t') t' x h

  write_fields-RollsBack :
      (k : VerifyKey) (obj : e.Obj) (has_permission : Bool) (o : Option e.Obj) (t : e.State)
      → RollsBack t (write_fields e k obj has_permission o t)
  unfolding write_fields
  write_fields-RollsBack k obj has_permission none t x h = refl
  write_fields-RollsBack k obj has_permission (some o) t x h =
      written-RollsBack k (e.object_id obj) t _ x h

  update_unique-RollsBack :
      (k : VerifyKey) (obj : e.Obj) (has_permission : Bool) (b : Result StashError Bool)
      (t : e.State)
      → RollsBack t (update_unique e k obj has_permission b t)
  unfolding update_unique
  update_unique-RollsBack k obj has_permission (err y) t x h = refl
  update_unique-RollsBack k obj has_permission (ok false) t x h = refl
  update_unique-RollsBack k obj has_permission (ok true) t x h =
      write_fields-RollsBack k obj has_permission (e.from_json (e.to_json obj)) t x h

  update_object-RollsBack :
      (k : VerifyKey) (has_permission : Bool) (o : Result StashError e.Obj) (t : e.State)
      → RollsBack t (update_object e k has_permission o t)
  unfolding update_object
  update_object-RollsBack k has_permission (err y) t x h = refl
  update_object-RollsBack k has_permission (ok obj) t x h =
      update_unique-RollsBack k obj has_permission (is_unique e obj t) t x h

  set-RollsBack :
      (k : VerifyKey) (obj : e.Obj) (added : List Permission) (storage ignore : Bool) (t : e.State)
      → RollsBack t (set e k obj added storage ignore t)
  unfolding set
  set-RollsBack k obj added storage ignore t =
      set_case-RollsBack k obj added storage ignore (taken e obj t) t

  update-RollsBack :
      (k : VerifyKey) (change : Change e.Obj e.Patch) (has_permission : Bool) (t : e.State)
      → RollsBack t (update e k change has_permission t)
  unfolding update
  update-RollsBack k change has_permission t =
      update_object-RollsBack k has_permission (updated e k change t) t

  -- Where `set` raises, the table is as it was.
  pub set_raises :
      (k : VerifyKey) (obj : e.Obj) (added : List Permission) (storage ignore : Bool) (t : e.State)
      (x : StashError)
      → (set e k obj added storage ignore t).0 ≡ err x
      → (set e k obj added storage ignore t).1 ≡ t
  set_raises k obj added storage ignore t x h = set-RollsBack k obj added storage ignore t x h

  -- Where `update` raises, with a whole object or with some attributes, the table is as it was.
  pub update_raises :
      (k : VerifyKey) (change : Change e.Obj e.Patch) (has_permission : Bool) (t : e.State)
      (x : StashError)
      → (update e k change has_permission t).0 ≡ err x
      → (update e k change has_permission t).1 ≡ t
  update_raises k change has_permission t x h = update-RollsBack k change has_permission t x h
