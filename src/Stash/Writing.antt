-- ===== src/Stash/Writing.antt =====
-- What `set` of stash.py does to the table.
use py_syft.Prelude.{
  ℕ, ◌≡◌, refl, ◌∙◌, Bool, true, false, some, List, [], ◌∷◌, map, arith, ◌==◌, ==_refl,
  if◌then◌else◌, Bool-cases, inl, inr, text_eq_refl,
}
use py_syft.Prelude.Result.{ok}
use py_syft.Permission.{
  VerifyKey, Permission, owner, write, read, execute, for_key, permission_string,
}
use py_syft.Stash.Env.{Row, Env}
use py_syft.Stash.Access.{grants, sees_all, get_role, row_as_obj, get_by_uid, exists, is_unique}
use py_syft.Stash.Write.{ownership_permissions, new_row, insert_new, set_case, taken, set}
use py_syft.Stash.Rows.{find_row, UniqueIds, exists-find, find_row-append, UniqueIds-append}
use py_syft.Stash.Reading.{get_by_uid_lem}

module _ (e : Env) where
  -- The owner's READ is among the permissions of a new row.
  grants-new_row :
      (k : VerifyKey) (obj : e.Obj) (added : List Permission) (storage : Bool)
      → grants e (for_key read 0 k) (new_row e k obj added storage) ≡ true
  unfolding grants new_row permission_string
  grants-new_row k obj added storage =
      rw
        (e.contains_lem (new_row e k obj added storage).permissions
          (permission_string e.keys (for_key read 0 k)))
        (ground (arith, text_eq_refl (permission_string e.keys (for_key read 0 k))))

  -- The row that a new object has to get: OWNER, WRITE, READ and EXECUTE on the object for the key,
  -- then the permissions added; and this server in its storage permissions where that is asked for.
  abbrev pub owned_row : VerifyKey → e.Obj → List Permission → Bool → Row e.Json
  owned_row k obj added storage = record {
    id = e.object_id obj;
    fields = e.to_json obj;
    permissions =
        map (λ p. permission_string e.keys p)
          (for_key owner (e.object_id obj) k
            ∷ for_key write (e.object_id obj) k
            ∷ for_key read (e.object_id obj) k
            ∷ for_key execute (e.object_id obj) k
            ∷ added);
    storage_permissions = if storage then e.server_uid ∷ [] else [];
  }

  -- A row of a new id is inserted.
  abbrev pub Inserted : Row e.Json → e.State → e.State → Type 0
  Inserted row t t' =
      UniqueIds (e.rows t')
      × ((uid : ℕ)
          → find_row uid (e.rows t')
            ≡ (if row.id == uid then some row else find_row uid (e.rows t)))

  insert-Inserted :
      (row : Row e.Json) (t : e.State)
      → UniqueIds (e.rows t)
      → exists e row.id t ≡ false
      → Inserted row t (e.insert row t)
  unfolding exists
  insert-Inserted row t u x =
      let (absent, zeros) = exists-find row.id (e.rows t) x in
      rw (e.rows-insert row t)
        (UniqueIds-append (e.rows t) row zeros u, λ uid. find_row-append uid (e.rows t) row absent)

  -- The owner can read the new row.
  get_by_uid-insert :
      (k : VerifyKey) (obj : e.Obj) (added : List Permission) (storage : Bool) (t' : e.State)
      (o : e.Obj)
      → UniqueIds (e.rows t')
      → find_row (e.object_id obj) (e.rows t') ≡ some (new_row e k obj added storage)
      → e.from_json (e.to_json obj) ≡ some o
      → get_by_uid e k (e.object_id obj) false t' ≡ ok o
  unfolding new_row row_as_obj
  get_by_uid-insert k obj added storage t' o u f j =
      rw (get_by_uid_lem e k (e.object_id obj) false t' u) (
        rw f (elim (Bool-cases (sees_all e (get_role e k))) [
          | inl h ↦ rw h (rw j refl)
          | inr h ↦ rw h (rw (grants-new_row k obj added storage) (rw j refl))
        ]))

  -- Where ids are unique, the id of an object is new, its unique fields are unique and its fields can
  -- be read back, `set` returns the object read back, and inserts one row: it has the fields of the
  -- object, the permissions OWNER, WRITE, READ and EXECUTE of the key on the object, those added and
  -- no others, and this server in its storage permissions where that is asked for. Ids stay unique,
  -- and every other row is found as before.
  pub set_lem :
      (k : VerifyKey) (obj : e.Obj) (added : List Permission) (storage ignore : Bool) (t : e.State)
      (o : e.Obj)
      → UniqueIds (e.rows t)
      → exists e (e.object_id obj) t ≡ false
      → is_unique e obj t ≡ ok true
      → e.from_json (e.to_json obj) ≡ some o
      → ((set e k obj added storage ignore t).0 ≡ ok o)
        × Inserted (owned_row k obj added storage) t (set e k obj added storage ignore t).1
  unfolding set taken set_case insert_new new_row ownership_permissions
  set_lem k obj added storage ignore t o u x q j =
      let row = new_row e k obj added storage in
      let t' = e.insert row t in
      let ins : Inserted row t t' = insert-Inserted row t u x in
      let found : find_row (e.object_id obj) (e.rows t') ≡ some row =
        ins.1 (e.object_id obj) ∙ (rw (==_refl (e.object_id obj)) refl) in
      rw x (rw q (rw j (rw (get_by_uid-insert k obj added storage t' o ins.0 found j) (refl, ins))))
