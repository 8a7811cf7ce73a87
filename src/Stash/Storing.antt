-- ===== src/Stash/Storing.antt =====
-- What `add_storage_permission` and `remove_storage_permission` of stash.py do.
use mathlib.Core.Option
use py_syft.Prelude.{
  ℕ, ◌≡◌, refl, sym, ap, ◌∙◌, Bool, true, false, not, ◌||◌, ◌&&◌, Option, none, some, List, ◌∷◌,
  filter, ◌==◌, ==_iff, if◌then◌else◌, Bool-cases, inl, inr, Text, text_eq,
}
use py_syft.Prelude.Result.{ok}
use py_syft.Stash.Env.{Row, Env}
use py_syft.Stash.Rows.{find_row, UniqueIds, meets, filter-id, find_row-map, changed, ids-changed}
use py_syft.Stash.Granting.{any-id, contains-added, contains-removed}
use py_syft.Stash.Storage.{
  StoragePermission, storage_of, get_storage_permissions, write_storage, add_storage_to,
  add_storage_permission, remove_storage_from, remove_storage_permission, has_storage_permissions,
  has_storage_permission,
}

module _ (e : Env) where
  abbrev pub holds : Text → Row e.Json → Bool
  holds s r = e.contains r.storage_permissions s

  has_storage-find :
      (p : StoragePermission) (t : e.State)
      → UniqueIds (e.rows t)
      → has_storage_permission e p t ≡ meets (holds p.server) (find_row p.uid (e.rows t))
  unfolding has_storage_permission has_storage_permissions
  has_storage-find p t u = any-id e (holds p.server) p.uid (e.rows t) (u p.uid)

  get_storage-found :
      (uid : ℕ) (r : Row e.Json) (t : e.State)
      → UniqueIds (e.rows t)
      → find_row uid (e.rows t) ≡ some r
      → get_storage_permissions e uid t ≡ ok (e.as_set r.storage_permissions)
  unfolding get_storage_permissions storage_of
  get_storage-found uid r t u f = rw (filter-id (λ x. true) uid (e.rows t) (u uid)) (rw f refl)

  meets-same :
      (p : Row e.Json → Bool) (f : Row e.Json → Row e.Json) (o : Option (Row e.Json))
      → meets p (Option.map (λ r. if false then f r else r) o) ≡ meets p o
  meets-same p f none = refl
  meets-same p f (some r) = refl

  has_storage-write :
      (uid : ℕ) (ss : List Text) (q : StoragePermission) (r : Row e.Json) (t : e.State) (b : Bool)
      → UniqueIds (e.rows t)
      → find_row uid (e.rows t) ≡ some r
      → e.contains (e.as_set ss) q.server ≡ b
      → has_storage_permission e q (write_storage e uid ss t)
        ≡ (if uid == q.uid then b else has_storage_permission e q t)
  unfolding write_storage
  has_storage-write uid ss q r t b u f g =
      let h : Row e.Json → Row e.Json = λ x. record x { storage_permissions = e.as_set ss } in
      let same : e.rows (write_storage e uid ss t) ≡ changed (λ x. x.id == uid) h (e.rows t) =
        e.rows-update (λ x. x.id == uid) h t in
      has_storage-find q (write_storage e uid ss t)
        (rw same (λ v. rw (ids-changed (λ x. x.id == uid) h (e.rows t) (λ x. refl)) (u v)))
      ∙ rw same (
          rw (find_row-map h q.uid uid (e.rows t) (λ x. refl)) (elim (Bool-cases (uid == q.uid)) [
            | inl y ↦
                let here : find_row q.uid (e.rows t) ≡ some r =
                  ap (λ (v : ℕ). find_row v (e.rows t)) (sym ((==_iff uid q.uid).0 y)) ∙ f in
                rw y (rw here g)
            | inr y ↦ rw y (
                meets-same (holds q.server) h (find_row q.uid (e.rows t))
                ∙ sym (has_storage-find q t u))
          ]))

  -- Where ids are unique and the object exists, `add_storage_permission` raises nothing; the object
  -- is then held by the servers that held it and the added one, and no other object's servers change.
  pub add_storage_permission_lem :
      (p q : StoragePermission) (ignore_missing : Bool) (r : Row e.Json) (t : e.State)
      → UniqueIds (e.rows t)
      → find_row p.uid (e.rows t) ≡ some r
      → ((add_storage_permission e p ignore_missing t).0 ≡ ok tt)
        × (has_storage_permission e q (add_storage_permission e p ignore_missing t).1 ≡ (
            if p.uid == q.uid
            then text_eq q.server p.server || holds q.server r
            else has_storage_permission e q t))
  unfolding add_storage_permission add_storage_to
  add_storage_permission_lem p q ignore_missing r t u f = rw (get_storage-found p.uid r t u f) (
    refl,
    has_storage-write p.uid (p.server ∷ e.as_set r.storage_permissions) q r t _ u f
        (contains-added e p.server q.server r.storage_permissions),
  )

  -- Where ids are unique and the object exists, `remove_storage_permission` raises nothing; the
  -- object is then held by the servers that held it but the removed one, and no other object's
  -- servers change.
  pub remove_storage_permission_lem :
      (p q : StoragePermission) (r : Row e.Json) (t : e.State)
      → UniqueIds (e.rows t)
      → find_row p.uid (e.rows t) ≡ some r
      → ((remove_storage_permission e p t).0 ≡ ok tt)
        × (has_storage_permission e q (remove_storage_permission e p t).1 ≡ (
            if p.uid == q.uid
            then not (text_eq p.server q.server) && holds q.server r
            else has_storage_permission e q t))
  unfolding remove_storage_permission remove_storage_from
  remove_storage_permission_lem p q r t u f = rw (get_storage-found p.uid r t u f) (
    refl,
    has_storage-write p.uid
        (filter (λ s. not (text_eq p.server s)) (e.as_set r.storage_permissions)) q r t _ u f
        (contains-removed e p.server q.server r.storage_permissions),
  )
