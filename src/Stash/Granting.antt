-- ===== src/Stash/Granting.antt =====
-- What `add_permission` and `remove_permission` of stash.py do to `has_permissions`.
use mathlib.Core.Option
use py_syft.Prelude.{
  ℕ, ◌≤◌, ◌≡◌, refl, sym, ap, ◌∙◌, Bool, true, false, not, ◌||◌, ◌&&◌, Option, none, some, List, [],
  ◌∷◌, filter, any, arith, ◌==◌, ==_iff, if◌then◌else◌, Bool-cases, inl, inr, count, count-cons,
  text_eq, text_eq_refl, text_eq→eq, Text,
}
use py_syft.Prelude.Result.{ok}
use py_syft.Permission.{Permission, permission_string, compound_permission_string}
use py_syft.Stash.Env.{Row, Env}
use py_syft.Stash.Access.{grants}
use py_syft.Stash.Rows.{
  ids, find_row, UniqueIds, meets, filter-id, find_row-map, changed, ids-changed,
}
use py_syft.Stash.Grants.{
  get_permissions, permissions_of, write_permissions, add_to, add_permission, remove_from,
  remove_permission, meets_all, has_permissions,
}

module _ (e : Env) where
  abbrev asks_for : ℕ → List Permission → Bool
  asks_for uid ps = any (λ p. p.uid == uid) ps

  meets_all-id :
      (uid : ℕ) (ps : List Permission) (r : Row e.Json)
      → asks_for uid ps ≡ true
      → meets_all e ps r ≡ true
      → r.id ≡ uid
  meets_all-id uid [] r a m = ground arith
  meets_all-id uid (p ∷ ps) r a m = ground (arith, meets_all-id uid ps r)

  any-none :
      (q : Row e.Json → Bool) (rs : List (Row e.Json))
      → ((r : Row e.Json) → q r ≡ false)
      → any q rs ≡ false
  any-none q [] h = refl
  any-none q (r ∷ rs) h = ground (arith, any-none q rs h, h r)

  -- `has_permissions` is false for permissions on two different objects, whatever the table holds.
  pub has_permissions_apart :
      (ps : List Permission) (uid v : ℕ) (t : e.State)
      → asks_for uid ps ≡ true
      → asks_for v ps ≡ true
      → (uid == v) ≡ false
      → has_permissions e ps t ≡ false
  unfolding has_permissions
  has_permissions_apart ps uid v t a b n =
      any-none (meets_all e ps) (e.rows t)
        (λ r. ground (arith, meets_all-id uid ps r a, meets_all-id v ps r b))

  any-absent :
      (p : Row e.Json → Bool) (uid : ℕ) (rs : List (Row e.Json))
      → count uid (ids rs) ≡ 0
      → any (λ r. ((r.id == uid) && p r) && true) rs ≡ false
  any-absent p uid [] h = refl
  any-absent p uid (r ∷ rs) h = ground (arith, count-cons uid r.id (ids rs), any-absent p uid rs)

  pub any-id :
      (p : Row e.Json → Bool) (uid : ℕ) (rs : List (Row e.Json))
      → count uid (ids rs) ≤ 1
      → any (λ r. ((r.id == uid) && p r) && true) rs ≡ meets p (find_row uid rs)
  any-id p uid [] h = refl
  any-id p uid (r ∷ rs) h =
      ground (arith, count-cons uid r.id (ids rs), any-absent p uid rs, any-id p uid rs)

  pub has_one :
      (p : Permission) (t : e.State)
      → UniqueIds (e.rows t)
      → has_permissions e (p ∷ []) t ≡ meets (grants e p) (find_row p.uid (e.rows t))
  unfolding has_permissions
  has_one p t u = any-id (grants e p) p.uid (e.rows t) (u p.uid)

  any-without :
      (s x : Text) (l : List Text)
      → any (text_eq x) (filter (λ y. not (text_eq s y)) l)
        ≡ (not (text_eq s x) && any (text_eq x) l)
  any-without s x [] = ground arith
  any-without s x (c ∷ l) = elim (Bool-cases (text_eq x c)) [
    | inl h ↦ rw (← text_eq→eq x c h) (ground (arith, any-without s x l, text_eq_refl x))
    | inr h ↦ ground (arith, any-without s x l)
  ]

  pub contains-added :
      (s x : Text) (ps : List Text)
      → e.contains (e.as_set (s ∷ e.as_set ps)) x ≡ (text_eq x s || e.contains ps x)
  contains-added s x ps = rw (e.contains_lem (e.as_set (s ∷ e.as_set ps)) x) (
      rw (e.any-as_set x (s ∷ e.as_set ps))
        (rw (e.any-as_set x ps) (rw (e.contains_lem ps x) refl)))

  pub contains-removed :
      (s x : Text) (ps : List Text)
      → e.contains (e.as_set (filter (λ y. not (text_eq s y)) (e.as_set ps))) x
        ≡ (not (text_eq s x) && e.contains ps x)
  contains-removed s x ps =
      rw (e.contains_lem (e.as_set (filter (λ y. not (text_eq s y)) (e.as_set ps))) x) (
        rw (e.any-as_set x (filter (λ y. not (text_eq s y)) (e.as_set ps))) (
          rw (any-without s x (e.as_set ps))
            (rw (e.any-as_set x ps) (rw (e.contains_lem ps x) refl))))

  get_permissions-found :
      (uid : ℕ) (r : Row e.Json) (t : e.State)
      → UniqueIds (e.rows t)
      → find_row uid (e.rows t) ≡ some r
      → get_permissions e uid t ≡ ok (e.as_set r.permissions)
  unfolding get_permissions permissions_of
  get_permissions-found uid r t u f = rw (filter-id (λ x. true) uid (e.rows t) (u uid)) (rw f refl)

  -- A permission check after the permissions of a row are written.
  has_one-write :
      (uid : ℕ) (ps : List Text) (q : Permission) (t : e.State)
      → UniqueIds (e.rows t)
      → has_permissions e (q ∷ []) (write_permissions e uid ps t)
        ≡ meets (grants e q) (
            Option.map
              (λ r. if uid == q.uid then record r { permissions = e.as_set ps } else r)
              (find_row q.uid (e.rows t)))
  unfolding write_permissions
  has_one-write uid ps q t u =
      let f : Row e.Json → Row e.Json = λ r. record r { permissions = e.as_set ps } in
      let same : e.rows (write_permissions e uid ps t) ≡ changed (λ r. r.id == uid) f (e.rows t) =
        e.rows-update (λ r. r.id == uid) f t in
      has_one q (write_permissions e uid ps t)
        (rw same (λ v. rw (ids-changed (λ r. r.id == uid) f (e.rows t) (λ r. refl)) (u v)))
      ∙ rw same (rw (find_row-map f q.uid uid (e.rows t) (λ r. refl)) refl)

  meets-same :
      (p : Row e.Json → Bool) (f : Row e.Json → Row e.Json) (o : Option (Row e.Json))
      → meets p (Option.map (λ r. if false then f r else r) o) ≡ meets p o
  meets-same p f none = refl
  meets-same p f (some r) = refl

  -- How a permission check answers after the permissions of a row are written, by how the one
  -- permission reads in the written list.
  has_one-after :
      (uid : ℕ) (ps : List Text) (q : Permission) (r : Row e.Json) (t : e.State) (b : Bool)
      → UniqueIds (e.rows t)
      → find_row uid (e.rows t) ≡ some r
      → grants e q (record r { permissions = e.as_set ps }) ≡ b
      → has_permissions e (q ∷ []) (write_permissions e uid ps t)
        ≡ (if uid == q.uid then b else has_permissions e (q ∷ []) t)
  has_one-after uid ps q r t b u f g =
      let f' : Row e.Json → Row e.Json = λ r. record r { permissions = e.as_set ps } in
      has_one-write uid ps q t u ∙ elim (Bool-cases (uid == q.uid)) [
        | inl h ↦
            let here : find_row q.uid (e.rows t) ≡ some r =
              ap (λ (v : ℕ). find_row v (e.rows t)) (sym ((==_iff uid q.uid).0 h)) ∙ f in
            rw h (rw here g)
        | inr h ↦
            rw h (meets-same (grants e q) f' (find_row q.uid (e.rows t)) ∙ sym (has_one q t u))
      ]

  abbrev string : Permission → Text
  string p = permission_string e.keys p

  abbrev compound : Permission → Text
  compound p = compound_permission_string e.keys p

  regroup : (a b c d : Bool) → ((a || b) || (c || d)) ≡ ((a || c) || (b || d))
  regroup a b c d = ground arith

  -- Where ids are unique and the object exists, `add_permission` raises nothing; a permission check
  -- for that object then succeeds if it did before, or if the added permission is the one asked for
  -- or its compound; a check for another object answers as before.
  pub add_permission_lem :
      (p q : Permission) (ignore_missing : Bool) (r : Row e.Json) (t : e.State)
      → UniqueIds (e.rows t)
      → find_row p.uid (e.rows t) ≡ some r
      → ((add_permission e p ignore_missing t).0 ≡ ok tt)
        × (has_permissions e (q ∷ []) (add_permission e p ignore_missing t).1 ≡ (
            if p.uid == q.uid
            then (text_eq (string q) (string p) || text_eq (compound q) (string p)) || grants e q r
            else has_permissions e (q ∷ []) t))
  unfolding add_permission add_to grants
  add_permission_lem p q ignore_missing r t u f = rw (get_permissions-found p.uid r t u f) (
    refl,
    has_one-after p.uid (string p ∷ e.as_set r.permissions) q r t _ u f (
        rw (contains-added (string p) (string q) r.permissions) (
          rw (contains-added (string p) (compound q) r.permissions) (
            regroup (text_eq (string q) (string p)) (e.contains r.permissions (string q))
              (text_eq (compound q) (string p)) (e.contains r.permissions (compound q))))),
  )

  absent-same :
      (s x : Text) (ps : List Text)
      → any (text_eq s) (e.as_set ps) ≡ false
      → (not (text_eq s x) && e.contains ps x) ≡ e.contains ps x
  absent-same s x ps h = elim (Bool-cases (text_eq s x)) [
    | inl g ↦
        rw (← text_eq→eq s x g)
          (rw (e.contains_lem ps s) (rw (← e.any-as_set s ps) (rw h (ground arith))))
    | inr g ↦ rw g refl
  ]

  -- The permission check on a row that `remove_permission` has changed.
  abbrev pub grants_without : Permission → Permission → Row e.Json → Bool
  grants_without p q r =
      (not (text_eq (string p) (string q)) && e.contains r.permissions (string q))
      || (not (text_eq (string p) (compound q)) && e.contains r.permissions (compound q))

  unchanged :
      (p q : Permission) (r : Row e.Json) (t : e.State)
      → UniqueIds (e.rows t)
      → find_row p.uid (e.rows t) ≡ some r
      → grants_without p q r ≡ grants e q r
      → has_permissions e (q ∷ []) t
        ≡ (if p.uid == q.uid then grants_without p q r else has_permissions e (q ∷ []) t)
  unchanged p q r t u f g = elim (Bool-cases (p.uid == q.uid)) [
    | inl h ↦
        let here : find_row q.uid (e.rows t) ≡ some r =
          ap (λ (v : ℕ). find_row v (e.rows t)) (sym ((==_iff p.uid q.uid).0 h)) ∙ f in
        rw h (has_one q t u ∙ rw here (sym g))
    | inr h ↦ rw h refl
  ]

  -- Where ids are unique and the object exists, `remove_permission` raises nothing; a permission
  -- check for that object then needs the permission asked for, or its compound, to be stored and to
  -- be another than the removed one; a check for another object answers as before.
  pub remove_permission_lem :
      (p q : Permission) (r : Row e.Json) (t : e.State)
      → UniqueIds (e.rows t)
      → find_row p.uid (e.rows t) ≡ some r
      → ((remove_permission e p t).0 ≡ ok tt)
        × (has_permissions e (q ∷ []) (remove_permission e p t).1
            ≡ (if p.uid == q.uid then grants_without p q r else has_permissions e (q ∷ []) t))
  unfolding remove_permission remove_from grants
  remove_permission_lem p q r t u f =
      rw (get_permissions-found p.uid r t u f)
        (elim (Bool-cases (any (text_eq (string p)) (e.as_set r.permissions))) [
          | inl h ↦ rw h (
            refl,
            has_one-after p.uid (filter (λ s. not (text_eq (string p) s)) (e.as_set r.permissions))
                q r t _ u f
                (rw (contains-removed (string p) (string q) r.permissions)
                  (rw (contains-removed (string p) (compound q) r.permissions) refl)),
          )
          | inr h ↦ rw h (
            refl,
            unchanged p q r t u f (
                rw (absent-same (string p) (string q) r.permissions h)
                  (rw (absent-same (string p) (compound q) r.permissions h) refl)),
          )
        ])
