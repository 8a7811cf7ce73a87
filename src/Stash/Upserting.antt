-- ===== src/Stash/Upserting.antt =====
-- What `upsert` of stash.py does, by `set` and `update`.
use py_syft.Prelude.{
  ◌≡◌, refl, ◌∙◌, Bool, true, false, some, [], if◌then◌else◌, Bool-cases, inl, inr, arith,
}
use py_syft.Prelude.Result.{Result, ok, err}
use py_syft.Permission.{VerifyKey}
use py_syft.Stash.Env.{StashError, Env}
use py_syft.Stash.Access.{exists, is_unique}
use py_syft.Stash.Write.{whole, set, set_case, taken, update, upsert, upsert_case}
use py_syft.Stash.Rows.{UniqueIds}
use py_syft.Stash.Writing.{set_lem}

else-branch : {A : Type 0} (c : Bool) (x y : A) → c ≡ false → y ≡ (if c then x else y)
else-branch true x y h = ground arith
else-branch false x y h = refl

module _ (e : Env) where
  upsert_case-ok :
      (k : VerifyKey) (obj o : e.Obj) (m : Result StashError e.Obj × e.State) (t : e.State)
      → m.0 ≡ ok o
      → upsert_case e k obj m t ≡ m
  unfolding upsert_case
  upsert_case-ok k obj o (ok a, t') t h = refl
  upsert_case-ok k obj o (err x, t') t h = ground arith

  -- Where ids are unique, the object's unique fields are unique and its fields can be read back,
  -- `upsert` does what `update` does if the table has the object's id, and else what `set` does.
  pub upsert_lem :
      (k : VerifyKey) (obj o : e.Obj) (t : e.State)
      → UniqueIds (e.rows t)
      → is_unique e obj t ≡ ok true
      → e.from_json (e.to_json obj) ≡ some o
      → upsert e k obj t ≡ (
          if exists e (e.object_id obj) t
          then update e k (whole obj) false t
          else set e k obj [] true false t)
  unfolding upsert set taken set_case upsert_case
  upsert_lem k obj o t u q j = elim (Bool-cases (exists e (e.object_id obj) t)) [
    | inl x ↦ rw x refl
    | inr x ↦
        upsert_case-ok k obj o (set e k obj [] true false t) t
          (set_lem e k obj [] true false t o u x q j).0
        ∙ else-branch (exists e (e.object_id obj) t) (update e k (whole obj) false t)
            (set e k obj [] true false t) x
  ]
