-- ===== src/Sync/Missing.antt =====
-- When `walk_graph` of service/sync/diff_state.py raises `KeyError`.
use py_syft.Prelude.{
  ℕ, ◌≡◌, inl, inr, refl, sym, ap, ◌∙◌, Bool, true, none, some, List, [], ◌∷◌, elem, ◌==◌, ==_refl,
  Bool-cases, Option-cases, arith,
}
use py_syft.Prelude.Result.{ok, err}
use py_syft.Sync.Objects.{ObjectDiff, key_error}
use py_syft.Sync.Walk.{Reaches, walk_ids_lem}
use py_syft.Sync.Batch.{Shared, diff_at, diffs_at, looked_up, walk_graph, get_dependencies}

diffs_at-all :
    (ids : List ℕ) (diffs : List (ℕ × ObjectDiff))
    → ((r : ℕ) → elem r ids ≡ true → (d : ObjectDiff) × (diff_at r diffs ≡ some d))
    → (ds : List ObjectDiff) × (diffs_at ids diffs ≡ ok ds)
unfolding diffs_at
diffs_at-all [] diffs h = ([], refl)
diffs_at-all (r ∷ rs) diffs h =
    let (d, e) = h r (ground (arith, ==_refl r)) in
    let (ds, f) = diffs_at-all rs diffs (λ v m. h v (ground arith)) in (d ∷ ds, rw e (rw f refl))

diffs_at-missing :
    (ids : List ℕ) (diffs : List (ℕ × ObjectDiff)) (r : ℕ)
    → elem r ids ≡ true
    → diff_at r diffs ≡ none
    → diffs_at ids diffs ≡ err key_error
unfolding diffs_at
diffs_at-missing [] diffs r m n = absurd (ground arith)
diffs_at-missing (x ∷ xs) diffs r m n = elim (Option-cases (diff_at x diffs)) [
  | inl e ↦ rw e refl
  | inr (d, e) ↦ elim (Bool-cases (x == r)) [
    | inl q ↦
        let at : x ≡ r = ground arith in
        let found : none ≡ some d = sym n ∙ sym (ap (λ v. diff_at v diffs) at) ∙ e in
        absurd (ground arith)
    | inr q ↦ rw e (rw (diffs_at-missing xs diffs r (ground arith) n) refl)
  ]
]

module _ (sh : Shared) (root_id : ℕ) (include_roots : Bool) where
  -- `get_dependencies` gives the diffs where each id that the root reaches has one.
  pub get_dependencies_lem :
      ((y : ℕ)
        → Reaches sh.dependencies sh.global_roots root_id y
        → (d : ObjectDiff) × (diff_at y sh.global_diffs ≡ some d))
      → (ds : List ObjectDiff) × (get_dependencies sh root_id include_roots true ≡ ok ds)
  unfolding get_dependencies walk_graph looked_up
  get_dependencies_lem h =
      let (ids, e, k) = walk_ids_lem sh.dependencies sh.global_roots root_id include_roots true in
      let (ds, f) = diffs_at-all ids sh.global_diffs (λ r m. h r ((k r).0 m).0) in (ds, rw e f)

  -- `get_dependencies` raises `KeyError` where the root reaches an id that has no diff.
  pub get_dependencies-raises :
      (y : ℕ)
      → Reaches sh.dependencies sh.global_roots root_id y
      → diff_at y sh.global_diffs ≡ none
      → get_dependencies sh root_id include_roots true ≡ err key_error
  unfolding get_dependencies walk_graph looked_up
  get_dependencies-raises y r n =
      let (ids, e, k) = walk_ids_lem sh.dependencies sh.global_roots root_id include_roots true in
      rw e (diffs_at-missing ids sh.global_diffs y ((k y).1 (r, refl)) n)
