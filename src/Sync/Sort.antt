-- ===== src/Sync/Sort.antt =====
-- service/sync/diff_state.py, `_sort_batches`.
use py_syft.Prelude.{
  ℕ, Bool, true, ◌&&◌, ◌||◌, Option, none, some, List, [], ◌∷◌, ◌++◌, ◌==◌, ltb, if◌then◌else◌,
}
use py_syft.Prelude.Result.{Result, ok, err, ◌>>=◌}
use py_syft.Sync.Objects.{
  Kind, user_code, request, job, SyncObject, ObjectDiff, non_empty_object, DiffError, key_error,
  value_error,
}
use py_syft.Sync.Batch.{Shared, Batch, diff_at, get_dependencies}

-- The id of the first user code among the diffs.
abbrev code_id_of : Option SyncObject → Option ℕ
code_id_of none = none
code_id_of (some o) = elim o.kind [ user_code side ↦ some o.id | _ ↦ none ]

abbrev or_else : Option ℕ → Option ℕ → Option ℕ
or_else none i = i
or_else (some j) i = some j

unfoldable pub usercode_id : List ObjectDiff → Option ℕ
usercode_id [] = none
usercode_id (d ∷ ds) = or_else (code_id_of (non_empty_object d)) (usercode_id ds)

-- `grouped_by_usercode`
abbrev pub Groups : Type 0
Groups = List (ℕ × List Batch)

unfoldable pub add_to_group : ℕ → Batch → Groups → Groups
add_to_group k b [] = (k, b ∷ []) ∷ []
add_to_group k b ((j, bs) ∷ groups) =
    let rest = add_to_group k b groups in
    if j == k then (j, bs ++ b ∷ []) ∷ groups else (j, bs) ∷ rest

-- The groups and `without_usercode` after one more batch.
unfoldable pub add_batch : Option ℕ → Batch → Groups × List Batch → Groups × List Batch
unfolding add_to_group
add_batch none b (groups, others) = (groups, others ++ b ∷ [])
add_batch (some k) b (groups, others) = (add_to_group k b groups, others)

-- `hierarchy_order.index(x.root.obj_type)`
abbrev pub order_of : Kind → Option ℕ
order_of (user_code side) = some 0
order_of request = some 1
order_of (job parent twin) = some 2
order_of _ = none

abbrev kind_order : Option SyncObject → Option ℕ
kind_order none = none
kind_order (some o) = order_of o.kind

-- The keys of a sort, the order of the class and the id.
abbrev pub Keyed : Type 0
Keyed = ℕ × Batch

abbrev pub comes_before : Keyed → Keyed → Bool
comes_before (m, b) (n, c) = ltb m n || ((m == n) && ltb b.root_id c.root_id)

-- `list.sort`, which is stable.
unfoldable pub insert : Keyed → List Keyed → List Keyed
insert x [] = x ∷ []
insert x (y ∷ ys) = let rest = insert x ys in if comes_before y x then y ∷ rest else x ∷ y ∷ ys

unfoldable pub sort : List Keyed → List Keyed
unfolding insert
sort [] = []
sort (x ∷ xs) = insert x (sort xs)

abbrev pub batches_of : List Keyed → List Batch
batches_of [] = []
batches_of ((n, b) ∷ xs) = b ∷ batches_of xs

module _ (sh : Shared) where
  -- The loop that groups the batches.
  unfoldable pub group_from :
      List Batch → Groups × List Batch → Result DiffError (Groups × List Batch)
  unfolding get_dependencies usercode_id add_batch
  group_from [] state = ok state
  group_from (b ∷ bs) state = get_dependencies sh b.root_id true true >>= λ ds.
      group_from bs (add_batch (usercode_id ds) b state)

  abbrev pub key_of : Option ObjectDiff → Result DiffError ℕ
  key_of none = err key_error
  key_of (some d) = elim (kind_order (non_empty_object d)) [
    | none ↦ err value_error
    | some n ↦ ok n
  ]

  unfoldable pub with_keys : List Batch → Result DiffError (List Keyed)
  unfolding diff_at
  with_keys [] = ok []
  with_keys (b ∷ bs) =
      key_of (diff_at b.root_id sh.global_diffs) >>= λ n. with_keys bs >>= λ xs. ok ((n, b) ∷ xs)

  -- The groups, each sorted, one after the other.
  unfoldable pub sort_groups : Groups → Result DiffError (List Batch)
  unfolding with_keys sort
  sort_groups [] = ok []
  sort_groups ((k, bs) ∷ groups) =
      with_keys bs >>= λ xs. sort_groups groups >>= λ rest. ok (batches_of (sort xs) ++ rest)

  -- `_sort_batches`
  unfoldable pub sort_batches : List Batch → Result DiffError (List Batch)
  unfolding group_from sort_groups
  sort_batches bs = group_from bs ([], []) >>= λ grouped.
      sort_groups grouped.0 >>= λ sorted. ok (sorted ++ grouped.1)
