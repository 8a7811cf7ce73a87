-- ===== src/Sync/Graph.antt =====
-- service/sync/diff_state.py, `ObjectDiffBatch.walk_graph`; the merging of the dependencies of two
-- states and the reversal of their edges.
use py_syft.Prelude.{
  ℕ, zero, suc, Bool, true, false, not, Option, none, some, List, [], ◌∷◌, ◌++◌, length, filter,
  elem, remove, ◌==◌, if◌then◌else◌,
}

-- A dict from ids to lists of ids, in the order of its keys.
abbrev pub Edges : Type 0
Edges = List (ℕ × List ℕ)

-- `deps.get(server, [])`
unfoldable pub edges_at : Edges → ℕ → List ℕ
edges_at [] x = []
edges_at ((k, ys) ∷ deps) x = if k == x then ys else edges_at deps x

-- The values of a dict, one after the other.
unfoldable pub all_targets : Edges → List ℕ
all_targets [] = []
all_targets ((k, ys) ∷ deps) = ys ++ all_targets deps

-- The `for server in unvisited` of a round: `new_servers`, and what it appends to `roots`.
module _ (deps : Edges) (global_roots : List ℕ) where
  unfoldable pub new_servers : List ℕ → List ℕ
  unfolding edges_at
  new_servers [] = []
  new_servers (x ∷ unvisited) =
      let rest = new_servers unvisited in
      if elem x global_roots then rest else edges_at deps x ++ rest

  -- The loop `while len(unvisited)`: the lists `result` and `roots`, or `none` where the fuel ran out.
  unfoldable pub rounds : ℕ → List ℕ → List ℕ → List ℕ → Option (List ℕ × List ℕ)
  unfolding new_servers
  rounds zero result unvisited roots = none
  rounds (suc fuel) result [] roots = some (result, roots)
  rounds (suc fuel) result (x ∷ unvisited) roots =
      let new = filter (λ n. not (elem n result)) (new_servers (x ∷ unvisited)) in
      rounds fuel (result ++ new) new (roots ++ filter (λ n. elem n global_roots) (x ∷ unvisited))

-- `[x for x in self.global_roots if x is not root_id]`: `_create_batches` takes the id of a root from the
-- `object_id` of its diff, so that equal ids are one object.
abbrev pub roots_without : ℕ → List ℕ → List ℕ
roots_without root_id global_roots = filter (λ x. not (x == root_id)) global_roots

-- `if include_roots: result += roots`
abbrev pub with_roots : Bool → List ℕ × List ℕ → List ℕ
with_roots true (result, roots) = result ++ roots
with_roots false (result, roots) = result

-- `if not include_batch_root: result.remove(root_id)`
abbrev pub with_batch_root : Bool → ℕ → List ℕ → List ℕ
with_batch_root true root_id result = result
with_batch_root false root_id result = remove root_id result

-- `set(result)`, listed without repetitions; the code does not rely on its order.
unfoldable pub to_set : List ℕ → List ℕ
to_set [] = []
to_set (x ∷ xs) = let rest = to_set xs in if elem x xs then rest else x ∷ rest

abbrev pub ids_of : Bool → Bool → ℕ → Option (List ℕ × List ℕ) → Option (List ℕ)
ids_of include_roots include_batch_root root_id none = none
ids_of include_roots include_batch_root root_id (some found) =
    some (to_set (with_batch_root include_batch_root root_id (with_roots include_roots found)))

-- The ids that `walk_graph` looks up in `global_diffs`. Each round but the last finds an id that is
-- among the targets of the edges, so that their number and two more rounds are enough.
unfoldable pub walk_ids : Edges → List ℕ → ℕ → Bool → Bool → Option (List ℕ)
unfolding rounds to_set all_targets
walk_ids deps global_roots root_id include_roots include_batch_root =
    ids_of include_roots include_batch_root root_id (
      rounds deps (roots_without root_id global_roots) (suc (suc (length (all_targets deps))))
        (root_id ∷ []) (root_id ∷ []) [])

-- `set(low) | set(high)` of two lists.
abbrev pub union : List ℕ → List ℕ → List ℕ
union xs ys = to_set (xs ++ ys)

abbrev pub keys : Edges → List ℕ
keys [] = []
keys ((k, ys) ∷ deps) = k ∷ keys deps

merge_at : Edges → Edges → List ℕ → Edges
unfolding edges_at to_set
merge_at low_deps high_deps [] = []
merge_at low_deps high_deps (parent ∷ parents) =
    (parent, union (edges_at low_deps parent) (edges_at high_deps parent))
    ∷ merge_at low_deps high_deps parents

-- `dependencies_from_states`
unfoldable pub dependencies_from_states : Edges → Edges → Edges
unfolding merge_at
dependencies_from_states low_deps high_deps =
    merge_at low_deps high_deps (union (keys low_deps) (keys high_deps))

-- `obj_dependents[child] = obj_dependents.get(child, []) + [parent]`
unfoldable pub add_dependent : ℕ → ℕ → Edges → Edges
add_dependent child parent [] = (child, parent ∷ []) ∷ []
add_dependent child parent ((k, ps) ∷ dependents) =
    let rest = add_dependent child parent dependents in
    if k == child then (k, ps ++ parent ∷ []) ∷ dependents else (k, ps) ∷ rest

unfoldable pub add_dependents : List ℕ → ℕ → Edges → Edges
unfolding add_dependent
add_dependents [] parent dependents = dependents
add_dependents (child ∷ children) parent dependents =
    add_dependents children parent (add_dependent child parent dependents)

-- The loops of `_create_batches` that reverse the edges, from the dict made so far.
unfoldable pub dependents_from : Edges → Edges → Edges
unfolding add_dependents
dependents_from [] dependents = dependents
dependents_from ((parent, children) ∷ deps) dependents =
    dependents_from deps (add_dependents children parent dependents)
