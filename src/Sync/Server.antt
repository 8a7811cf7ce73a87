-- ===== src/Sync/Server.antt =====
-- service/sync/sync_service.py, the ignored batches in `build_current_state`.
use py_syft.Prelude.{ℕ, not, List, [], ◌∷◌, elem, filter}
use py_syft.Sync.Resolved.{set_hash, ResolvedSyncState}

-- `{**previous_ignored_batches, **new_ignored_batches}`
unfoldable pub with_new : List (ℕ × ℕ) → List (ℕ × ℕ) → List (ℕ × ℕ)
unfolding set_hash
with_new previous [] = previous
with_new previous ((r, h) ∷ more) = with_new (set_hash r h previous) more

-- `ignored_batches` of the new state, from those of the latest state and from what a client sent.
unfoldable pub current_ignored : List (ℕ × ℕ) → ResolvedSyncState → List (ℕ × ℕ)
unfolding with_new
current_ignored previous s =
    filter (λ (e : ℕ × ℕ). not (elem e.0 s.unignored_batches)) (with_new previous s.ignored_batches)
