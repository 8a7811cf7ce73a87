-- ===== src/Sync/Decisions.antt =====
-- The decisions of the batches of client/syncing.py, by their roots.
use py_syft.Prelude.{
  ℕ, ◌≡◌, inl, inr, refl, ap, false, ◌&&◌, Option, none, some, List, [], ◌∷◌, elem, ◌==◌,
  if◌then◌else◌, Bool-cases, arith,
}
use py_syft.Prelude.Result.{ok, err}
use py_syft.Sync.Objects.{SyncDecision}
use py_syft.Sync.Resolved.{ResolvedSyncState}
use py_syft.Sync.Instructions.{SyncError}
use py_syft.Sync.Batch.{Batch}
use py_syft.Sync.Ignore.{set_decisions, others_of, roots, Sent}

-- The decision of the first batch with a root; `none` also where there is no such batch.
abbrev pub decision_of : ℕ → List Batch → Option SyncDecision
decision_of r [] = none
decision_of r (b ∷ bs) = if b.root_id == r then b.decision else decision_of r bs

pub decision_of-set_decisions :
    (r : ℕ) (rs : List ℕ) (d : Option SyncDecision) (bs : List Batch)
    → decision_of r (set_decisions rs d bs)
      ≡ (if elem r rs && elem r (roots bs) then d else decision_of r bs)
unfolding set_decisions
decision_of-set_decisions r rs d [] = ground arith
decision_of-set_decisions r rs d (b ∷ bs) = elim (Bool-cases (b.root_id == r)) [
  | inl e ↦ let same : b.root_id ≡ r = ground arith in ground (arith, ap (λ v. elem v rs) same)
  | inr e ↦ ground (arith, decision_of-set_decisions r rs d bs)
]

pub roots-set_decisions :
    (rs : List ℕ) (d : Option SyncDecision) (bs : List Batch)
    → roots (set_decisions rs d bs) ≡ roots bs
unfolding set_decisions
roots-set_decisions rs d [] = refl
roots-set_decisions rs d (b ∷ bs) = ground (arith, roots-set_decisions rs d bs)

pub decision_of-others :
    (r k : ℕ) (bs : List Batch)
    → (k == r) ≡ false
    → decision_of r (others_of k bs) ≡ decision_of r bs
decision_of-others r k [] n = refl
decision_of-others r k (b ∷ bs) n = ground (arith, decision_of-others r k bs)

pub roots-others :
    (r k : ℕ) (bs : List Batch)
    → (k == r) ≡ false
    → elem r (roots (others_of k bs)) ≡ elem r (roots bs)
roots-others r k [] n = refl
roots-others r k (b ∷ bs) n = ground (arith, roots-others r k bs)

pub decision_of-absent :
    (r : ℕ) (bs : List Batch) → elem r (roots bs) ≡ false → decision_of r bs ≡ none
decision_of-absent r [] h = refl
decision_of-absent r (b ∷ bs) h = ground (arith, decision_of-absent r bs)

pub raises-not-sent :
    {bs after : List Batch} {e : SyncError} {sent : ResolvedSyncState × ResolvedSyncState}
    → ◌≡◌ {A = List Batch × Sent} (bs, err e) (after, ok (some sent))
    → ⊥
raises-not-sent {e = x} {sent = sent} e =
    let bad : ◌≡◌ {A = Sent} (err x) (ok (some sent)) = ap (λ (m : List Batch × Sent). m.1) e in
    ground arith
