-- ===== src/Sync/Setting.antt =====
-- Setting the decisions of batches of client/syncing.py, twice and in vain.
use py_syft.Prelude.{
  ℕ, ◌≡◌, inl, inr, refl, ap, true, false, Option, List, [], ◌∷◌, ◌++◌, elem, elem-append, ==_refl,
  Bool-cases, arith,
}
use py_syft.Sync.Objects.{SyncDecision}
use py_syft.Sync.Batch.{Batch}
use py_syft.Sync.Ignore.{set_decisions, roots}

pub set_decisions-ext :
    (rs ss : List ℕ) (d : Option SyncDecision) (bs : List Batch)
    → ((v : ℕ) → elem v rs ≡ elem v ss)
    → set_decisions rs d bs ≡ set_decisions ss d bs
unfolding set_decisions
set_decisions-ext rs ss d [] h = refl
set_decisions-ext rs ss d (b ∷ bs) h = rw (h b.root_id) (rw (set_decisions-ext rs ss d bs h) refl)

pub set_decisions-twice :
    (rs ss : List ℕ) (d : Option SyncDecision) (bs : List Batch)
    → set_decisions rs d (set_decisions ss d bs) ≡ set_decisions (ss ++ rs) d bs
unfolding set_decisions
set_decisions-twice rs ss d [] = refl
set_decisions-twice rs ss d (b ∷ bs) = rw (elem-append b.root_id ss rs) (
    rw (set_decisions-twice rs ss d bs) (elim (Bool-cases (elem b.root_id ss)) [
      | inl m ↦ elim (Bool-cases (elem b.root_id rs)) [
        | inl n ↦ rw m (rw n refl)
        | inr n ↦ rw m (rw n refl)
      ]
      | inr m ↦ rw m refl
    ]))

pub set_decisions-absent :
    (rs : List ℕ) (d : Option SyncDecision) (bs : List Batch)
    → ((r : ℕ) → elem r rs ≡ true → elem r (roots bs) ≡ false)
    → set_decisions rs d bs ≡ bs
unfolding set_decisions
set_decisions-absent rs d [] h = refl
set_decisions-absent rs d (b ∷ bs) h =
    let away : elem b.root_id rs ≡ false = elim (Bool-cases (elem b.root_id rs)) [
      | inl m ↦ absurd (ground (arith, h b.root_id m, ==_refl b.root_id))
      | inr m ↦ m
    ] in
    rw away (ap (λ l. b ∷ l) (set_decisions-absent rs d bs (λ r m. ground (arith, h r m))))
