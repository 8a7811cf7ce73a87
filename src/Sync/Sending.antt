-- ===== src/Sync/Sending.antt =====
-- Which objects `handle_sync_batch` of client/syncing.py sends to the source and to the target.
use py_syft.Prelude.{
  ℕ, ◌≤◌, ◌≡◌, inl, inr, refl, sym, ap, ◌∙◌, Bool, true, false, none, some, List, [], count,
  count-nil, All, Bool-cases, arith,
}
use py_syft.Prelude.Result.{ok}
use py_syft.Sync.Objects.{
  SyncDirection, low_to_high, high_to_low, to_sync_decision, Side, SyncObject, Attr, ObjectDiff,
  status,
}
use py_syft.Sync.Resolved.{
  ResolvedSyncState, ids, is_other_side, my_obj, other_obj, shareable, add_sync_instruction,
}
use py_syft.Sync.Instructions.{SyncInstruction}
use py_syft.Sync.Batch.{Shared, Batch, get_dependencies, create_new_resolved_states}
use py_syft.Sync.Handle.{Choices, share_to_user, handle_sync_batch}
use py_syft.Sync.Placing.{
  placed, add_step, add_all-keeps, place-cases, add_permissions-rest, IsUnique,
  add_sync_instruction-IsUnique,
}
use py_syft.Sync.Parts.{handle_sync-Resolves}
use py_syft.Sync.Making.{
  source_side, target_side, own-decision, instruction-parts, instructions-All,
}

-- No object to create, update or delete.
abbrev pub HasNoObjects : Side → ResolvedSyncState → Type 0
HasNoObjects side s =
    (s.alias ≡ side) × (s.create_objs ≡ []) × (s.update_objs ≡ []) × (s.delete_objs ≡ [])

pub start_states :
    (sh : Shared) (direction : SyncDirection)
    → sh.sync_direction ≡ some direction
    → HasNoObjects (source_side direction) (create_new_resolved_states sh).0
      × HasNoObjects (target_side direction) (create_new_resolved_states sh).1
unfolding create_new_resolved_states
start_states sh low_to_high e = rw e ((refl, refl, refl, refl), (refl, refl, refl, refl))
start_states sh high_to_low e = rw e ((refl, refl, refl, refl), (refl, refl, refl, refl))

-- The object is on the source.
abbrev pub OnSource : SyncDirection → ObjectDiff → Type 0
OnSource direction d = (o : SyncObject) × (other_obj (target_side direction) d ≡ some o)

abbrev pub DecidedBy : SyncDirection → SyncInstruction → Type 0
DecidedBy direction i = i.decision ≡ some (to_sync_decision direction)

module _ (mocks : ℕ → List (ℕ × Attr)) (direction : SyncDirection) where
  source-keeps :
      (i : SyncInstruction) (s t : ResolvedSyncState)
      → DecidedBy direction i
      → add_sync_instruction mocks i s ≡ ok t
      → HasNoObjects (source_side direction) s
      → HasNoObjects (source_side direction) t
  source-keeps i s t d e (a, c, u, r) = elim (add_step mocks i s t e) [
    | inl (idle, eq) ↦ rw (← eq) (a, c, u, r)
    | inr (p, f, eq) ↦
        let own : is_other_side i.decision s.alias ≡ false = rw d (rw a (own-decision direction)) in
        let at : ok s ≡ ok p = sym (rw own refl) ∙ f in
        let kept : s ≡ p = cc in
        let (l, m, n, o) = add_permissions-rest s.alias i p in
        rw (← eq) (
          l ∙ ap (λ (q : ResolvedSyncState). q.alias) (sym kept) ∙ a,
          m ∙ ap (λ (q : ResolvedSyncState). q.create_objs) (sym kept) ∙ c,
          n ∙ ap (λ (q : ResolvedSyncState). q.update_objs) (sym kept) ∙ u,
          o ∙ ap (λ (q : ResolvedSyncState). q.delete_objs) (sym kept) ∙ r,
        )
  ]

  shareable-some : (m : Bool) (o : SyncObject) → shareable mocks m (some o) ≡ none → ⊥
  unfolding shareable
  shareable-some true o e = ground arith
  shareable-some false o e = ground arith

  abbrev DeletesNothing : ResolvedSyncState → Type 0
  DeletesNothing s = (s.alias ≡ target_side direction) × (s.delete_objs ≡ [])

  target-keeps :
      (i : SyncInstruction) (s t : ResolvedSyncState)
      → OnSource direction i.diff
      → add_sync_instruction mocks i s ≡ ok t
      → DeletesNothing s
      → DeletesNothing t
  target-keeps i s t (o, b) e (a, r) = elim (add_step mocks i s t e) [
    | inl (idle, eq) ↦ rw (← eq) (a, r)
    | inr (p, f, eq) ↦
        let (l, m, n, k) = add_permissions-rest s.alias i p in
        let (a', r') = by_case p f in rw (← eq) (l ∙ a', k ∙ r')
  ]
    where
      by_case : (p : ResolvedSyncState) → placed mocks i s ≡ ok p → DeletesNothing p
      by_case p f = elim (Bool-cases (is_other_side i.decision s.alias)) [
        | inr n ↦
            let at : ok s ≡ ok p = sym (rw n refl) ∙ f in let eq : s ≡ p = cc in rw (← eq) (a, r)
        | inl n ↦
            elim (place-cases (status i.diff) (my_obj s.alias i.diff)
              (shareable mocks i.mockify (other_obj s.alias i.diff)) s p (sym (rw n refl) ∙ f)) [
                | inl (inl eq) ↦ rw (← eq) (a, r)
                | inl (inr (u, _, _, eq)) ↦ rw (← eq) (a, r)
                | inr (inl (u, _, _, eq)) ↦ rw (← eq) (a, r)
                | inr (inr (u, _, gone, eq)) ↦ absurd (
                    shareable-some i.mockify o (
                      ap (shareable mocks i.mockify)
                        (sym (ap (λ (v : Side). other_obj v i.diff) a ∙ b))
                      ∙ gone))
              ]
      ]

no_count : (j : ℕ) → count j (ids []) ≤ 1
no_count j = ground (arith, count-nil j)

-- Where `handle_sync_batch` sends states, the source is sent no object, the target is asked to delete
-- none, if each object of the batch is on the source, and to create and update none twice.
pub handle_sync_batch_lem :
    (sh : Shared) (mocks : ℕ → List (ℕ × Attr)) (c : Choices) (root_diff : ObjectDiff) (b : Batch)
    (all after : List Batch) (states : ResolvedSyncState × ResolvedSyncState)
    (direction : SyncDirection) (ds : List ObjectDiff)
    → handle_sync_batch sh mocks c root_diff b all ≡ (after, ok (some states))
    → sh.sync_direction ≡ some direction
    → get_dependencies sh b.root_id true true ≡ ok ds
    → All (OnSource direction) ds
    → HasNoObjects (source_side direction) states.0
      × (states.1.delete_objs ≡ [])
      × IsUnique states.1
handle_sync_batch_lem sh mocks c root_diff b all after states direction ds e d g on =
    let (is, f', x, y) =
      handle_sync-Resolves sh mocks c root_diff b all after states direction ds e d g in
    let (start, finish) = start_states sh direction d in
    let good : All (λ (i : SyncInstruction). DecidedBy direction i × OnSource direction i.diff) is =
      instructions-All c (OnSource direction)
        (λ (i : SyncInstruction). DecidedBy direction i × OnSource direction i.diff) direction
        (share_to_user c ds)
        (λ v i r k.
          let (o, share, mockify, granted, p, q, w, m) =
            instruction-parts c direction (share_to_user c ds) v i k in
          rw (← m) (refl, r))
        ds is on f' in
    let sent_to_source : HasNoObjects (source_side direction) states.0 =
      add_all-keeps mocks (HasNoObjects (source_side direction)) _
        (λ i s t q k. source-keeps mocks direction i s t q.0 k) is _ states.0 good x start in
    let kept : DeletesNothing mocks direction states.1 =
      add_all-keeps mocks (DeletesNothing mocks direction) _
        (λ i s t q k. target-keeps mocks direction i s t q.1 k) is _ states.1 good y
        (finish.0, finish.3) in
    (
      sent_to_source,
      kept.1,
      add_all-keeps mocks IsUnique
          (λ (i : SyncInstruction). DecidedBy direction i × OnSource direction i.diff)
          (λ i s t q k. add_sync_instruction-IsUnique mocks i s t k) is _ states.1 good y
          (λ j. rw finish.1 (rw finish.2 (rw finish.3 (no_count j, no_count j, no_count j)))),
    )
