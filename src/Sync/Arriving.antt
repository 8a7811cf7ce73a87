-- ===== src/Sync/Arriving.antt =====
-- That what is new or differs arrives at the target of `handle_sync_batch` of client/syncing.py.
use py_syft.Prelude.{
  ℕ, ◌≡◌, inl, inr, refl, sym, ap, ◌∙◌, true, false, ◌||◌, Option, some, List, [], ◌∷◌, elem, All,
  Bool-cases, arith,
}
use py_syft.Prelude.Result.{ok, err, Result-cases}
use py_syft.Permission.{VerifyKey}
use py_syft.Sync.Objects.{
  SyncDirection, low_to_high, high_to_low, to_sync_decision, is_ignore, is_skip, SyncObject, Attr,
  ObjectDiff, Status, new, modified, status,
}
use py_syft.Sync.Resolved.{
  ResolvedSyncState, ids, is_same, place, my_obj, other_obj, add_permissions, shareable,
  add_sync_instruction,
}
use py_syft.Sync.Instructions.{SyncInstruction}
use py_syft.Sync.Batch.{Shared, Batch, get_dependencies}
use py_syft.Sync.Handle.{
  Choices, share_to_user, instruction, instructions, add_all, handle_sync_batch,
}
use py_syft.Sync.Placing.{add_step, is_idle, placed-keeps, add_permissions-rest, elem-append_new}
use py_syft.Sync.Parts.{handle_sync-Resolves}
use py_syft.Sync.Making.{
  All-trivial, target_side, other-decision, instruction-parts, instructions-All,
}
use py_syft.Sync.Sending.{start_states}
use py_syft.Sync.Placement.{IsPlaced, place-IsPlaced, IsPlaced-keeps}

module _ (mocks : ℕ → List (ℕ × Attr)) (direction : SyncDirection) where
  abbrev Targets : SyncInstruction → ResolvedSyncState → Type 0
  Targets i t =
      IsPlaced (status i.diff) (my_obj (target_side direction) i.diff)
        (other_obj (target_side direction) i.diff) t

  -- A step keeps the side and what is in the lists.
  pub step-keeps :
      (i : SyncInstruction) (s t : ResolvedSyncState)
      → add_sync_instruction mocks i s ≡ ok t
      → (t.alias ≡ s.alias)
        × ((j : ℕ) → elem j (ids s.create_objs) ≡ true → elem j (ids t.create_objs) ≡ true)
        × ((j : ℕ) → elem j (ids s.update_objs) ≡ true → elem j (ids t.update_objs) ≡ true)
  step-keeps i s t e = elim (add_step mocks i s t e) [
    | inl (idle, eq) ↦ rw (← eq) (refl, (λ j h. h), λ j h. h)
    | inr (p, f, eq) ↦
        let (l, m, n, k) = add_permissions-rest s.alias i p in
        rw (← eq) (
          l
              ∙ placed-keeps mocks (λ (q : ResolvedSyncState). q.alias ≡ s.alias) i s p (λ o. refl)
                  (λ o. refl) (λ o. refl) refl f,
          (λ j h.
              ap (λ (os : List SyncObject). elem j (ids os)) m
              ∙ placed-keeps mocks (λ (q : ResolvedSyncState). elem j (ids q.create_objs) ≡ true) i
                  s p (λ o. h) (λ o. ground (arith, elem-append_new j o s.create_objs)) (λ o. h) h
                  f),
          (λ j h.
              ap (λ (os : List SyncObject). elem j (ids os)) n
              ∙ placed-keeps mocks (λ (q : ResolvedSyncState). elem j (ids q.update_objs) ≡ true) i
                  s p (λ o. ground (arith, elem-append_new j o s.update_objs)) (λ o. h) (λ o. h) h
                  f),
        )
  ]

  not-idle :
      (i : SyncInstruction)
      → i.decision ≡ some (to_sync_decision direction)
      → is_idle mocks i ≡ true
      → is_same (status i.diff) ≡ true
  not-idle i d h = elim (Bool-cases (is_same (status i.diff))) [
    | inl m ↦ m
    | inr m ↦ absurd (
        plain direction
          (rw d at (ap (λ v. (is_ignore i.decision || is_skip i.decision) || v) (sym m) ∙ h)))
  ]
    where
      plain :
          (v : SyncDirection)
          → (is_ignore (some (to_sync_decision v)) || is_skip (some (to_sync_decision v))) || false
            ≡ true
          → ⊥
      plain low_to_high e = ground arith
      plain high_to_low e = ground arith

  not-new :
      (t : ResolvedSyncState) (st : Status) (mine others : Option SyncObject)
      → is_same st ≡ true
      → IsPlaced st mine others t
  not-new t new mine others h = absurd (ground arith)
  not-new t modified mine others h = absurd (ground arith)
  not-new t Status.same mine others h = tt

  step-Targets :
      (i : SyncInstruction) (s t : ResolvedSyncState)
      → i.decision ≡ some (to_sync_decision direction)
      → s.alias ≡ target_side direction
      → add_sync_instruction mocks i s ≡ ok t
      → Targets i t
  step-Targets i s t d a e = elim (add_step mocks i s t e) [
    | inl (idle, eq) ↦ rw (← eq) (
        not-new s (status i.diff) (my_obj (target_side direction) i.diff)
          (other_obj (target_side direction) i.diff) (not-idle i d idle))
    | inr (p, f, eq) ↦
        let at : place (status i.diff) (my_obj (target_side direction) i.diff)
              (shareable mocks i.mockify (other_obj (target_side direction) i.diff)) s
            ≡ ok p =
          sym (rw d (rw a (rw (other-decision direction) refl))) ∙ f in
        let (l, m, n, k) = add_permissions-rest s.alias i p in
        rw (← eq) (
          IsPlaced-keeps (status i.diff) (my_obj (target_side direction) i.diff)
            (other_obj (target_side direction) i.diff) p (add_permissions s.alias i p)
            (λ j h. ap (λ (os : List SyncObject). elem j (ids os)) m ∙ h)
            (λ j h. ap (λ (os : List SyncObject). elem j (ids os)) n ∙ h)
            (place-IsPlaced mocks (status i.diff) (my_obj (target_side direction) i.diff)
              (other_obj (target_side direction) i.diff) i.mockify s p at))
  ]

  add_all-grows :
      (is : List SyncInstruction) (s t : ResolvedSyncState)
      → add_all mocks is s ≡ ok t
      → ((j : ℕ) → elem j (ids s.create_objs) ≡ true → elem j (ids t.create_objs) ≡ true)
        × ((j : ℕ) → elem j (ids s.update_objs) ≡ true → elem j (ids t.update_objs) ≡ true)
  unfolding add_all
  add_all-grows [] s t e = let eq : s ≡ t = cc in rw (← eq) ((λ j h. h), λ j h. h)
  add_all-grows (i ∷ is) s t e = elim (Result-cases (add_sync_instruction mocks i s)) [
    | inr (x, f) ↦ let at : err x ≡ ok t = sym (rw f refl) ∙ e in absurd (ground arith)
    | inl (m, f) ↦
        let (l, c, u) = step-keeps i s m f in
        let (c', u') = add_all-grows is m t (sym (rw f refl) ∙ e) in
        ((λ j h. c' j (c j h)), λ j h. u' j (u j h))
  ]

  add_all-Targets :
      (is : List SyncInstruction) (s t : ResolvedSyncState)
      → All (λ (i : SyncInstruction). i.decision ≡ some (to_sync_decision direction)) is
      → s.alias ≡ target_side direction
      → add_all mocks is s ≡ ok t
      → All (λ i. Targets i t) is
  unfolding add_all
  add_all-Targets [] s t d a e = tt
  add_all-Targets (i ∷ is) s t (d, ds) a e = elim (Result-cases (add_sync_instruction mocks i s)) [
    | inr (x, f) ↦ let at : err x ≡ ok t = sym (rw f refl) ∙ e in absurd (ground arith)
    | inl (m, f) ↦
        let rest : add_all mocks is m ≡ ok t = sym (rw f refl) ∙ e in
        let (l, c, u) = step-keeps i s m f in
        let (c', u') = add_all-grows is m t rest in
        (
          IsPlaced-keeps (status i.diff) (my_obj (target_side direction) i.diff)
              (other_obj (target_side direction) i.diff) m t c' u' (step-Targets i s m d a f),
          add_all-Targets is m t ds (l ∙ a) rest,
        )
  ]

  diffs-Targets :
      (c : Choices) (user : VerifyKey) (t : ResolvedSyncState) (ds : List ObjectDiff)
      (is : List SyncInstruction)
      → instructions c direction user ds ≡ ok is
      → All (λ i. Targets i t) is
      → All
          (λ (d : ObjectDiff).
            IsPlaced
              (status d)
              (my_obj (target_side direction) d)
              (other_obj (target_side direction) d)
              t)
          ds
  unfolding instructions
  diffs-Targets c user t [] is e h = tt
  diffs-Targets c user t (d ∷ ds) is e h = elim (Result-cases (instruction c direction user d)) [
    | inr (x, f) ↦ let at : err x ≡ ok is = sym (rw f refl) ∙ e in absurd (ground arith)
    | inl (i, f) ↦ elim (Result-cases (instructions c direction user ds)) [
      | inr (x, g) ↦ let at : err x ≡ ok is = sym (rw f (rw g refl)) ∙ e in absurd (ground arith)
      | inl (more, g) ↦
          let at : ok (i ∷ more) ≡ ok is = sym (rw f (rw g refl)) ∙ e in
          let eq : is ≡ i ∷ more = cc in
          let both : All (λ i. Targets i t) (i ∷ more) = rw eq at h in
          let (o, share, mockify, granted, p, q, w, m) = instruction-parts c direction user d i f in
          let own : d ≡ i.diff = ap (λ (v : SyncInstruction). v.diff) m in
          (rw own (both.0), diffs-Targets c user t ds more g both.1)
    ]
  ]

-- Where `handle_sync_batch` sends states, each object of the batch that the target lacks is among
-- those that the target creates, and each that differs among those that it updates.
pub handle_sync_batch-arrives :
    (sh : Shared) (mocks : ℕ → List (ℕ × Attr)) (c : Choices) (root_diff : ObjectDiff) (b : Batch)
    (all after : List Batch) (states : ResolvedSyncState × ResolvedSyncState)
    (direction : SyncDirection) (ds : List ObjectDiff)
    → handle_sync_batch sh mocks c root_diff b all ≡ (after, ok (some states))
    → sh.sync_direction ≡ some direction
    → get_dependencies sh b.root_id true true ≡ ok ds
    → All
        (λ (d : ObjectDiff).
          IsPlaced
            (status d)
            (my_obj (target_side direction) d)
            (other_obj (target_side direction) d)
            states.1)
        ds
handle_sync_batch-arrives sh mocks c root_diff b all after states direction ds e d g =
    let (is, f, x, y) =
      handle_sync-Resolves sh mocks c root_diff b all after states direction ds e d g in
    let decided : All (λ (i : SyncInstruction). i.decision ≡ some (to_sync_decision direction)) is =
      instructions-All c (λ v. Unit {0})
        (λ (i : SyncInstruction). i.decision ≡ some (to_sync_decision direction)) direction
        (share_to_user c ds)
        (λ v i r k.
          let (o, share, mockify, granted, p, q, w, m) =
            instruction-parts c direction (share_to_user c ds) v i k in
          rw (← m) refl)
        ds is (All-trivial ds) f in
    diffs-Targets mocks direction c (share_to_user c ds) states.1 ds is f
      (add_all-Targets mocks direction is _ states.1 decided (start_states sh direction d).1.0 y)
