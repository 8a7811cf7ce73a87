-- ===== src/Sync/Sends.antt =====
-- That `handle_sync_batch` of client/syncing.py sends its states.
use py_syft.Prelude.{
  ℕ, ◌≡◌, ◌≢◌, ◌⊎◌, inl, inr, refl, ap, ◌∙◌, Bool, true, false, ◌&&◌, ◌||◌, Option, none, some,
  List, [], ◌∷◌, All, Bool-cases,
}
use py_syft.Prelude.Result.{Result, ok}
use py_syft.Permission.{VerifyKey}
use py_syft.Sync.Objects.{
  SyncDirection, low_to_high, high_to_low, to_sync_decision, is_ignore, is_skip, Side, SyncObject,
  Attr, ObjectDiff, Status, new, modified, status, object_id, non_empty_object, DiffError,
}
use py_syft.Sync.Resolved.{
  ResolvedSyncState, is_other_side, is_same, is_empty_dict, place, my_obj, other_obj,
  add_permissions, shareable, add_sync_instruction,
}
use py_syft.Sync.Instructions.{SyncInstruction, Permissions, from_batch_decision, read_permissions}
use py_syft.Sync.Batch.{Shared, Batch, get_dependencies, create_new_resolved_states, batch_status}
use py_syft.Sync.Ignore.{Sent, set_decisions}
use py_syft.Sync.Handle.{
  Choices, share_to_user, instruction, instructions, add_all, resolve, resolve_diffs, sync_decided,
  sync_changed, sync_directed, handle_sync_batch,
}
use py_syft.Sync.Placing.{placed}
use py_syft.Sync.Making.{source_side, target_side, own-decision, other-decision, made}
use py_syft.Sync.Sending.{start_states, OnSource, DecidedBy}
use py_syft.Sync.Arriving.{step-keeps}

-- The object of the diff is there, and the user chose whether to share and whether to mock it.
abbrev pub IsChosen : Choices → ObjectDiff → Type 0
IsChosen c d =
    (o : SyncObject) × (share : Bool) × (mockify : Bool) × (non_empty_object d ≡ some o)
    × (c.share_private_data o.id ≡ some share)
    × (c.mockify o.id ≡ some mockify)

read_permissions-total :
    (o : SyncObject) (direction : SyncDirection) (share : Bool) (user : VerifyKey)
    → (granted : Permissions × Permissions) × (read_permissions o direction share (some user)
        ≡ ok granted)
unfolding read_permissions
read_permissions-total o low_to_high share user = (([], []), refl)
read_permissions-total o high_to_low false user = (([], []), refl)
read_permissions-total o high_to_low true user = (_, refl)

-- An instruction of the loop can be added on both sides.
abbrev Addable : SyncDirection → SyncInstruction → Type 0
Addable direction i = DecidedBy direction i × (i.unignore ≡ false) × OnSource direction i.diff

module _ (c : Choices) (direction : SyncDirection) (user : VerifyKey) where
  instruction-total :
      (d : ObjectDiff)
      → OnSource direction d
      → IsChosen c d
      → (i : SyncInstruction) × (instruction c direction user d ≡ ok i) × Addable direction i
  unfolding instruction from_batch_decision object_id
  instruction-total d on (o, share, mockify, n, f, g) =
      let (granted, h) = read_permissions-total o direction share user in
      (made direction d o mockify granted, rw n (rw f (rw g (rw h refl))), (refl, refl, on))

  instructions-total :
      (ds : List ObjectDiff)
      → All (λ (d : ObjectDiff). OnSource direction d × IsChosen c d) ds
      → (is : List SyncInstruction) × (instructions c direction user ds ≡ ok is)
        × All (Addable direction) is
  unfolding instructions
  instructions-total [] h = ([], refl, tt)
  instructions-total (d ∷ ds) ((on, ch), h) =
      let (i, e, a) = instruction-total d on ch in
      let (is, f, b) = instructions-total ds h in (i ∷ is, rw e (rw f refl), (a, b))

module _ (mocks : ℕ → List (ℕ × Attr)) (direction : SyncDirection) where
  place-total :
      (st : Status) (mine : Option SyncObject) (o : SyncObject) (m : Bool) (s : ResolvedSyncState)
      → (p : ResolvedSyncState) × (place st mine (shareable mocks m (some o)) s ≡ ok p)
  unfolding place shareable
  place-total new none o true s = (_, refl)
  place-total new none o false s = (_, refl)
  place-total new (some u) o true s = (_, refl)
  place-total new (some u) o false s = (_, refl)
  place-total modified mine o true s = (_, refl)
  place-total modified mine o false s = (_, refl)
  place-total Status.same mine o m s = (_, refl)

  -- A step succeeds on a state of either side.
  step-total :
      (i : SyncInstruction) (s p : ResolvedSyncState)
      → i.unignore ≡ false
      → placed mocks i s ≡ ok p
      → (t : ResolvedSyncState) × (add_sync_instruction mocks i s ≡ ok t)
  unfolding add_sync_instruction
  step-total i s p u e = elim (Bool-cases (is_ignore i.decision || is_skip i.decision)) [
    | inl a ↦ (s, rw a refl)
    | inr a ↦
        elim (Bool-cases (is_same (status i.diff) && is_empty_dict i.new_permissions_highside)) [
          | inl n ↦ (s, rw a (rw u (rw n refl)))
          | inr n ↦ (add_permissions s.alias i p, rw a (rw u (rw n (rw e refl))))
        ]
  ]

  abbrev Either : Side → Type 0
  Either side = (side ≡ source_side direction) ⊎ (side ≡ target_side direction)

  placed-total :
      (i : SyncInstruction) (s : ResolvedSyncState)
      → Addable direction i
      → Either s.alias
      → (p : ResolvedSyncState) × (placed mocks i s ≡ ok p)
  placed-total i s (d, u, (o, b)) (inl a) = (s, rw d (rw a (rw (own-decision direction) refl)))
  placed-total i s (d, u, (o, b)) (inr a) =
      let there : other_obj s.alias i.diff ≡ some o = ap (λ v. other_obj v i.diff) a ∙ b in
      let turned : is_other_side i.decision s.alias ≡ true =
        rw d (rw a (other-decision direction)) in
      let (p, e) = place-total (status i.diff) (my_obj s.alias i.diff) o i.mockify s in
      (p, rw turned (rw there e))

  add_all-total :
      (is : List SyncInstruction) (s : ResolvedSyncState)
      → All (Addable direction) is
      → Either s.alias
      → (t : ResolvedSyncState) × (add_all mocks is s ≡ ok t)
  unfolding add_all
  add_all-total [] s a e = (s, refl)
  add_all-total (i ∷ is) s (a, b) e =
      let (p, f) = placed-total i s a e in
      let (m, g) = step-total i s p a.1 f in
      let side : m.alias ≡ s.alias = (step-keeps mocks direction i s m g).0 in
      let (t, h) = add_all-total is m b (rw side e) in (t, rw g h)

abbrev with_sent : List Batch → Sent → List Batch × Sent
with_sent bs m = (bs, m)

changed-decided :
    (sh : Shared) (mocks : ℕ → List (ℕ × Attr)) (c : Choices) (direction : SyncDirection)
    (b : Batch) (all : List Batch) (st : Status)
    → st ≢ Status.same
    → sync_changed sh mocks c direction b all (ok st)
      ≡ sync_decided sh mocks c direction b all b.decision
unfolding sync_changed
changed-decided sh mocks c direction b all Status.same h = absurd (h refl)
changed-decided sh mocks c direction b all Status.new h = refl
changed-decided sh mocks c direction b all Status.modified h = refl

resolve_diffs-sends :
    (sh : Shared) (mocks : ℕ → List (ℕ × Attr)) (c : Choices) (direction : SyncDirection)
    (found : Result DiffError (List ObjectDiff)) (ds : List ObjectDiff)
    → sh.sync_direction ≡ some direction
    → found ≡ ok ds
    → All (λ (d : ObjectDiff). OnSource direction d × IsChosen c d) ds
    → (states : ResolvedSyncState × ResolvedSyncState) × (resolve_diffs sh mocks c direction found
        ≡ ok (some states))
unfolding resolve_diffs resolve
resolve_diffs-sends sh mocks c direction found ds d g h =
    let (is, f, a) = instructions-total c direction (share_to_user c ds) ds h in
    let (start, finish) = start_states sh direction d in
    let (source, x) =
      add_all-total mocks direction is (create_new_resolved_states sh).0 a (inl start.0) in
    let (target, y) =
      add_all-total mocks direction is (create_new_resolved_states sh).1 a (inr finish.0) in
    ((source, target), rw g (rw f (rw x (rw y refl))))

-- `handle_sync_batch` sends its states where there is a direction, the batch has changed and has no
-- decision, its diffs are there, each object is on the source, and the user chose for each.
pub handle_sync_batch-sends :
    (sh : Shared) (mocks : ℕ → List (ℕ × Attr)) (c : Choices) (root_diff : ObjectDiff) (b : Batch)
    (all : List Batch) (direction : SyncDirection) (ds : List ObjectDiff) (st : Status)
    → sh.sync_direction ≡ some direction
    → b.decision ≡ none
    → get_dependencies sh b.root_id true true ≡ ok ds
    → batch_status sh root_diff b.root_id ≡ ok st
    → st ≢ Status.same
    → All (λ (d : ObjectDiff). OnSource direction d × IsChosen c d) ds
    → (states : ResolvedSyncState × ResolvedSyncState) × (handle_sync_batch sh mocks c root_diff b
          all
        ≡ (
          set_decisions (b.root_id ∷ []) (some (to_sync_decision direction)) all,
          ok (some states),
        ))
unfolding handle_sync_batch sync_directed sync_decided
handle_sync_batch-sends sh mocks c root_diff b all direction ds st d n g s changed h =
    let (states, r) =
      resolve_diffs-sends sh mocks c direction (get_dependencies sh b.root_id true true) ds d g h in
    (
      states,
      ap (λ o. sync_directed sh mocks c o root_diff b all) d
          ∙ ap (sync_changed sh mocks c direction b all) s
          ∙ changed-decided sh mocks c direction b all st changed
          ∙ ap (sync_decided sh mocks c direction b all) n
          ∙ ap (with_sent (set_decisions (b.root_id ∷ []) (some (to_sync_decision direction)) all))
              r,
    )
