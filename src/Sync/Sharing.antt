-- ===== src/Sync/Sharing.antt =====
-- Which read permissions `handle_sync_batch` of client/syncing.py sends.
use py_syft.Prelude.{
  ℕ, ◌≡◌, inl, inr, refl, Bool, true, false, some, List, [], ◌∷◌, ◌++◌, All, ◌==◌, if◌then◌else◌,
  if_both,
}
use py_syft.Prelude.Result.{ok}
use py_syft.Permission.{Permission, VerifyKey, read, for_key}
use py_syft.Sync.Objects.{
  SyncDirection, low_to_high, high_to_low, Side, low_side, high_side, SyncObject, Attr, ObjectDiff,
}
use py_syft.Sync.Resolved.{
  ResolvedSyncState, extend_at, extend_all, add_permissions, add_sync_instruction,
}
use py_syft.Sync.Instructions.{
  SyncInstruction, Permissions, is_shared_high, read_permissions, type_of,
}
use py_syft.Sync.Batch.{Shared, Batch, get_dependencies, create_new_resolved_states}
use py_syft.Sync.Handle.{Choices, share_to_user, handle_sync_batch}
use py_syft.Sync.Placing.{add_step, add_all-keeps, placed-keeps}
use py_syft.Sync.Parts.{handle_sync-Resolves}
use py_syft.Sync.Making.{All-trivial, instruction-parts, instructions-All}

-- A read permission that the user chose to give: for the one key, on an object whose private data is
-- shared, from the high side to the low side.
abbrev pub IsShared : Choices → VerifyKey → SyncDirection → Permission → Type 0
IsShared c user direction p =
    (p.permission ≡ read)
    × (p.credentials ≡ some user)
    × (direction ≡ high_to_low)
    × (c.share_private_data p.uid ≡ some true)

-- What holds of each permission of a dict.
abbrev pub AllIn : (Permission → Type 0) → Permissions → Type 0
AllIn P d = All (λ (e : ℕ × List Permission). All P e.1) d

module _ (P : Permission → Type 0) where
  All-++ : (ps qs : List Permission) → All P ps → All P qs → All P (ps ++ qs)
  All-++ [] qs a b = b
  All-++ (p ∷ ps) qs (x, a) b = (x, All-++ ps qs a b)

  AllIn-extend_at :
      (k : ℕ) (ps : List Permission) (d : Permissions)
      → All P ps
      → AllIn P d
      → AllIn P (extend_at k ps d)
  unfolding extend_at
  AllIn-extend_at k ps [] a b = (a, tt)
  AllIn-extend_at k ps ((j, qs) ∷ d) a (x, b) =
      if_both (AllIn P) (j == k) (All-++ qs ps x a, b) (x, AllIn-extend_at k ps d a b)

  AllIn-extend_all : (more d : Permissions) → AllIn P more → AllIn P d → AllIn P (extend_all more d)
  unfolding extend_all
  AllIn-extend_all [] d a b = b
  AllIn-extend_all ((k, ps) ∷ more) d (x, a) b =
      AllIn-extend_all more (extend_at k ps d) a (AllIn-extend_at k ps d x b)

  -- What the instruction adds, on either side.
  abbrev Gives : SyncInstruction → Type 0
  Gives i = AllIn P i.new_permissions_lowside × AllIn P i.new_permissions_highside

  AllIn-add_permissions :
      (side : Side) (i : SyncInstruction) (s : ResolvedSyncState)
      → Gives i
      → AllIn P s.new_permissions
      → AllIn P (add_permissions side i s).new_permissions
  unfolding add_permissions
  AllIn-add_permissions low_side i s g h =
      AllIn-extend_all i.new_permissions_lowside s.new_permissions g.0 h
  AllIn-add_permissions high_side i s g h =
      AllIn-extend_all i.new_permissions_highside s.new_permissions g.1 h

  AllIn-step :
      (mocks : ℕ → List (ℕ × Attr)) (i : SyncInstruction) (s t : ResolvedSyncState)
      → Gives i
      → add_sync_instruction mocks i s ≡ ok t
      → AllIn P s.new_permissions
      → AllIn P t.new_permissions
  AllIn-step mocks i s t g e h = elim (add_step mocks i s t e) [
    | inl (idle, eq) ↦ rw (← eq) h
    | inr (p, f, eq) ↦ rw (← eq) (
        AllIn-add_permissions s.alias i p g (
          placed-keeps mocks (λ (q : ResolvedSyncState). AllIn P q.new_permissions) i s p (λ o. h)
            (λ o. h) (λ o. h) h f))
  ]

-- The read permissions of an instruction are such as the user chose to give.
read_permissions-IsShared :
    (c : Choices) (o : SyncObject) (direction : SyncDirection) (share : Bool) (user : VerifyKey)
    (granted : Permissions × Permissions)
    → c.share_private_data o.id ≡ some share
    → read_permissions o direction share (some user) ≡ ok granted
    → AllIn (IsShared c user direction) granted.0 × AllIn (IsShared c user direction) granted.1
unfolding read_permissions
read_permissions-IsShared c o low_to_high share user granted s e =
    let eq : ([], []) ≡ granted = cc in rw (← eq) (tt, tt)
read_permissions-IsShared c o high_to_low false user granted s e =
    let eq : ([], []) ≡ granted = cc in rw (← eq) (tt, tt)
read_permissions-IsShared c o high_to_low true user granted s e =
    let given : Permissions = (type_of o.kind, for_key read o.id user ∷ []) ∷ [] in
    let fits : AllIn (IsShared c user high_to_low) given = (((refl, refl, refl, s), tt), tt) in
    let eq : (given, if is_shared_high o.kind then given else []) ≡ granted = cc in
    rw (← eq) (fits, if_both (AllIn (IsShared c user high_to_low)) (is_shared_high o.kind) fits tt)

start_permissions :
    (P : Permission → Type 0) (sh : Shared) (direction : SyncDirection)
    → sh.sync_direction ≡ some direction
    → AllIn P (create_new_resolved_states sh).0.new_permissions
      × AllIn P (create_new_resolved_states sh).1.new_permissions
unfolding create_new_resolved_states
start_permissions P sh low_to_high e = rw e (tt, tt)
start_permissions P sh high_to_low e = rw e (tt, tt)

-- Each permission that `handle_sync_batch` sends, to the source or to the target, is a read permission
-- for the key that `share_to_user` is, on an object for which the user chose to share the private
-- data; from the low to the high side none is sent.
pub handle_sync_batch-IsShared :
    (sh : Shared) (mocks : ℕ → List (ℕ × Attr)) (c : Choices) (root_diff : ObjectDiff) (b : Batch)
    (all after : List Batch) (states : ResolvedSyncState × ResolvedSyncState)
    (direction : SyncDirection) (ds : List ObjectDiff)
    → handle_sync_batch sh mocks c root_diff b all ≡ (after, ok (some states))
    → sh.sync_direction ≡ some direction
    → get_dependencies sh b.root_id true true ≡ ok ds
    → AllIn (IsShared c (share_to_user c ds) direction) states.0.new_permissions
      × AllIn (IsShared c (share_to_user c ds) direction) states.1.new_permissions
handle_sync_batch-IsShared sh mocks c root_diff b all after states direction ds e d g =
    let user = share_to_user c ds in
    let (is, f, x, y) =
      handle_sync-Resolves sh mocks c root_diff b all after states direction ds e d g in
    let given : All (Gives (IsShared c user direction)) is =
      instructions-All c (λ v. Unit {0}) (Gives (IsShared c user direction)) direction user
        (λ v i r k.
          let (o, share, mockify, granted, p, q, w, m) = instruction-parts c direction user v i k in
          rw (← m) (read_permissions-IsShared c o direction share user granted q w))
        ds is (All-trivial ds) f in
    (
      add_all-keeps mocks
          (λ (s : ResolvedSyncState). AllIn (IsShared c user direction) s.new_permissions)
          (Gives (IsShared c user direction)) (AllIn-step (IsShared c user direction) mocks) is _
          states.0 given x (start_permissions (IsShared c user direction) sh direction d).0,
      add_all-keeps mocks
          (λ (s : ResolvedSyncState). AllIn (IsShared c user direction) s.new_permissions)
          (Gives (IsShared c user direction)) (AllIn-step (IsShared c user direction) mocks) is _
          states.1 given y (start_permissions (IsShared c user direction) sh direction d).1,
    )
