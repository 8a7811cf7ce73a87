-- ===== src/Sync/Handle.antt =====
-- client/syncing.py, `handle_sync_batch`.
use py_syft.Prelude.{ℕ, Bool, true, false, Option, none, some, List, [], ◌∷◌, if◌then◌else◌}
use py_syft.Prelude.Result.{Result, ok, err, ◌>>=◌, or_raise}
use py_syft.Permission.{VerifyKey}
use py_syft.Sync.Objects.{
  SyncDirection, SyncDecision, ignore, to_sync_decision, user_code, SyncObject, Attr, ObjectDiff,
  Status, same, object_id, non_empty_object, DiffError,
}
use py_syft.Sync.Resolved.{ResolvedSyncState, add_sync_instruction}
use py_syft.Sync.Instructions.{
  SyncInstruction, SyncError, ignored, already_synced, sync_direction_missing, attribute_error,
  share_missing, diff_error, from_batch_decision,
}
use py_syft.Sync.Batch.{Shared, Batch, get_dependencies, batch_status, create_new_resolved_states}
use py_syft.Sync.Ignore.{Sent, set_decisions}

-- What the user chose in the widget: `share_private_data` and `mockify`, dicts by the ids of the
-- objects; and the keys: the `user_verify_key` of a user code, and `user_verify_key_high`.
pub record Choices : Type 0 where
  pub share_private_data : ℕ → Option Bool
  pub mockify : ℕ → Option Bool
  pub code_key : SyncObject → Option VerifyKey
  pub user_verify_key_high : VerifyKey

abbrev is_user_code : Option SyncObject → Bool
is_user_code none = false
is_user_code (some o) = elim o.kind [ user_code side ↦ true | _ ↦ false ]

-- `user_code_diff`: the first in the order in which the set of dependencies is listed.
unfoldable pub user_code_diff : List ObjectDiff → Option ObjectDiff
user_code_diff [] = none
user_code_diff (d ∷ ds) = if is_user_code (non_empty_object d) then some d else user_code_diff ds

-- `user_code_high`
abbrev high_of : Option ObjectDiff → Option SyncObject
high_of none = none
high_of (some d) = if is_user_code d.high_obj then d.high_obj else none

unfoldable pub user_code_high : List ObjectDiff → Option SyncObject
unfolding user_code_diff
user_code_high ds = high_of (user_code_diff ds)

module _ (mocks : ℕ → List (ℕ × Attr)) where
  -- The loop that applies the instructions to a resolved state.
  unfoldable pub add_all :
      List SyncInstruction → ResolvedSyncState → Result SyncError ResolvedSyncState
  unfolding add_sync_instruction
  add_all [] s = ok s
  add_all (i ∷ is) s = add_sync_instruction mocks i s >>= add_all is

module _ (c : Choices) where
  -- `getattr(user_code_high, "user_verify_key", None) or user_verify_key_high`
  abbrev key_or_high : Option VerifyKey → VerifyKey
  key_or_high none = c.user_verify_key_high
  key_or_high (some k) = k

  abbrev code_key_of : Option SyncObject → Option VerifyKey
  code_key_of none = none
  code_key_of (some o) = c.code_key o

  unfoldable pub share_to_user : List ObjectDiff → VerifyKey
  unfolding user_code_high
  share_to_user ds = key_or_high (code_key_of (user_code_high ds))

  -- The body of the loop over the dependencies, for the direction and the key.
  unfoldable pub instruction :
      SyncDirection → VerifyKey → ObjectDiff → Result SyncError SyncInstruction
  unfolding object_id from_batch_decision
  instruction direction user d = or_raise (object_id d) attribute_error >>= λ i.
      or_raise (c.share_private_data i) (share_missing i) >>= λ share.
      or_raise (c.mockify i) (share_missing i) >>= λ mockify.
      from_batch_decision d direction share mockify (to_sync_decision direction) (some user)

  unfoldable pub instructions :
      SyncDirection → VerifyKey → List ObjectDiff → Result SyncError (List SyncInstruction)
  unfolding instruction
  instructions direction user [] = ok []
  instructions direction user (d ∷ ds) =
      instruction direction user d >>= λ i. instructions direction user ds >>= λ is. ok (i ∷ is)

module _ (sh : Shared) (mocks : ℕ → List (ℕ × Attr)) (c : Choices) where
  -- The states of the source and the target, from the diffs of the batch. They have nothing in common, so
  -- that it does not matter that the source adds each instruction just after the target.
  unfoldable pub resolve : SyncDirection → List ObjectDiff → Sent
  unfolding share_to_user instructions add_all create_new_resolved_states
  resolve direction ds =
      let states = create_new_resolved_states sh in
      instructions c direction (share_to_user c ds) ds >>= λ is.
      add_all mocks is states.0 >>= λ source.
      add_all mocks is states.1 >>= λ target. ok (some (source, target))

  unfoldable pub resolve_diffs : SyncDirection → Result DiffError (List ObjectDiff) → Sent
  unfolding resolve
  resolve_diffs direction (err e) = err (diff_error e)
  resolve_diffs direction (ok ds) = resolve direction ds

  -- The decision is set before the instructions are made, and stays where that raises.
  unfoldable pub sync_decided :
      SyncDirection → Batch → List Batch → Option SyncDecision → List Batch × Sent
  unfolding set_decisions resolve_diffs get_dependencies
  sync_decided direction b bs (some ignore) = (bs, err ignored)
  sync_decided direction b bs (some d) = (bs, err already_synced)
  sync_decided direction b bs none = (
    set_decisions (b.root_id ∷ []) (some (to_sync_decision direction)) bs,
    resolve_diffs direction (get_dependencies sh b.root_id true true),
  )

  unfoldable pub sync_changed :
      SyncDirection → Batch → List Batch → Result DiffError Status → List Batch × Sent
  unfolding sync_decided
  sync_changed direction b bs (err e) = (bs, err (diff_error e))
  sync_changed direction b bs (ok same) = (bs, ok none)
  sync_changed direction b bs (ok s) = sync_decided direction b bs b.decision

  unfoldable pub sync_directed :
      Option SyncDirection → ObjectDiff → Batch → List Batch → List Batch × Sent
  unfolding sync_changed batch_status
  sync_directed none root_diff b bs = (bs, err sync_direction_missing)
  sync_directed (some direction) root_diff b bs =
      sync_changed direction b bs (batch_status sh root_diff b.root_id)

  -- `handle_sync_batch`: the batches after it, and the states sent to the source and the target.
  unfoldable pub handle_sync_batch : ObjectDiff → Batch → List Batch → List Batch × Sent
  unfolding sync_directed
  handle_sync_batch root_diff b all_batches =
      sync_directed sh.sync_direction root_diff b all_batches
