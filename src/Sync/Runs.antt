-- ===== src/Sync/Runs.antt =====
-- The theorems on `handle_sync_batch` and the filters at the comparison of Examples.antt.
use py_syft.Prelude.{
  ℕ, Bool, ◌+◌, ◌≡◌, refl, true, false, ◌&&◌, none, some, List, [], ◌∷◌, All, filter, Text, codes,
  ◌==◌, leb, if◌then◌else◌, arith,
}
use py_syft.Prelude.Result.{ok}
use py_syft.Permission.{read, for_key}
use py_syft.Sync.Objects.{
  high_to_low, high, low_side, high_side, Kind, user_code, syft_log, job, SyncObject, Attr,
  ObjectDiff, Status, new, status,
}
use py_syft.Sync.Resolved.{ResolvedSyncState, new_resolved}
use py_syft.Sync.Batch.{Batch, get_dependencies, batch_status}
use py_syft.Sync.Ignore.{set_decisions}
use py_syft.Sync.Handle.{Choices, handle_sync_batch, share_to_user}
use py_syft.Sync.Sending.{HasNoObjects, handle_sync_batch_lem}
use py_syft.Sync.Placing.{IsUnique}
use py_syft.Sync.Placement.{IsPlaced}
use py_syft.Sync.Arriving.{handle_sync_batch-arrives}
use py_syft.Sync.Sharing.{AllIn, IsShared, handle_sync_batch-IsShared}
use py_syft.Sync.Sends.{handle_sync_batch-sends}
use py_syft.Sync.Filters.{View, filter_batches}
use py_syft.Sync.Filtering.{is_kept, filter_batches_lem}
use py_syft.Sync.Examples.{only_high, shared, open_batch, all_batches}

-- Everything is shared, nothing is a mock; 55 is the key of the user code.
abbrev choices : Choices
choices = record {
  share_private_data = λ i. some true;
  mockify = λ i. some false;
  code_key = λ o. some 55;
  user_verify_key_high = 77;
}

abbrev no_mocks : ℕ → List (ℕ × Attr)
no_mocks n = []

abbrev object : ℕ → Kind → SyncObject
object i k = record { id = i; kind = k; attrs = [] }

abbrev diffs_3 : List ObjectDiff
diffs_3 =
    (only_high 3 (job none false)).1
    ∷ (only_high 4 syft_log).1
    ∷ (only_high 2 (user_code low_side)).1
    ∷ []

abbrev synced_3 : List Batch
synced_3 = open_batch 1 ∷ open_batch 2 ∷ record { root_id = 3; decision = some high } ∷ []

-- The source gets permissions only; the target the three objects, with the permissions on them.
abbrev states_3 : ResolvedSyncState × ResolvedSyncState
states_3 = (
  record (new_resolved 200 high_side) {
    new_permissions = (5, for_key read 3 55 ∷ []) ∷ (3, for_key read 4 55 ∷ []) ∷ [];
    new_storage_permissions = (3, 100) ∷ (4, 100) ∷ (2, 100) ∷ [];
  },
  record (new_resolved 100 low_side) {
    create_objs =
        object 3 (job none false) ∷ object 4 syft_log ∷ object 2 (user_code low_side) ∷ [];
    new_permissions =
        (5, for_key read 3 55 ∷ [])
        ∷ (3, for_key read 4 55 ∷ [])
        ∷ (0, for_key read 2 55 ∷ [])
        ∷ [];
    new_storage_permissions = (3, 100) ∷ (4, 100) ∷ (2, 100) ∷ [];
  },
)

sent_3 :
    handle_sync_batch shared no_mocks choices
      (only_high 3 (job none false)).1
      (open_batch 3)
      all_batches
    ≡ (synced_3, ok (some states_3))
unfolding handle_sync_batch
sent_3 = refl

dependencies_3 : get_dependencies shared 3 true true ≡ ok diffs_3
unfolding get_dependencies
dependencies_3 = refl

handle_sync_batch_lem_example :
    HasNoObjects high_side states_3.0 × (states_3.1.delete_objs ≡ []) × IsUnique states_3.1
handle_sync_batch_lem_example =
    handle_sync_batch_lem shared no_mocks choices (only_high 3 (job none false)).1 (open_batch 3)
      all_batches synced_3 states_3 high_to_low diffs_3 sent_3 refl dependencies_3
      ((_, refl), ((_, refl), ((_, refl), tt)))

handle_sync_batch-arrives_example :
    All (λ (d : ObjectDiff). IsPlaced (status d) d.low_obj d.high_obj states_3.1) diffs_3
handle_sync_batch-arrives_example =
    handle_sync_batch-arrives shared no_mocks choices (only_high 3 (job none false)).1
      (open_batch 3) all_batches synced_3 states_3 high_to_low diffs_3 sent_3 refl dependencies_3

handle_sync_batch-IsShared_example :
    AllIn (IsShared choices 55 high_to_low) states_3.0.new_permissions
    × AllIn (IsShared choices 55 high_to_low) states_3.1.new_permissions
unfolding share_to_user
handle_sync_batch-IsShared_example =
    handle_sync_batch-IsShared shared no_mocks choices (only_high 3 (job none false)).1
      (open_batch 3) all_batches synced_3 states_3 high_to_low diffs_3 sent_3 refl dependencies_3

handle_sync_batch-sends_example :
    (states : ResolvedSyncState × ResolvedSyncState) × (handle_sync_batch shared no_mocks choices
        (only_high 3 (job none false)).1
        (open_batch 3)
        all_batches
      ≡ (set_decisions (3 ∷ []) (some high) all_batches, ok (some states)))
unfolding batch_status
handle_sync_batch-sends_example =
    handle_sync_batch-sends shared no_mocks choices (only_high 3 (job none false)).1 (open_batch 3)
      all_batches high_to_low diffs_3 new refl refl dependencies_3 refl (λ e. ground arith)
      (
        ((_, refl), (_, _, _, refl, refl, refl)),
        (((_, refl), (_, _, _, refl, refl, refl)), (((_, refl), (_, _, _, refl, refl, refl)), tt)),
      )

abbrev lower_char : ℕ → ℕ
lower_char c = if leb 65 c && leb c 90 then c + 32 else c

abbrev lower : Text → Text
lower [] = []
lower (c ∷ t) = lower_char c ∷ lower t

-- The request of an unchanged batch 1, and new batches for a code 2 and a job 3; the code is of the
-- user with the email b@c, the rest of the user a@b.
abbrev view : View
view = record {
  email = λ b. if b.root_id == 2 then some (codes "b@c") else some (codes "a@b");
  type_name = λ b. if b.root_id == 2 then codes "UserCode" else codes "Job";
  batch_status = λ b. if b.root_id == 1 then some Status.same else some new;
}

view-lower : (b : Batch) (email : Text) → view.email b ≡ some email → lower email ≡ email
view-lower b email h = by_root (b.root_id == 2) h
  where
    by_root :
        (t : Bool)
        → (if t then some (codes "b@c") else some (codes "a@b")) ≡ some email
        → lower email ≡ email
    by_root true g = let same : codes "b@c" ≡ email = cc in rw⁻¹ same refl
    by_root false g = let same : codes "a@b" ≡ email = cc in rw⁻¹ same refl

-- The batches of a@b, asked for with a capital letter, without code.
filter_batches_lem_example :
    filter_batches lower view
      (some (codes "A@b"))
      false
      false
      none
      (codes "usercode" ∷ [])
      all_batches
    ≡ filter
        (is_kept lower view (some (codes "A@b")) false false none (codes "usercode" ∷ []))
        all_batches
filter_batches_lem_example =
    filter_batches_lem lower view (some (codes "A@b")) false false none (codes "usercode" ∷ [])
      all_batches view-lower refl

filtered :
    filter_batches lower view
      (some (codes "A@b"))
      false
      false
      none
      (codes "usercode" ∷ [])
      all_batches
    ≡ open_batch 3 ∷ []
unfolding filter_batches
filtered = refl
