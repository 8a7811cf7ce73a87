-- ===== src/Sync/Instructions.antt =====
-- service/sync/diff_state.py, `SyncInstruction`.
use py_syft.Prelude.{
  ℕ, ◌+◌, ◌*◌, Bool, true, false, Option, none, some, List, [], ◌∷◌, if◌then◌else◌,
}
use py_syft.Prelude.Result.{Result, ok, err, ◌>>=◌}
use py_syft.Permission.{Permission, VerifyKey, for_key, read}
use py_syft.Sync.Objects.{
  SyncDirection, low_to_high, high_to_low, SyncDecision, Kind, user_code, request,
  twin_api_endpoint, syft_log, execution_output, job, action_object, other, SyncObject, ObjectDiff,
  non_empty_object, DiffError,
}

-- The class of an object, as a number: an action object has one of many classes.
unfoldable pub type_of : Kind → ℕ
type_of (user_code side) = 0
type_of request = 1
type_of twin_api_endpoint = 2
type_of syft_log = 3
type_of execution_output = 4
type_of (job parent twin) = 5
type_of (action_object n) = 6 + 2 * n
type_of (other n) = 7 + 2 * n

-- `obj_type in [Job, SyftLog, Request] or issubclass(obj_type, ActionObject)`
abbrev pub is_shared_high : Kind → Bool
is_shared_high request = true
is_shared_high syft_log = true
is_shared_high (job parent twin) = true
is_shared_high (action_object n) = true
is_shared_high _ = false

-- `object_type != "Job" and object_type != "ExecutionOutput"`
abbrev pub needs_user : Kind → Bool
needs_user (job parent twin) = false
needs_user execution_output = false
needs_user _ = true

-- `StoragePermission`: the id of the object and the server that may hold it.
abbrev pub OnServer : Type 0
OnServer = ℕ × ℕ

-- A dict from classes to lists of permissions.
abbrev pub Permissions : Type 0
Permissions = List (ℕ × List Permission)

pub record SyncInstruction : Type 0 where
  pub diff : ObjectDiff
  pub decision : Option SyncDecision
  pub new_permissions_lowside : Permissions
  pub new_permissions_highside : Permissions
  pub new_storage_permissions_lowside : List OnServer
  pub new_storage_permissions_highside : List OnServer
  pub unignore : Bool
  pub mockify : Bool

pub data SyncError : Type 0 where
  share_to_user_required invalid_alias attribute_error : SyncError
  ignored already_synced sync_direction_missing : SyncError
  diff_error : DiffError → SyncError
  share_missing : ℕ → SyncError

-- The read permissions of the two sides, for the object `o` of the diff.
unfoldable pub read_permissions :
    SyncObject
    → SyncDirection
    → Bool
    → Option VerifyKey
    → Result SyncError (Permissions × Permissions)
unfolding type_of
read_permissions o high_to_low true none =
    if needs_user o.kind then err share_to_user_required else ok ([], [])
read_permissions o high_to_low true (some k) =
    let granted = (type_of o.kind, for_key read o.id k ∷ []) ∷ [] in
    ok (granted, if is_shared_high o.kind then granted else [])
read_permissions o direction share user = ok ([], [])

unfoldable pub storage_permissions : ObjectDiff → ℕ → SyncDirection → Bool → List OnServer
storage_permissions d uid high_to_low true = []
storage_permissions d uid high_to_low false = (uid, d.low_server_uid) ∷ []
storage_permissions d uid low_to_high mockify = (uid, d.high_server_uid) ∷ []

abbrev object_of : Option SyncObject → Result SyncError SyncObject
object_of none = err attribute_error
object_of (some o) = ok o

-- `from_batch_decision`
unfoldable pub from_batch_decision :
    ObjectDiff
    → SyncDirection
    → Bool
    → Bool
    → SyncDecision
    → Option VerifyKey
    → Result SyncError SyncInstruction
unfolding read_permissions storage_permissions
from_batch_decision d direction share_private_data mockify decision share_to_user =
    object_of (non_empty_object d) >>= λ o.
    read_permissions o direction share_private_data share_to_user >>= λ granted. ok (record {
      diff = d;
      decision = some decision;
      new_permissions_lowside = granted.0;
      new_permissions_highside = granted.1;
      new_storage_permissions_lowside = storage_permissions d o.id direction mockify;
      new_storage_permissions_highside = storage_permissions d o.id direction mockify;
      unignore = false;
      mockify = mockify;
    })
