-- ===== src/Permission.antt =====
-- packages/syft/src/syft/service/action/action_permissions.py: the permissions on stored objects
-- and the strings under which they are stored.
mod Strings
pub mod Examples
use py_syft.Prelude.{
  ℕ, ◌≡◌, Bool, true, false, ◌||◌, ◌&&◌, Option, none, some, List, [], ◌∷◌, ◌++◌, leb, ◌==◌, All,
  if◌then◌else◌, Text, codes, text_eq, starts_with,
}
use py_syft.Prelude.Result.{Result, ok, err, or_raise, ◌>>=◌}

-- A verify key, by the number that its bytes spell.
abbrev pub VerifyKey : Type 0
VerifyKey = ℕ

abbrev pub is_hex_digit : ℕ → Bool
is_hex_digit c = (leb 48 c && leb c 57) || (leb 97 c && leb c 102)

-- PyNaCl's `VerifyKey.encode(HexEncoder)` and `VerifyKey(bytes.fromhex(_))`, which raises on text
-- that is no key (server/credentials.py calls them).
pub record KeyCodec : Type 0 where
  pub encode : VerifyKey → Text
  pub decode : Text → Option VerifyKey
  pub decode-encode : (k : VerifyKey) → decode (encode k) ≡ some k
  pub encode_hex : (k : VerifyKey) → All (λ c. is_hex_digit c ≡ true) (encode k)

pub data ActionPermission : Type 0 where
  owner read all_read write all_write execute all_execute all_owner : ActionPermission

-- `COMPOUND_ACTION_PERMISSION`
abbrev pub is_compound : ActionPermission → Bool
is_compound all_read = true
is_compound all_write = true
is_compound all_execute = true
is_compound all_owner = true
is_compound _ = false

unfoldable pub as_compound : ActionPermission → ActionPermission
as_compound read = all_read
as_compound write = all_write
as_compound execute = all_execute
as_compound owner = all_owner
as_compound p = p

-- `p.name`
unfoldable pub name : ActionPermission → Text
name owner = codes "OWNER"
name read = codes "READ"
name all_read = codes "ALL_READ"
name write = codes "WRITE"
name all_write = codes "ALL_WRITE"
name execute = codes "EXECUTE"
name all_execute = codes "ALL_EXECUTE"
name all_owner = codes "ALL_OWNER"

find_name : Text → List ActionPermission → Option ActionPermission
unfolding name
find_name s [] = none
find_name s (p ∷ ps) = if text_eq s (name p) then some p else find_name s ps

-- `ActionPermission[s]`; `none` is a `KeyError`.
by_name : Text → Option ActionPermission
unfolding find_name
by_name s =
    find_name s
      (owner ∷ read ∷ all_read ∷ write ∷ all_write ∷ execute ∷ all_execute ∷ all_owner ∷ [])

pub data PermissionError : Type 0 where
  not_compound key_error value_error : PermissionError

-- `ActionObjectPermission`
pub record Permission : Type 0 where
  pub uid : ℕ
  pub permission : ActionPermission
  pub credentials : Option VerifyKey

-- `ActionObjectPermission.__init__`
unfoldable pub new : ℕ → ActionPermission → Option VerifyKey → Result PermissionError Permission
new uid p none =
    if is_compound p
    then ok (record { uid = uid; permission = p; credentials = none })
    else err not_compound
new uid p (some k) = ok (record { uid = uid; permission = p; credentials = some k })

-- `ActionObjectOWNER`, `ActionObjectWRITE`, `ActionObjectREAD`, `ActionObjectEXECUTE`
abbrev pub for_key : ActionPermission → ℕ → VerifyKey → Permission
for_key p uid k = record { uid = uid; permission = p; credentials = some k }

-- `s.split("_", 1)`; `none` where there is no `_`, so that the assignment to two names raises.
unfoldable pub split_once : Text → Option (Text × Text)
split_once [] = none
split_once (c ∷ s) =
    let rest : Option (Text × Text) = elim (split_once s) [
      | none ↦ none
      | some (a, b) ↦ some (c ∷ a, b)
    ] in
    if c == b'_' then some ([], s) else rest

module _ (keys : KeyCodec) where
  open keys use {encode, decode}

  prefixed : Option VerifyKey → ActionPermission → Text
  unfolding name
  prefixed none p = name p
  prefixed (some k) p = encode k ++ b'_' ∷ name p

  unfoldable pub permission_string : Permission → Text
  unfolding prefixed
  permission_string p =
      if is_compound p.permission then name p.permission else prefixed p.credentials p.permission

  unfoldable pub compound_permission_string : Permission → Text
  unfolding as_compound name
  compound_permission_string p = name (as_compound p.permission)

  -- The branch of `from_permission_string` for the permission of one key.
  parse_key : ℕ → Option (Text × Text) → Result PermissionError Permission
  unfolding by_name new
  parse_key uid none = err value_error
  parse_key uid (some (key_str, perm_str)) = do
    p ← or_raise (by_name perm_str) key_error
    k ← or_raise (decode key_str) value_error
    new uid p (some k)

  unfoldable pub from_permission_string : ℕ → Text → Result PermissionError Permission
  unfolding parse_key by_name new split_once
  from_permission_string uid s =
      if starts_with s (codes "ALL_")
      then (do p ← or_raise (by_name s) key_error; new uid p none)
      else parse_key uid (split_once s)
