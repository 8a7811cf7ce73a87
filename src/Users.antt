-- ===== src/Users.antt =====
-- packages/syft/src/syft/service/user/user_service.py: who may change and delete users.
mod Rules
mod Examples
use py_syft.Prelude.{
  ℕ, Bool, true, false, not, ◌&&◌, ◌||◌, Option, none, some, ltb, ◌==◌, if◌then◌else◌,
}
use py_syft.Prelude.Result.{Result, ok, err, raise_if, ◌>>◌, ◌>>=◌}
use py_syft.Role.{
  ServiceRole, guest, data_scientist, data_owner, admin, value, role_eq, can, can_edit_roles,
  can_manage_users,
}

pub data UserError : Type 0 where
  permission_error not_found immutable_field root_role root_verify_key empty_name email_exists :
      UserError

-- What the rules read of a `User`.
pub record User : Type 0 where
  pub verify_key : ℕ
  pub role : Option ServiceRole

-- What the rules ask of a `UserUpdate`: the role, if it is not Empty, and whether the other
-- attributes are set; `edits_non_role_attrs` is the scan over them.
pub record UserUpdate : Type 0 where
  pub role : Option ServiceRole
  pub sets_mock_execution : Bool
  pub sets_immutable : Bool
  pub sets_verify_key : Bool
  pub sets_blank_name : Bool
  pub sets_email : Bool
  pub edits_non_role_attrs : Bool

abbrev pub updates_role : Option ServiceRole → Bool
updates_role none = false
updates_role (some r) = true

-- `user.role is not None and context.role.value > user.role.value`
abbrev pub is_above : ServiceRole → Option ServiceRole → Bool
is_above r none = false
is_above r (some s) = ltb (value s) (value r)

-- The rule on roles, for the caller's role, the user's and the new one.
unfoldable pub may_set_role : ServiceRole → Option ServiceRole → Option ServiceRole → Bool
may_set_role r old none = true
may_set_role r old (some new) =
    if role_eq r admin
    then true
    else role_eq r data_owner && is_above r old && ltb (value new) (value r)

-- `update` behind the look-up of the user, up to the change of the user, for the caller's role and
-- key, the server's key, and whether the email exists.
unfoldable pub check_user :
    ServiceRole → ℕ → ℕ → Bool → User → UserUpdate → Result UserError (Unit {0})
unfolding may_set_role can
check_user r key server_key email_taken user u =
    raise_if u.sets_immutable immutable_field
    >> raise_if (updates_role u.role && (user.verify_key == server_key)) root_role
    >> raise_if (u.sets_verify_key && (user.verify_key == server_key)) root_verify_key
    >> raise_if u.sets_blank_name empty_name
    >> raise_if (u.sets_email && email_taken) email_exists
    >> raise_if (not (may_set_role r user.role u.role)) permission_error
    >> raise_if
        (u.edits_non_role_attrs && not (user.verify_key == key) && not (can r can_manage_users))
        permission_error

-- The checks of `update`; `found` is what the stash gives for the id.
unfoldable pub check_update :
    ServiceRole → ℕ → ℕ → Bool → Result UserError User → UserUpdate → Result UserError (Unit {0})
unfolding check_user can
check_update r key server_key email_taken found u =
    raise_if (updates_role u.role && not (can r can_edit_roles)) permission_error
    >> raise_if (u.sets_mock_execution && not (can r can_edit_roles)) permission_error
    >> (found >>= λ user. check_user r key server_key email_taken user u)

abbrev pub has_low_role : Option ServiceRole → Bool
has_low_role none = false
has_low_role (some s) = role_eq s guest || role_eq s data_scientist

-- The checks of `delete`.
unfoldable pub check_delete : ServiceRole → ℕ → Result UserError User → Result UserError (Unit {0})
check_delete r root_key found = found >>= λ user.
    raise_if (user.verify_key == root_key) permission_error
    >> raise_if (not (role_eq r admin || (role_eq r data_owner && has_low_role user.role)))
        permission_error
