-- ===== src/Users/Rules.antt =====
-- What the rules on users of user_service.py allow.
use py_syft.Prelude.{
  ℕ, ◌≡◌, refl, Bool, true, false, not, ◌&&◌, ◌||◌, Option, none, some, ltb, ◌==◌, arith,
}
use py_syft.Prelude.Result.{Result, ok, raise_if, ◌>>◌}
use py_syft.Role.{
  ServiceRole, no_role, guest, data_scientist, data_owner, admin, value, role_eq, can, capabilities,
  can_edit_roles, can_manage_users,
}
use py_syft.Users.{
  UserError, permission_error, immutable_field, root_role, root_verify_key, empty_name,
  email_exists, User, UserUpdate, updates_role, may_set_role, check_user, check_update,
  has_low_role, check_delete,
}

-- Of seven checks in a row that pass, the second, the sixth and the seventh.
checks-ok :
    (a b c d e f g : Bool) (t u v w x y z : UserError)
    → (raise_if a t
        >> raise_if b u
        >> raise_if c v
        >> raise_if d w
        >> raise_if e x
        >> raise_if f y
        >> raise_if g z)
      ≡ ok tt
    → (b ≡ false) × (f ≡ false) × (g ≡ false)
checks-ok true b c d e f g t u v w x y z h = ground arith
checks-ok false true c d e f g t u v w x y z h = ground arith
checks-ok false false true d e f g t u v w x y z h = ground arith
checks-ok false false false true e f g t u v w x y z h = ground arith
checks-ok false false false false true f g t u v w x y z h = ground arith
checks-ok false false false false false true g t u v w x y z h = ground arith
checks-ok false false false false false false true t u v w x y z h = ground arith
checks-ok false false false false false false false t u v w x y z h = (refl, refl, refl)

update-ok :
    (a b : Bool) (t u : UserError) (rest : Result UserError (Unit {0}))
    → (raise_if a t >> raise_if b u >> rest) ≡ ok tt
    → rest ≡ ok tt
update-ok true b t u rest h = ground arith
update-ok false true t u rest h = ground arith
update-ok false false t u rest h = h

not-false : (b : Bool) → not b ≡ false → b ≡ true
not-false true h = refl
not-false false h = ground arith

may_set_role-above :
    (r old new : ServiceRole)
    → may_set_role r (some old) (some new) ≡ true
    → (role_eq r admin || (ltb (value old) (value r) && ltb (value new) (value r))) ≡ true
unfolding may_set_role
may_set_role-above r old new h = ground arith

can_manage-admin : (r : ServiceRole) → can r can_manage_users ≡ role_eq r admin
unfolding can capabilities
can_manage-admin no_role = refl
can_manage-admin guest = refl
can_manage-admin data_scientist = refl
can_manage-admin data_owner = refl
can_manage-admin admin = refl

root-kept :
    (x : Option ServiceRole) (new : ServiceRole) (b : Bool)
    → (updates_role x && b) ≡ false
    → x ≡ some new
    → b ≡ false
root-kept none new b h n = ground arith
root-kept (some s) new b h n = h

either : (a b c : Bool) → (a && not b && not c) ≡ false → a ≡ true → (b || c) ≡ true
either a b c h e = ground arith

two-ok :
    (a b : Bool)
    → (raise_if a permission_error >> raise_if b permission_error) ≡ ok tt
    → (a ≡ false) × (b ≡ false)
two-ok true b h = ground arith
two-ok false true h = ground arith
two-ok false false h = (refl, refl)

low-below :
    (r old : ServiceRole) (x : Option ServiceRole)
    → (role_eq r admin || (role_eq r data_owner && has_low_role x)) ≡ true
    → x ≡ some old
    → (role_eq r admin || ltb (value old) (value r)) ≡ true
low-below r old none h o = ground arith
low-below r old (some s) h o = ground arith

-- What the checks of `update` ask of the user found.
check_user-ok :
    (r : ServiceRole) (key server_key : ℕ) (email_taken : Bool) (user : User) (u : UserUpdate)
    → check_user r key server_key email_taken user u ≡ ok tt
    → ((updates_role u.role && (user.verify_key == server_key)) ≡ false)
      × (not (may_set_role r user.role u.role) ≡ false)
      × ((u.edits_non_role_attrs && not (user.verify_key == key) && not (can r can_manage_users))
          ≡ false)
unfolding check_user
check_user-ok r key server_key email_taken user u h =
    checks-ok u.sets_immutable (updates_role u.role && (user.verify_key == server_key))
      (u.sets_verify_key && (user.verify_key == server_key)) u.sets_blank_name
      (u.sets_email && email_taken) (not (may_set_role r user.role u.role))
      (u.edits_non_role_attrs && not (user.verify_key == key) && not (can r can_manage_users))
      immutable_field root_role root_verify_key empty_name email_exists permission_error
      permission_error h

check_update-user :
    (r : ServiceRole) (key server_key : ℕ) (email_taken : Bool) (user : User) (u : UserUpdate)
    → check_update r key server_key email_taken (ok user) u ≡ ok tt
    → check_user r key server_key email_taken user u ≡ ok tt
unfolding check_update
check_update-user r key server_key email_taken user u h =
    update-ok (updates_role u.role && not (can r can_edit_roles))
      (u.sets_mock_execution && not (can r can_edit_roles)) permission_error permission_error
      (check_user r key server_key email_taken user u) h

-- An update of a user's role that passes the checks of `update` is not one of the root user, and
-- is the work of an admin or of a caller whose role is above both the old and the new role.
pub check_update-role :
    (r : ServiceRole) (key server_key : ℕ) (email_taken : Bool) (user : User) (u : UserUpdate)
    (old new : ServiceRole)
    → check_update r key server_key email_taken (ok user) u ≡ ok tt
    → user.role ≡ some old
    → u.role ≡ some new
    → ((user.verify_key == server_key) ≡ false)
      × ((role_eq r admin || (ltb (value old) (value r) && ltb (value new) (value r))) ≡ true)
check_update-role r key server_key email_taken user u old new h o n =
    let (root, role, _) =
      check_user-ok r key server_key email_taken user u
        (check_update-user r key server_key email_taken user u h) in
    (
      root-kept u.role new (user.verify_key == server_key) root n,
      may_set_role-above r old new (rw (← o) (rw (← n) (not-false _ role))),
    )

-- An update of anything but a role that passes the checks of `update` is the work of the user or of
-- an admin.
pub check_update-others :
    (r : ServiceRole) (key server_key : ℕ) (email_taken : Bool) (user : User) (u : UserUpdate)
    → check_update r key server_key email_taken (ok user) u ≡ ok tt
    → u.edits_non_role_attrs ≡ true
    → ((user.verify_key == key) || role_eq r admin) ≡ true
check_update-others r key server_key email_taken user u h e =
    let (_, _, others) =
      check_user-ok r key server_key email_taken user u
        (check_update-user r key server_key email_taken user u h) in
    rw (← can_manage-admin r)
      (either u.edits_non_role_attrs (user.verify_key == key) (can r can_manage_users) others e)

-- A deletion that passes the checks of `delete` is not one of the root user, and is the work of an
-- admin or of a caller whose role is above the user's.
pub check_delete-role :
    (r : ServiceRole) (root_key : ℕ) (user : User) (old : ServiceRole)
    → check_delete r root_key (ok user) ≡ ok tt
    → user.role ≡ some old
    → ((user.verify_key == root_key) ≡ false)
      × ((role_eq r admin || ltb (value old) (value r)) ≡ true)
unfolding check_delete
check_delete-role r root_key user old h o =
    let (root, role) =
      two-ok (user.verify_key == root_key)
        (not (role_eq r admin || (role_eq r data_owner && has_low_role user.role))) h in
    (root, low-below r old user.role (not-false _ role) o)
