-- ===== src/Users/Examples.antt =====
-- The rules on users at concrete users.
use py_syft.Prelude.{◌≡◌, refl, true, false, ◌||◌, ◌&&◌, none, some, ◌==◌, ltb}
use py_syft.Role.{guest, data_scientist, data_owner, admin, value, role_eq, can, capabilities}
use py_syft.Users.{User, UserUpdate, may_set_role, check_user, check_update, check_delete}
use py_syft.Users.Rules.{check_update-role, check_update-others, check_delete-role}

-- A guest with the key 7.
abbrev visitor : User
visitor = record { verify_key = 7; role = some guest }

abbrev promotion : UserUpdate
promotion = record {
  role = some data_scientist;
  sets_mock_execution = false;
  sets_immutable = false;
  sets_verify_key = false;
  sets_blank_name = false;
  sets_email = false;
  edits_non_role_attrs = false;
}

abbrev new_email : UserUpdate
new_email = record promotion { role = none; sets_email = true; edits_non_role_attrs = true }

-- A data owner with the key 3 makes the guest a data scientist.
check_update-role_example :
    ((7 == 1) ≡ false)
    × ((role_eq data_owner admin
          || (ltb (value guest) (value data_owner)
              && ltb (value data_scientist) (value data_owner)))
        ≡ true)
unfolding check_update check_user may_set_role can capabilities
check_update-role_example =
    check_update-role data_owner 3 1 false visitor promotion guest data_scientist refl refl refl

-- The guest changes the email.
visitor_edits_self : ((7 == 7) || role_eq guest admin) ≡ true
unfolding check_update check_user may_set_role can capabilities
visitor_edits_self = check_update-others guest 7 1 false visitor new_email refl refl

check_delete-role_at_work :
    ((7 == 1) ≡ false) × ((role_eq data_owner admin || ltb (value guest) (value data_owner)) ≡ true)
unfolding check_delete
check_delete-role_at_work = check_delete-role data_owner 1 visitor guest refl refl
