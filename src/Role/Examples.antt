-- ===== src/Role/Examples.antt =====
-- The theorems on roles at concrete roles and levels.
use py_syft.Prelude.{◌≡◌, refl, true, false, [], ◌∷◌}
use py_syft.Role.{
  guest, data_scientist, data_owner, admin, role_ge, has_role, can, can_edit_roles, roles_for_level,
  guest_role_level, data_scientist_role_level, data_owner_role_level, admin_role_level,
}
use py_syft.Role.Levels.{sum_values, marked, roles_for_level-sum, role_levels}
use py_syft.Role.Capabilities.{can_mono}

roles_of_33 : roles_for_level 33 ≡ data_owner ∷ guest ∷ []
unfolding roles_for_level
roles_of_33 = refl

some_roles_read_back :
    roles_for_level (sum_values (marked false true false true)) ≡ marked false true false true
some_roles_read_back = roles_for_level-sum false true false true

role_levels_at_work :
    (has_role data_scientist guest_role_level ≡ role_ge data_scientist guest)
    × (has_role data_scientist data_scientist_role_level ≡ role_ge data_scientist data_scientist)
    × (has_role data_scientist data_owner_role_level ≡ role_ge data_scientist data_owner)
    × (has_role data_scientist admin_role_level ≡ role_ge data_scientist admin)
role_levels_at_work = role_levels data_scientist

admin_edits_roles : can admin can_edit_roles ≡ true
admin_edits_roles = can_mono admin data_owner can_edit_roles refl (unfold can in refl)
