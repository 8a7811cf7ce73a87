-- ===== src/Role/Levels.antt =====
-- `roles_for_level` of user_roles.py reads a level as the set of roles that it is the sum of.
use py_syft.Prelude.{ℕ, ◌+◌, ◌≡◌, refl, Bool, true, false, List, [], ◌∷◌, ◌++◌}
use py_syft.Role.{
  ServiceRole, guest, data_scientist, data_owner, admin, value, role_ge, has_role, roles_for_level,
  guest_role_level, data_scientist_role_level, data_owner_role_level, admin_role_level,
}

abbrev pub sum_values : List ServiceRole → ℕ
sum_values [] = 0
sum_values (r ∷ rs) = value r + sum_values rs

abbrev keep : Bool → ServiceRole → List ServiceRole
keep true r = r ∷ []
keep false r = []

-- The roles that are marked, highest first.
abbrev pub marked : (a o d g : Bool) → List ServiceRole
marked a o d g = keep a admin ++ (keep o data_owner ++ (keep d data_scientist ++ keep g guest))

-- The level of any set of roles, the sum of their values, is read back as that set, highest first.
pub roles_for_level-sum :
    (a o d g : Bool) → roles_for_level (sum_values (marked a o d g)) ≡ marked a o d g
unfolding roles_for_level
roles_for_level-sum true true true true = refl
roles_for_level-sum true true true false = refl
roles_for_level-sum true true false true = refl
roles_for_level-sum true true false false = refl
roles_for_level-sum true false true true = refl
roles_for_level-sum true false true false = refl
roles_for_level-sum true false false true = refl
roles_for_level-sum true false false false = refl
roles_for_level-sum false true true true = refl
roles_for_level-sum false true true false = refl
roles_for_level-sum false true false true = refl
roles_for_level-sum false true false false = refl
roles_for_level-sum false false true true = refl
roles_for_level-sum false false true false = refl
roles_for_level-sum false false false true = refl
roles_for_level-sum false false false false = refl

-- The four levels that guard the service methods hold exactly the roles at or above the role that
-- they are named after.
pub role_levels :
    (r : ServiceRole)
    → (has_role r guest_role_level ≡ role_ge r guest)
      × (has_role r data_scientist_role_level ≡ role_ge r data_scientist)
      × (has_role r data_owner_role_level ≡ role_ge r data_owner)
      × (has_role r admin_role_level ≡ role_ge r admin)
unfolding guest_role_level data_scientist_role_level data_owner_role_level admin_role_level
role_levels ServiceRole.no_role = (refl, refl, refl, refl)
role_levels _ = (refl, refl, refl, refl)
