-- ===== src/Role/Capabilities.antt =====
-- What a higher role may do (`ROLE_TO_CAPABILITIES` of user_roles.py).
use py_syft.Prelude.{◌≡◌, true, arith}
use py_syft.Role.{ServiceRole, Capability, role_ge, can}

-- A role has every capability of the roles below it.
pub can_mono :
    (r s : ServiceRole) (c : Capability) → role_ge r s ≡ true → can s c ≡ true → can r c ≡ true
unfolding can
can_mono r s c h k = ground arith
