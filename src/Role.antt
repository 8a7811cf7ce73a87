-- ===== src/Role.antt =====
-- packages/syft/src/syft/service/user/user_roles.py: the roles, their levels and capabilities.
mod Levels
mod Capabilities
mod Examples
use py_syft.Prelude.{ℕ, ◌+◌, ◌%◌, ◌≤◌, ◌<◌, Bool, List, [], ◌∷◌, leb, ltb, ◌==◌, if◌then◌else◌, any}

pub data ServiceRole : Type 0 where
  no_role guest data_scientist data_owner admin : ServiceRole

-- `x.value`
abbrev pub value : ServiceRole → ℕ
value no_role = 0
value guest = 1
value data_scientist = 2
value data_owner = 32
value admin = 128

-- `__eq__` of the enumeration
abbrev pub role_eq : ServiceRole → ServiceRole → Bool
role_eq a b = value a == value b

-- `__ge__`, `__gt__`
abbrev pub role_ge : ServiceRole → ServiceRole → Bool
role_ge a b = leb (value b) (value a)

abbrev pub role_gt : ServiceRole → ServiceRole → Bool
role_gt a b = ltb (value b) (value a)

-- `sorted(tuples, reverse=True)`, without the values
abbrev roles_descending : List ServiceRole
roles_descending = admin ∷ data_owner ∷ data_scientist ∷ guest ∷ no_role ∷ []

-- The loop of `roles_for_level`. `level_float / role_num >= 1` is `role_num <= level`.
level_loop : List ServiceRole → ℕ → List ServiceRole
level_loop [] level = []
level_loop (role ∷ rest) level =
    let taken = level_loop rest (level % value role) in
    let skipped = level_loop rest level in
    if value role == 0 then skipped else if leb (value role) level then role ∷ taken else skipped

unfoldable pub roles_for_level : ℕ → List ServiceRole
unfolding level_loop
roles_for_level level = level_loop roles_descending level

unfoldable pub guest_role_level : List ServiceRole
unfolding roles_for_level
guest_role_level =
    roles_for_level (value guest + value data_scientist + value data_owner + value admin)

unfoldable pub data_scientist_role_level : List ServiceRole
unfolding roles_for_level
data_scientist_role_level = roles_for_level (value data_scientist + value data_owner + value admin)

unfoldable pub data_owner_role_level : List ServiceRole
unfolding roles_for_level
data_owner_role_level = roles_for_level (value data_owner + value admin)

unfoldable pub admin_role_level : List ServiceRole
unfolding roles_for_level
admin_role_level = roles_for_level (value admin)

-- `role in roles`
abbrev pub has_role : ServiceRole → List ServiceRole → Bool
has_role r roles = any (role_eq r) roles

pub data Capability : Type 0 where
  can_make_data_requests can_triage_data_requests can_manage_privacy_budget : Capability
  can_create_users can_manage_users can_edit_roles can_manage_infrastructure : Capability
  can_upload_data can_upload_legal_document can_edit_datasite_settings : Capability

abbrev capability_value : Capability → ℕ
capability_value can_make_data_requests = 1
capability_value can_triage_data_requests = 2
capability_value can_manage_privacy_budget = 4
capability_value can_create_users = 8
capability_value can_manage_users = 16
capability_value can_edit_roles = 32
capability_value can_manage_infrastructure = 64
capability_value can_upload_data = 128
capability_value can_upload_legal_document = 256
capability_value can_edit_datasite_settings = 512

-- `ROLE_TO_CAPABILITIES[self]`
unfoldable pub capabilities : ServiceRole → List Capability
capabilities no_role = []
capabilities guest = can_make_data_requests ∷ []
capabilities data_scientist = can_make_data_requests ∷ []
capabilities data_owner =
    can_make_data_requests ∷ can_triage_data_requests ∷ can_manage_privacy_budget ∷ can_create_users
    ∷ can_edit_roles ∷ can_upload_data ∷ []
capabilities admin =
    can_make_data_requests ∷ can_triage_data_requests ∷ can_manage_privacy_budget ∷ can_create_users
    ∷ can_manage_users ∷ can_edit_roles ∷ can_manage_infrastructure ∷ can_upload_data
    ∷ can_upload_legal_document ∷ can_edit_datasite_settings ∷ []

-- `capability in role.capabilities()`
unfoldable pub can : ServiceRole → Capability → Bool
unfolding capabilities
can r c = any (λ d. capability_value c == capability_value d) (capabilities r)
