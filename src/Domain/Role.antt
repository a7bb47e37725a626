-- ===== src/Domain/Role.antt =====
-- apps/api/internal/domain/role.go: the permission tiers and what each may do.
use jg_smm.Prelude.{Bool, true, false}

-- `other` stands for every text that names no role.
pub data Role : Type 0 where
  owner strategist operator analyst other : Role

pub data Permission : Type 0 where
  read act export admin : Permission

-- The map `rolePermissions`; a missing role or permission reads as false.
role_permissions : Role → Permission → Bool
role_permissions strategist read = true
role_permissions operator read = true
role_permissions operator act = true
role_permissions analyst read = true
role_permissions analyst export = true
role_permissions _ _ = false

abbrev pub is_owner : Role → Bool
is_owner owner = true
is_owner _ = false

unfoldable pub can : Role → Permission → Bool
unfolding role_permissions
can r p = elim (is_owner r) [ true ↦ true | false ↦ role_permissions r p ]

-- `Role.Valid`.
abbrev pub is_valid_role : Role → Bool
is_valid_role other = false
is_valid_role _ = true
