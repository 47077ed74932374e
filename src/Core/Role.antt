-- ===== src/Core/Role.antt =====
-- crates/telepair-core/src/permission.rs: the roles of a participant.
use telepair.Base.{
  ◌≡◌, refl, ◌⊎◌, inl, inr, Bool, true, false, String, concat, str_eq, if◌then◌else◌,
}

pub data Role : Type 0 where
  owner operator viewer : Role

unfoldable pub can_input : Role → Bool
can_input Role.owner = true
can_input Role.operator = true
can_input Role.viewer = false

unfoldable pub can_resize : Role → Bool
can_resize Role.owner = true
can_resize Role.operator = true
can_resize Role.viewer = false

unfoldable pub as_str : Role → String
as_str Role.owner = "owner"
as_str Role.operator = "operator"
as_str Role.viewer = "viewer"

-- `Err` carries the message.
unfoldable pub from_str : String → Role ⊎ String
from_str s =
    if str_eq s "owner"
    then inl Role.owner
    else if str_eq s "operator"
    then inl Role.operator
    else if str_eq s "viewer"
    then inl Role.viewer
    else inr (concat "unknown role: " s)

-- `==` of the derived `PartialEq`.
unfoldable pub role_eq : Role → Role → Bool
role_eq Role.owner Role.owner = true
role_eq Role.operator Role.operator = true
role_eq Role.viewer Role.viewer = true
role_eq _ _ = false

pub role_eq→eq : (r s : Role) → role_eq r s ≡ true → r ≡ s
unfolding role_eq
role_eq→eq Role.owner Role.owner h = refl
role_eq→eq Role.operator Role.operator h = refl
role_eq→eq Role.viewer Role.viewer h = refl
role_eq→eq Role.owner Role.operator h = cc
role_eq→eq Role.owner Role.viewer h = cc
role_eq→eq Role.operator Role.owner h = cc
role_eq→eq Role.operator Role.viewer h = cc
role_eq→eq Role.viewer Role.owner h = cc
role_eq→eq Role.viewer Role.operator h = cc
