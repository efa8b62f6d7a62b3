-- ===== src/Admin/Oidc/Roles.antt =====
-- The role that the callback of internal/admin/oidc_api.go reads off the groups of an ID token.
use cloud_file_server.Base.{
  ◌≡◌, refl, Bool, false, not, List, [], ◌∷◌, any, if◌then◌else◌, arith, Bool-cases, inl, inr,
}
use cloud_file_server.Text.{Text, ascii, text_beq, text_eq}
use cloud_file_server.Admin.Oidc.{OidcConfig, note_group, role_of}

-- Whether a list of groups has one group.
abbrev pub has_group : Text → List Text → Bool
has_group group groups = any (λ g. text_beq g group) groups

-- The role that a set of groups gives, whatever their order.
abbrev pub role_by_groups : OidcConfig → List Text → Text
role_by_groups cfg groups =
    if has_group cfg.admin_group groups
    then ascii "admin"
    else if has_group cfg.readonly_group groups
    then ascii "readonly"
    else []

roles_not_empty : (text_beq (ascii "admin") [] ≡ false) × (text_beq (ascii "readonly") [] ≡ false)
unfolding text_beq ascii
roles_not_empty = (refl, refl)

role_of-from :
    (cfg : OidcConfig) (role : Text) (groups : List Text)
    → role_of cfg role groups ≡ (
        if has_group cfg.admin_group groups
        then ascii "admin"
        else if not (text_beq role [])
        then role
        else if has_group cfg.readonly_group groups
        then ascii "readonly"
        else role)
unfolding role_of note_group text_beq
role_of-from cfg role [] = ground arith
role_of-from cfg role (g ∷ groups) = elim (Bool-cases (text_beq g cfg.admin_group)) [
  | inl admin ↦ ground (arith, role_of-from cfg (ascii "admin") groups, roles_not_empty)
  | inr other ↦ elim (Bool-cases (text_beq g cfg.readonly_group)) [
    | inr neither ↦ ground (arith, role_of-from cfg role groups)
    | inl reader ↦ elim (Bool-cases (text_beq role [])) [
      | inl none_yet ↦ ground (arith, role_of-from cfg (ascii "readonly") groups, roles_not_empty)
      | inr has_role ↦ ground (arith, role_of-from cfg role groups)
    ]
  ]
]

-- The role is `admin` if one of the groups is the administrators', or else `readonly` if one is the
-- readers', or else none: the order of the groups does not count.
pub role_of-role_by_groups :
    (cfg : OidcConfig) (groups : List Text) → role_of cfg [] groups ≡ role_by_groups cfg groups
unfolding text_beq
role_of-role_by_groups cfg groups = role_of-from cfg [] groups

pub role-admin :
    (cfg : OidcConfig) (groups : List Text)
    → text_beq (role_by_groups cfg groups) (ascii "admin") ≡ has_group cfg.admin_group groups
unfolding text_beq ascii
role-admin cfg groups = elim (Bool-cases (has_group cfg.admin_group groups)) [
  | inl admin ↦ rw (admin) refl
  | inr other ↦ elim (Bool-cases (has_group cfg.readonly_group groups)) [
    | inl reader ↦ rw (other, reader) refl
    | inr neither ↦ rw (other, neither) refl
  ]
]
