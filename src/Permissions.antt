-- ===== src/Permissions.antt =====
-- pkg/azure/permissions/permissions.go and const.go: the set of permissions that an application
-- defines, from which both its roles and its scopes are made.
-- A Go map is a `Dict`; a loop over one takes its order from `it`. `uuid n` is the n-th identifier
-- that the package `uuid` generates, and a caller passes the number of those already used.
pub mod Laws
pub mod Desired
pub mod Extracted
pub mod Fresh
use azurerator.Base.{
  Option, ℕ, suc, String, Bool, true, false, not, none, some, List, [], ◌∷◌, ◌++◌, ◌==◌, string_eq,
  if◌then◌else◌,
}
use azurerator.Base.Dict.{Dict, lookup, has, insert, Iteration}
use azurerator.Graph.{AppRole, PermissionScope, Application}
use azurerator.Crd.{AccessPolicyInboundRule}

abbrev pub default_permission_scope_value : String
default_permission_scope_value = "defaultaccess"

abbrev pub default_permission_scope_id : String
default_permission_scope_id = "00000000-1337-d34d-b33f-000000000000"

abbrev pub default_scope_type : String
default_scope_type = "Admin"

abbrev pub default_app_role_value : String
default_app_role_value = "access_as_application"

abbrev pub default_app_role_id : String
default_app_role_id = "00000001-abcd-9001-0000-000000000000"

abbrev pub default_group_role_value : String
default_group_role_value = "defaultrole"

abbrev pub default_group_role_id : String
default_group_role_id = "00000000-0000-0000-0000-000000000000"

pub record Permission : Type 0 where
  pub name : String
  pub id : String
  pub enabled : Bool

abbrev pub new : String → String → Bool → Permission
new id name enabled = record { name = name; id = id; enabled = enabled }

abbrev pub Permissions : Type 0
Permissions = Dict String Permission

unfoldable pub add : Permission → Permissions → Permissions
add permission p = if has permission.name p then p else insert permission.name permission p

-- The loop of `Filter` over the desired names.
unfoldable pub filter_step : Permissions → String → Permissions → Permissions
filter_step p scope result = elim (lookup scope p) [
  | none ↦ result
  | some permission ↦ if has scope result then result else insert scope permission result
]

unfoldable pub filter_onto : Permissions → List String → Permissions → Permissions
filter_onto p [] result = result
filter_onto p (scope ∷ desired) result = filter_onto p desired (filter_step p scope result)

unfoldable pub filter : Permissions → List String → Permissions
unfolding filter_onto filter_step
filter p desired = filter_onto p desired []

unfoldable pub ids_of : Dict String Permission → List String
ids_of [] = []
ids_of ((_, value) ∷ p) = value.id ∷ ids_of p

-- The loop of `Enabled` and `Disabled`.
unfoldable pub select_onto :
    (Permission → Bool) → Dict String Permission → Permissions → Permissions
select_onto keep [] result = result
select_onto keep ((_, value) ∷ p) result =
    select_onto keep p (if keep value then add value result else result)

unfoldable pub any_id : String → Dict String Permission → Bool
any_id role_id [] = false
any_id role_id ((_, permission) ∷ p) = if permission.id == role_id then true else any_id role_id p

module _ (it : Iteration) where
  unfoldable pub permission_ids : Permissions → List String
  unfolding ids_of
  permission_ids p = ids_of (it.range Permission p)

  unfoldable pub enabled : Permissions → Permissions
  unfolding select_onto
  enabled p = select_onto (λ v. v.enabled) (it.range Permission p) []

  unfoldable pub disabled : Permissions → Permissions
  unfolding select_onto
  disabled p = select_onto (λ v. not v.enabled) (it.range Permission p) []

  unfoldable pub has_role_id : Permissions → String → Bool
  unfolding any_id
  has_role_id p role_id = any_id role_id (it.range Permission p)

abbrev pub default_app_role : Permission
default_app_role = new default_app_role_id default_app_role_value true

abbrev pub default_permission_scope : Permission
default_permission_scope = new default_permission_scope_id default_permission_scope_value true

unfoldable pub flatten :
    List AccessPolicyInboundRule → (AccessPolicyInboundRule → List String) → List String
flatten [] rule = []
flatten (app ∷ apps) rule = rule app ++ flatten apps rule

-- An absent list and an empty one give the same.
unfoldable pub scopes_of : AccessPolicyInboundRule → List String
scopes_of r = elim r.permissions [ none ↦ [] | some p ↦ p.scopes ]

unfoldable pub roles_of : AccessPolicyInboundRule → List String
roles_of r = elim r.permissions [ none ↦ [] | some p ↦ p.roles ]

abbrev pub flatten_scopes : List AccessPolicyInboundRule → List String
flatten_scopes apps = flatten apps scopes_of

abbrev pub flatten_roles : List AccessPolicyInboundRule → List String
flatten_roles apps = flatten apps roles_of

module _ (uuid : ℕ → String) where
  unfoldable pub new_generate_id : ℕ → String → Bool → Permission
  new_generate_id n name enabled = new (uuid n) name enabled

  -- The loop that adds a fresh permission for each name; every round draws an identifier.
  unfoldable pub add_generated : ℕ → List String → Permissions → Permissions
  unfolding new_generate_id
  add_generated n [] p = p
  add_generated n (name ∷ names) p =
      add_generated (suc n) names (add (new_generate_id n name true) p)

  unfoldable pub generate_desired_permission_set : ℕ → List AccessPolicyInboundRule → Permissions
  unfolding add_generated
  generate_desired_permission_set n rules =
      add default_permission_scope
        (add default_app_role (add_generated n (flatten_scopes rules ++ flatten_roles rules) []))

-- The loop that puts the actual permission in the place of the desired one of the same name. It
-- writes to keys that it ranges over, each once.
unfoldable pub preserve_step : Permissions → String → Permissions → Permissions
preserve_step actual key desired = elim (lookup key actual) [
  | none ↦ desired
  | some actual_value ↦ insert key actual_value desired
]

unfoldable pub preserve_onto : Permissions → Dict String Permission → Permissions → Permissions
preserve_onto actual [] desired = desired
preserve_onto actual ((key, _) ∷ rest) desired =
    preserve_onto actual rest (preserve_step actual key desired)

unfoldable pub from_app_role : AppRole → Permission
from_app_role role = new role.id role.value role.is_enabled

unfoldable pub from_permission_scope : PermissionScope → Permission
from_permission_scope scope = new scope.id scope.value scope.is_enabled

unfoldable pub add_scopes : List PermissionScope → Permissions → Permissions
unfolding from_permission_scope
add_scopes [] p = p
add_scopes (scope ∷ scopes) p = add_scopes scopes (add (from_permission_scope scope) p)

unfoldable pub add_roles : List AppRole → Permissions → Permissions
unfolding from_app_role
add_roles [] p = p
add_roles (role ∷ roles) p = add_roles roles (add (from_app_role role) p)

-- `none` is the panic on an application that has no `API`.
unfoldable pub extract_permissions : Application → Option Permissions
unfolding add_scopes add_roles
extract_permissions app = elim app.api [
  | none ↦ none
  | some api ↦ some (add_roles app.app_roles (add_scopes api.oauth2_permission_scopes []))
]

unfoldable pub generate_desired_permission_set_preserve_existing :
    Iteration → (ℕ → String) → ℕ → List AccessPolicyInboundRule → Application → Option Permissions
unfolding preserve_onto preserve_step
generate_desired_permission_set_preserve_existing it uuid n rules existing =
    let desired = generate_desired_permission_set uuid n rules in
    elim (extract_permissions existing) [
      | none ↦ none
      | some actual ↦ some (preserve_onto actual (it.range Permission desired) desired)
    ]
