-- ===== src/Resources.antt =====
-- pkg/azure/resource/resource.go: the resources of Azure AD that a role is assigned to.
pub mod Laws
use azurerator.Base.{
  String, Bool, true, false, Option, none, some, List, [], ◌∷◌, ◌++◌, ◌&&◌, ◌==◌, string_eq,
  if◌then◌else◌,
}
use azurerator.Base.Dict.{Iteration}
use azurerator.Crd.{AccessPolicyRule, AccessPolicyInboundRule, AccessPolicyPermissions}
use azurerator.Graph.{PreAuthorizedApplication, AppRoleAssignment}
use azurerator.Permissions
use azurerator.Permissions.{
  Permission, Permissions, default_permission_scope_value, default_app_role_value,
  default_group_role_id,
}

abbrev pub group_type : String
group_type = "Group"

abbrev pub service_principal_type : String
service_principal_type = "ServicePrincipal"

-- The embedded rule of a group is the zero rule, which has no permissions.
pub record Resource : Type 0 where
  pub name : String
  pub client_id : String
  pub object_id : String
  pub principal_type : String
  pub inbound_rule : AccessPolicyInboundRule

-- The scopes that `ToPreAuthorizedApp` asks for.
unfoldable pub scopes_asked : Resource → List String
scopes_asked r =
    default_permission_scope_value
    ∷ (elim r.inbound_rule.permissions [ none ↦ [] | some p ↦ p.scopes ])

unfoldable pub to_pre_authorized_app : Iteration → Resource → Permissions → PreAuthorizedApplication
unfolding scopes_asked
to_pre_authorized_app it r actual = record {
  app_id = r.client_id;
  delegated_permission_ids =
      Permissions.permission_ids it (Permissions.filter actual (scopes_asked r));
}

unfoldable pub to_app_role_assignment : Resource → String → Permission → AppRoleAssignment
to_app_role_assignment r target permission = record {
  id = none;
  app_role_id = permission.id;
  principal_display_name = r.name;
  principal_id = r.object_id;
  principal_type = r.principal_type;
  resource_id = target;
}

-- The loop over the roles of a resource, with `seen` for the role that is looked for.
unfoldable pub roles_match : String → Bool → List String → Resource → List Resource → List Resource
roles_match name seen [] re result = result
roles_match name seen (desired ∷ roles) re result =
    let hit = desired == name && (if seen then false else true) in
    roles_match name (if hit then true else seen) roles re
      (if hit then result ++ re ∷ [] else result)

unfoldable pub filter_by_role_onto : Permission → List Resource → List Resource → List Resource
unfolding roles_match
filter_by_role_onto role [] result = result
filter_by_role_onto role (re ∷ rs) result =
    filter_by_role_onto role rs (elim re.inbound_rule.permissions [
      | none ↦ result
      | some p ↦ roles_match role.name false p.roles re result
    ])

unfoldable pub filter_by_role : List Resource → Permission → List Resource
unfolding filter_by_role_onto
filter_by_role rs role = filter_by_role_onto role rs []

unfoldable pub filter_by_principal_type : List Resource → String → List Resource
filter_by_principal_type [] kind = []
filter_by_principal_type (re ∷ rs) kind =
    let rest = filter_by_principal_type rs kind in
    if re.principal_type == kind then re ∷ rest else rest

unfoldable pub extract_desired_assignees : List Resource → String → Permission → List Resource
extract_desired_assignees rs kind role =
    if kind == group_type
    then (if role.id == default_group_role_id then rs else filter_by_role rs role)
    else if kind == service_principal_type
    then (if role.name == default_app_role_value then rs else filter_by_role rs role)
    else filter_by_role rs role

unfoldable pub has : List Resource → Resource → Bool
has [] other = false
has (existing ∷ rs) other =
    if existing.principal_type == other.principal_type && existing.object_id == other.object_id
    then true
    else has rs other

unfoldable pub add : List Resource → Resource → List Resource
unfolding has
add rs resource = if has rs resource then rs else rs ++ resource ∷ []

unfoldable pub add_all : List Resource → List Resource → List Resource
unfolding add
add_all rs [] = rs
add_all rs (resource ∷ more) = add_all (add rs resource) more
