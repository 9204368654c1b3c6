-- ===== src/Tests/Permissions.antt =====
-- Runs of the theorems on permissions, roles, scopes and annotations.
use azurerator.Base.{
  ℕ, String, ◌≡◌, ◌≢◌, refl, true, false, none, some, List, [], ◌∷◌, contains, string_eq,
  if◌then◌else◌, arith,
}
use text.Mathlib.TextEquality.{eq_iff}
use azurerator.Base.Dict.{lookup, NodupKeys, Iteration}
use azurerator.Base.Keyed.{index, either}
use azurerator.Crd.{AccessPolicyInboundRule}
use azurerator.Graph.{Application, AppRole, PermissionScope, ApiApplication}
use azurerator.Permissions.{
  Permissions, new, extract_permissions, add_scopes, add_roles, generate_desired_permission_set,
  generate_desired_permission_set_preserve_existing, flatten, scopes_of, roles_of,
  default_app_role_value, default_app_role_id, default_permission_scope_value,
}
use azurerator.Permissions.Laws.{IsPermissionSet}
use azurerator.Permissions.Desired.{asked, lookup-generate_preserve_existing}
use azurerator.Permissions.Fresh.{listed, wanted_permission}
use azurerator.AppRoles
use azurerator.AppRoles.Laws.{
  role_of, wanted_role, role_of-describe_create, role_of-describe_update,
}
use azurerator.PermissionScopes
use azurerator.PermissionScopes.Laws.{
  scope_of, wanted_scope, scope_of-describe_create, scope_of-describe_update,
}
use azurerator.SharedIds.{
  SharesIds, DefaultIds, describe_create-SharesIds, describe_update-SharesIds, default_role_listed,
}

-- The order in which the entries were inserted.
abbrev pub in_order : Iteration
in_order = record { range = λ V d. d; lookup-range = λ V d k u. refl; range-NodupKeys = λ V d u. u }

abbrev two_permissions : Permissions
two_permissions = ("read", new "1" "read" true) ∷ ("write", new "2" "write" false) ∷ []

two_permissions-IsPermissionSet : IsPermissionSet two_permissions
unfolding lookup string_eq
two_permissions-IsPermissionSet = record { unique = (refl, (refl, tt)); named = (refl, (refl, tt)) }

role_of-describe_create_example :
    ((k : String)
      → role_of k (AppRoles.describe_create in_order two_permissions)
        ≡ wanted_role two_permissions k none)
    × NodupKeys (index AppRoles.Laws.value_of (AppRoles.describe_create in_order two_permissions))
role_of-describe_create_example =
    role_of-describe_create in_order two_permissions two_permissions-IsPermissionSet

scope_of-describe_create_example :
    ((k : String)
      → scope_of k (PermissionScopes.describe_create in_order two_permissions)
        ≡ wanted_scope two_permissions k none)
    × NodupKeys (
        index PermissionScopes.Laws.value_of
          (PermissionScopes.describe_create in_order two_permissions))
scope_of-describe_create_example =
    scope_of-describe_create in_order two_permissions two_permissions-IsPermissionSet

-- One role stays and one goes.
abbrev pub two_roles : List AppRole
two_roles = AppRoles.new "7" "read" ∷ AppRoles.new "8" "old" ∷ []

abbrev pub two_scopes : List PermissionScope
two_scopes = PermissionScopes.new "7" "read" ∷ PermissionScopes.new "8" "old" ∷ []

role_of-describe_update_example :
    ((k : String)
      → role_of k (AppRoles.describe_update in_order two_permissions two_roles)
        ≡ wanted_role two_permissions k (role_of k two_roles))
    × NodupKeys
        (index AppRoles.Laws.value_of (AppRoles.describe_update in_order two_permissions two_roles))
role_of-describe_update_example =
    role_of-describe_update in_order two_permissions two_permissions-IsPermissionSet two_roles

scope_of-describe_update_example :
    ((k : String)
      → scope_of k (PermissionScopes.describe_update in_order two_permissions two_scopes)
        ≡ wanted_scope two_permissions k (scope_of k two_scopes))
    × NodupKeys (
        index PermissionScopes.Laws.value_of
          (PermissionScopes.describe_update in_order two_permissions two_scopes))
scope_of-describe_update_example =
    scope_of-describe_update in_order two_permissions two_permissions-IsPermissionSet two_scopes

abbrev pub fresh_id : ℕ → String
fresh_id _ = "fresh"

abbrev pub rules_for : String → List AccessPolicyInboundRule
rules_for role =
    record {
      rule = record { application = "b"; namespace = "team"; cluster = "dev" };
      permissions = some (record { roles = role ∷ []; scopes = "read" ∷ [] });
    }
    ∷ []

abbrev pub api : ApiApplication
api = record {
  accept_mapped_claims = none;
  oauth2_permission_scopes = two_scopes;
  pre_authorized_applications = [];
}

abbrev pub application : Application
application = record {
  id = "object";
  app_id = "client";
  display_name = "dev:team:a";
  api = some api;
  app_roles = two_roles;
  group_membership_claims = none;
  identifier_uris = [];
  key_credentials = [];
  optional_claims = none;
  password_credentials = [];
  tags = [];
}

abbrev pub actual : Permissions
actual = add_roles two_roles (add_scopes two_scopes [])

extracted : extract_permissions application ≡ some actual
unfolding extract_permissions
extracted = refl

abbrev pub updated : Permissions
updated =
    elim (generate_desired_permission_set_preserve_existing in_order fresh_id 0 (rules_for "admin")
      application) [ none ↦ [] | some p ↦ p ]

pub generated :
    generate_desired_permission_set_preserve_existing in_order fresh_id 0
      (rules_for "admin")
      application
    ≡ some updated
unfolding generate_desired_permission_set_preserve_existing extract_permissions
generated = refl

lookup-generate_preserve_existing_example : lookup "read" updated ≡ (
    if asked (rules_for "admin") "read"
    then either (lookup "read" actual) (wanted_permission fresh_id 0 (rules_for "admin") "read")
    else none)
lookup-generate_preserve_existing_example =
    lookup-generate_preserve_existing in_order fresh_id 0 (rules_for "admin") application extracted
      generated "read"

unlisted_role : contains (listed (rules_for "admin")) default_app_role_value ≡ false
unfolding flatten scopes_of roles_of string_eq
unlisted_role = refl

unlisted_scope : contains (listed (rules_for "admin")) default_permission_scope_value ≡ false
unfolding flatten scopes_of roles_of string_eq
unlisted_scope = refl

listed_role : contains (listed (rules_for default_app_role_value)) default_app_role_value ≡ true
unfolding flatten scopes_of roles_of string_eq
listed_role = refl

describe_create-SharesIds_example :
    SharesIds
      (AppRoles.describe_create in_order
        (generate_desired_permission_set fresh_id 0 (rules_for "admin")))
      (PermissionScopes.describe_create in_order
        (generate_desired_permission_set fresh_id 0 (rules_for "admin")))
describe_create-SharesIds_example =
    describe_create-SharesIds in_order fresh_id 0 (rules_for "admin") unlisted_role unlisted_scope

fresh_differs : (i : ℕ) → fresh_id i ≢ default_app_role_id
fresh_differs i e = cc ((eq_iff "fresh" default_app_role_id).1 e)

default_role_listed_example :
    (r : AppRole) × (c : PermissionScope) × (role_of default_app_role_value (
        AppRoles.describe_create in_order
          (generate_desired_permission_set fresh_id 0 (rules_for default_app_role_value)))
      ≡ some r)
    × (scope_of default_app_role_value (
          PermissionScopes.describe_create in_order
            (generate_desired_permission_set fresh_id 0 (rules_for default_app_role_value)))
        ≡ some c)
    × (r.id ≢ c.id)
default_role_listed_example =
    default_role_listed in_order fresh_id 0 (rules_for default_app_role_value) fresh_differs
      listed_role

default_ids : DefaultIds two_roles two_scopes
unfolding lookup string_eq
default_ids = record {
  role_of_role = λ r e. cc e;
  scope_of_role = λ c e. cc e;
  role_of_scope = λ r e. cc e;
  scope_of_scope = λ c e. cc e;
}

same_ids : SharesIds two_roles two_scopes
unfolding lookup
same_ids k r c er ec = ground arith

describe_update-SharesIds_example :
    SharesIds
      (AppRoles.describe_update in_order updated two_roles)
      (PermissionScopes.describe_update in_order updated two_scopes)
describe_update-SharesIds_example =
    describe_update-SharesIds in_order fresh_id 0 (rules_for "admin") application refl extracted
      generated unlisted_role unlisted_scope default_ids same_ids
