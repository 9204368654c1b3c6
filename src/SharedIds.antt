-- ===== src/SharedIds.antt =====
-- A role and a scope of one application that have the same value must have the same identifier, as
-- the comments of `GenerateDesiredPermissionSet` and `ExtractPermissions` say
-- (pkg/azure/permissions/permissions.go). Whether what `Register` and `Update` of
-- pkg/azure/client/application/application.go ask for meets that.
use azurerator.Base.{
  ℕ, String, ◌≡◌, ◌≢◌, sym, ◌∙◌, true, false, none, some, List, arith, contains, string_eq,
  if◌then◌else◌, Option-cases, inl, inr,
}
use text.Mathlib.TextEquality.{eq_iff}
use azurerator.Base.Dict.{lookup, Iteration}
use azurerator.Base.Keyed.{either}
use azurerator.Crd.{AccessPolicyInboundRule}
use azurerator.Graph.{ApiApplication, AppRole, PermissionScope, Application}
use azurerator.Permissions.{
  Permissions, default_app_role_value, default_app_role_id, default_permission_scope_value,
  default_permission_scope_id, generate_desired_permission_set,
}
use azurerator.Permissions.Laws.{IsPermissionSet}
use azurerator.Permissions.{
  generate_desired_permission_set_preserve_existing, extract_permissions, from_app_role,
  from_permission_scope,
}
use azurerator.Permissions.Desired.{
  asked, lookup-preserve_generated, preserve_existing-IsPermissionSet, generate-IsPermissionSet,
}
use azurerator.Permissions.Extracted.{lookup-extract, map_some}
use azurerator.Permissions.Fresh.{listed, lookup-generate_unlisted, lookup-generate_listed}
use azurerator.AppRoles
use azurerator.AppRoles.Laws.{role_of, wanted_role}
use azurerator.PermissionScopes
use azurerator.PermissionScopes.Laws.{scope_of, wanted_scope}

defaults_differ : default_app_role_value ≢ default_permission_scope_value
defaults_differ e = cc ((eq_iff default_app_role_value default_permission_scope_value).1 e)

-- The identifiers agree wherever a value is that of a role and of a scope.
abbrev pub SharesIds : List AppRole → List PermissionScope → Type 0
SharesIds roles scopes =
    (k : String) (r : AppRole) (c : PermissionScope)
    → role_of k roles ≡ some r
    → scope_of k scopes ≡ some c
    → r.id ≡ c.id

module _ (it : Iteration) (uuid : ℕ → String) (n : ℕ) (rules : List AccessPolicyInboundRule) where
  abbrev desired : Permissions
  desired = generate_desired_permission_set uuid n rules

  desired-IsPermissionSet : IsPermissionSet desired
  desired-IsPermissionSet = generate-IsPermissionSet uuid n rules

  role_created :
      (k : String) → role_of k (AppRoles.describe_create it desired) ≡ wanted_role desired k none
  role_created = (AppRoles.Laws.role_of-describe_create it desired desired-IsPermissionSet).0

  scope_created :
      (k : String)
      → scope_of k (PermissionScopes.describe_create it desired) ≡ wanted_scope desired k none
  scope_created =
      (PermissionScopes.Laws.scope_of-describe_create it desired desired-IsPermissionSet).0

  -- The roles and scopes of a new application share their identifiers, if its rules list neither of
  -- the two default values.
  pub describe_create-SharesIds :
      contains (listed rules) default_app_role_value ≡ false
      → contains (listed rules) default_permission_scope_value ≡ false
      → SharesIds
          (AppRoles.describe_create it desired)
          (PermissionScopes.describe_create it desired)
  describe_create-SharesIds h j k r c er ec = ground (
    arith,
    defaults_differ,
    role_created k,
    scope_created k,
    lookup-generate_unlisted uuid n rules default_app_role_value h,
    lookup-generate_unlisted uuid n rules default_permission_scope_value j,
  )

  -- If the rules list the default role's value, and no identifier that is generated is that of the
  -- default role, the new application has a role and a scope of that
  -- value, and their identifiers differ.
  pub default_role_listed :
      ((i : ℕ) → uuid i ≢ default_app_role_id)
      → contains (listed rules) default_app_role_value ≡ true
      → (r : AppRole) × (c : PermissionScope) × (role_of default_app_role_value
            (AppRoles.describe_create it desired)
          ≡ some r)
        × (scope_of default_app_role_value (PermissionScopes.describe_create it desired) ≡ some c)
        × (r.id ≢ c.id)
  unfolding string_eq
  default_role_listed other h =
      let (i, e) = lookup-generate_listed uuid n rules default_app_role_value h in
      (
        AppRoles.default_role,
        PermissionScopes.new (uuid i) default_app_role_value,
        role_created default_app_role_value,
        scope_created default_app_role_value ∙ rw e,
        λ same. other i (sym same),
      )

-- The default values have their fixed identifiers wherever they are defined.
pub record DefaultIds (roles : List AppRole) (scopes : List PermissionScope) : Type 0 where
  pub role_of_role :
      (r : AppRole) → role_of default_app_role_value roles ≡ some r → r.id ≡ default_app_role_id
  pub scope_of_role :
      (c : PermissionScope)
      → scope_of default_app_role_value scopes ≡ some c
      → c.id ≡ default_app_role_id
  pub role_of_scope :
      (r : AppRole)
      → role_of default_permission_scope_value roles ≡ some r
      → r.id ≡ default_permission_scope_id
  pub scope_of_scope :
      (c : PermissionScope)
      → scope_of default_permission_scope_value scopes ≡ some c
      → c.id ≡ default_permission_scope_id

module _ (it : Iteration) (uuid : ℕ → String) (n : ℕ) (rules : List AccessPolicyInboundRule)
    (app : Application) {api : ApiApplication} {actual p : Permissions}
    (has_api : app.api ≡ some api) (extracted : extract_permissions app ≡ some actual)
    (generated : generate_desired_permission_set_preserve_existing it uuid n rules app
      ≡ some p) where
  abbrev roles : List AppRole
  roles = AppRoles.describe_update it p app.app_roles

  abbrev scopes : List PermissionScope
  scopes = PermissionScopes.describe_update it p api.oauth2_permission_scopes

  set : IsPermissionSet p
  set = preserve_existing-IsPermissionSet it uuid n rules app extracted generated

  role_updated : (k : String) → role_of k roles ≡ wanted_role p k (role_of k app.app_roles)
  role_updated = (AppRoles.Laws.role_of-describe_update it p set app.app_roles).0

  scope_updated :
      (k : String) → scope_of k scopes ≡ wanted_scope p k (scope_of k api.oauth2_permission_scopes)
  scope_updated =
      (PermissionScopes.Laws.scope_of-describe_update it p set api.oauth2_permission_scopes).0

  lookup-actual :
      (k : String)
      → lookup k actual
        ≡ either
            (map_some from_permission_scope (scope_of k api.oauth2_permission_scopes))
            (map_some from_app_role (role_of k app.app_roles))
  lookup-actual k = lookup-extract app k extracted ∙ rw has_api

  lookup-p :
      (k : String)
      → lookup k p ≡ (
          if asked rules k
          then either (lookup k actual) (lookup k (generate_desired_permission_set uuid n rules))
          else none)
  lookup-p = lookup-preserve_generated it uuid n rules app extracted generated

  -- The roles and scopes that an update describes for an application share their identifiers, if the
  -- existing ones do, the default values have their own identifiers among the existing ones, the
  -- rules list neither of the two default values, and the desired permissions are those that are
  -- generated for the rules and the application.
  pub describe_update-SharesIds :
      contains (listed rules) default_app_role_value ≡ false
      → contains (listed rules) default_permission_scope_value ≡ false
      → DefaultIds app.app_roles api.oauth2_permission_scopes
      → SharesIds app.app_roles api.oauth2_permission_scopes
      → SharesIds roles scopes
  unfolding from_permission_scope from_app_role
  describe_update-SharesIds h j d same k r c er ec = elim (Option-cases (role_of k app.app_roles)) [
    | inl no_role ↦ elim (Option-cases (scope_of k api.oauth2_permission_scopes)) [
      | inl no_scope ↦ ground (
        arith,
        defaults_differ,
        role_updated k,
        scope_updated k,
        lookup-p k,
        lookup-actual k,
        lookup-generate_unlisted uuid n rules default_app_role_value h,
        lookup-generate_unlisted uuid n rules default_permission_scope_value j,
      )
      | inr (c', has_scope) ↦
          ground (
            arith,
            role_updated k,
            scope_updated k,
            lookup-p k,
            lookup-actual k,
            d.scope_of_role c',
          )
    ]
    | inr (r', has_role) ↦ elim (Option-cases (scope_of k api.oauth2_permission_scopes)) [
      | inl no_scope ↦
          ground (
            arith,
            role_updated k,
            scope_updated k,
            lookup-p k,
            lookup-actual k,
            d.role_of_scope r',
          )
      | inr (c', has_scope) ↦ ground (arith, role_updated k, scope_updated k, same k r' c')
    ]
  ]
