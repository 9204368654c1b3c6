-- ===== src/PermissionScopes.antt =====
-- pkg/azure/client/application/permissionscope: permissionscope.go, oauth2permissionscope.go and
-- result.go. The maps of scopes (permissionscopemap.go) are those of `Grants`, at `scope_grant`.
pub mod Laws
use azurerator.Base.{
  String, ◌≡◌, refl, Bool, true, Option, none, some, List, [], ◌∷◌, ◌==◌, string_eq, if◌then◌else◌,
}
use azurerator.Base.Dict.{Iteration}
use azurerator.Graph.{PermissionScope, Application}
use azurerator.Permissions.{
  Permissions, default_scope_type, default_permission_scope_id, default_permission_scope_value,
}
use azurerator.Grants
use azurerator.Grants.{Grant, IsLawful}

abbrev pub new : String → String → PermissionScope
new id name = record {
  admin_consent_description = name;
  admin_consent_display_name = name;
  id = id;
  is_enabled = true;
  scope_type = default_scope_type;
  value = name;
}

abbrev pub scope_grant : Grant
scope_grant = record {
  Carrier = PermissionScope;
  value = λ c. c.value;
  id = λ c. c.id;
  is_enabled = λ c. c.is_enabled;
  set_enabled = λ b c. record c { is_enabled = b };
  new = new;
  default_id = default_permission_scope_id;
  default_value = default_permission_scope_value;
}

pub scope_grant-IsLawful : IsLawful scope_grant
scope_grant-IsLawful = record {
  value-new = λ i n. refl;
  id-new = λ i n. refl;
  is_enabled-new = λ i n. refl;
  value-set_enabled = λ b c. refl;
  id-set_enabled = λ b c. refl;
  is_enabled-set_enabled = λ b c. refl;
}

abbrev pub default_scope : PermissionScope
default_scope = new default_permission_scope_id default_permission_scope_value

unfoldable pub ensure_scopes_require_admin_consent : List PermissionScope → List PermissionScope
ensure_scopes_require_admin_consent [] = []
ensure_scopes_require_admin_consent (c ∷ cs) =
    (if c.scope_type == default_scope_type then c else record c { scope_type = default_scope_type })
    ∷ ensure_scopes_require_admin_consent cs

module _ (it : Iteration) where
  -- What `DescribeCreate(desired).GetResult()` returns.
  unfoldable pub describe_create : Permissions → List PermissionScope
  describe_create desired = Grants.describe_create scope_grant it desired

  -- What `DescribeUpdate(desired, existing).GetResult()` returns.
  unfoldable pub describe_update : Permissions → List PermissionScope → List PermissionScope
  describe_update desired existing =
      Grants.ensure_default_is_enabled scope_grant
        (ensure_scopes_require_admin_consent (Grants.merged scope_grant it desired existing))

unfoldable pub remove_disabled : Application → List PermissionScope
remove_disabled application = elim application.api [
  | none ↦ []
  | some api ↦ Grants.remove_disabled scope_grant api.oauth2_permission_scopes
]
