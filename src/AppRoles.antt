-- ===== src/AppRoles.antt =====
-- pkg/azure/client/application/approle: approle.go, approles.go and result.go. The maps of roles
-- (approlemap.go) are those of `Grants`, at `app_role_grant`.
pub mod Laws
use azurerator.Base.{String, ◌≡◌, refl, Bool, true, List, [], ◌∷◌}
use azurerator.Base.Dict.{Iteration}
use azurerator.Graph.{AppRole, Application}
use azurerator.Permissions.{
  Permissions, default_app_role_value, default_app_role_id, default_group_role_id,
  default_group_role_value,
}
use azurerator.Grants
use azurerator.Grants.{Grant, IsLawful}

abbrev pub new : String → String → AppRole
new id name = record {
  allowed_member_types = "Application" ∷ [];
  description = name;
  display_name = name;
  id = id;
  is_enabled = true;
  value = name;
}

abbrev pub app_role_grant : Grant
app_role_grant = record {
  Carrier = AppRole;
  value = λ r. r.value;
  id = λ r. r.id;
  is_enabled = λ r. r.is_enabled;
  set_enabled = λ b r. record r { is_enabled = b };
  new = new;
  default_id = default_app_role_id;
  default_value = default_app_role_value;
}

pub app_role_grant-IsLawful : IsLawful app_role_grant
app_role_grant-IsLawful = record {
  value-new = λ i n. refl;
  id-new = λ i n. refl;
  is_enabled-new = λ i n. refl;
  value-set_enabled = λ b c. refl;
  id-set_enabled = λ b c. refl;
  is_enabled-set_enabled = λ b c. refl;
}

abbrev pub default_role : AppRole
default_role = new default_app_role_id default_app_role_value

abbrev pub default_group_role : AppRole
default_group_role = new default_group_role_id default_group_role_value

module _ (it : Iteration) where
  -- What `DescribeCreate(desired).GetResult()` returns.
  unfoldable pub describe_create : Permissions → List AppRole
  describe_create desired = Grants.describe_create app_role_grant it desired

  -- What `DescribeUpdate(desired, existing).GetResult()` returns.
  unfoldable pub describe_update : Permissions → List AppRole → List AppRole
  describe_update desired existing =
      Grants.ensure_default_is_enabled app_role_grant
        (Grants.merged app_role_grant it desired existing)

unfoldable pub remove_disabled : Application → List AppRole
remove_disabled application = Grants.remove_disabled app_role_grant application.app_roles
