-- ===== src/ApplicationClient/Requests.antt =====
-- pkg/azure/util/application_builder.go, the template of an application in
-- pkg/azure/client/application/application.go and pkg/azure/client/application/
-- requiredresourceaccess: the application that a request describes. The builder writes on the
-- application that it points to; here a method returns it. The identifiers of the application are
-- empty in a request, which does not send them.
use azurerator.Base.{ℕ, String, Bool, false, Option, none, some, List, [], ◌∷◌, if◌then◌else◌}
use azurerator.Crd.{AzureAdApplication}
use azurerator.Graph.{
  AppRole, PermissionScope, KeyCredential, OptionalClaims, ApiApplication, Application,
}

abbrev pub integrated_app_tag : String
integrated_app_tag = "WindowsAzureActiveDirectoryIntegratedApp"

abbrev pub ia_c_app_tag : String
ia_c_app_tag = "azurerator_appreg"

abbrev pub legacy_ia_c_app_tag : String
legacy_ia_c_app_tag = "iac_appreg"

pub record ImplicitGrantSettings : Type 0 where
  pub enable_id_token_issuance : Bool
  pub enable_access_token_issuance : Bool

pub record WebApplication : Type 0 where
  pub logout_url : Option String
  pub implicit_grant_settings : Option ImplicitGrantSettings
  pub redirect_uris : List String

pub record ResourceAccess : Type 0 where
  pub id : String
  pub access_type : String

pub record RequiredResourceAccess : Type 0 where
  pub resource_app_id : String
  pub resource_access : List ResourceAccess

-- The fields that are only sent, beside the `application`. `spa` has the redirect URIs.
pub record Request : Type 0 where
  pub application : Application
  pub sign_in_audience : Option String
  pub requested_access_token_version : Option ℕ
  pub web : Option WebApplication
  pub spa : Option (List String)
  pub required_resource_access : List RequiredResourceAccess

abbrev no_application : Application
no_application = record {
  id = "";
  app_id = "";
  display_name = "";
  api = none;
  app_roles = [];
  group_membership_claims = none;
  identifier_uris = [];
  key_credentials = [];
  optional_claims = none;
  password_credentials = [];
  tags = [];
}

unfoldable pub empty_application : Request
empty_application = record {
  application = no_application;
  sign_in_audience = none;
  requested_access_token_version = none;
  web = none;
  spa = none;
  required_resource_access = [];
}

abbrev no_api : ApiApplication
no_api = record {
  accept_mapped_claims = none;
  oauth2_permission_scopes = [];
  pre_authorized_applications = [];
}

abbrev no_web : WebApplication
no_web = record { logout_url = none; implicit_grant_settings = none; redirect_uris = [] }

unfoldable pub default_template : String → AzureAdApplication → Request
default_template uniform_name app = record {
  application = record no_application {
    display_name = uniform_name;
    tags = ia_c_app_tag ∷ integrated_app_tag ∷ [];
    api = some no_api;
  };
  sign_in_audience = some "AzureADMyOrg";
  requested_access_token_version = some 2;
  web = some record {
    logout_url = some app.spec.logout_url;
    implicit_grant_settings =
        some record { enable_id_token_issuance = false; enable_access_token_issuance = false };
    redirect_uris = [];
  };
  spa = none;
  required_resource_access = [];
}

unfoldable pub keys : List KeyCredential → Request → Request
keys creds a = record a { application = record a.application { key_credentials = creds } }

unfoldable pub identifier_uri_list : List String → Request → Request
identifier_uri_list uris a = record a {
  application = record a.application { identifier_uris = uris };
}

unfoldable pub resource_access : List RequiredResourceAccess → Request → Request
resource_access access a = record a { required_resource_access = access }

unfoldable pub group_membership_claims : String → Request → Request
group_membership_claims claim a = record a {
  application = record a.application { group_membership_claims = some claim };
}

unfoldable pub app_roles : List AppRole → Request → Request
app_roles roles a = record a { application = record a.application { app_roles = roles } }

unfoldable pub web_app_redirect_uri : List String → Request → Request
web_app_redirect_uri uris a = record a {
  web = some (elim a.web [
    | none ↦ record no_web { redirect_uris = uris }
    | some web ↦ record web { redirect_uris = uris }
  ]);
}

unfoldable pub single_page_app_redirect_uri : List String → Request → Request
single_page_app_redirect_uri uris a = record a { spa = some uris }

unfoldable pub redirect_uris : List String → AzureAdApplication → Request → Request
unfolding web_app_redirect_uri single_page_app_redirect_uri
redirect_uris uris app a =
    let is_spa : Bool = elim app.spec.single_page_application [ none ↦ false | some b ↦ b ] in
    if is_spa then single_page_app_redirect_uri uris a else web_app_redirect_uri uris a

unfoldable pub permission_scopes : List PermissionScope → Request → Request
permission_scopes scopes a = record a {
  application = record a.application {
    api = some (elim a.application.api [
      | none ↦ record no_api { oauth2_permission_scopes = scopes }
      | some api ↦ record api { oauth2_permission_scopes = scopes }
    ]);
  };
}

unfoldable pub optional_claims : OptionalClaims → Request → Request
optional_claims claims a = record a {
  application = record a.application { optional_claims = some claims };
}

abbrev scope_access : String → ResourceAccess
scope_access id = record { id = id; access_type = "Scope" }

unfoldable pub microsoft_graph : RequiredResourceAccess
microsoft_graph = record {
  resource_app_id = "00000003-0000-0000-c000-000000000000";
  resource_access =
      scope_access "e1fe6dd8-ba31-4d61-89e7-88639da4683d"
      ∷ scope_access "37f7f235-527c-4136-accd-4a02d197296e"
      ∷ scope_access "bc024368-1153-4739-b217-4326f2e966d0"
      ∷ [];
}
