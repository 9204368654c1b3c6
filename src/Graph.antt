-- ===== src/Graph.antt =====
-- The resources of Microsoft Graph, with the fields that the controller reads or writes. Their Go
-- types are declared by the `msgraph` module, outside of this repository. A pointer that the code
-- tests against nil is an `Option`; one that it follows without a test (`*role.Value`) is a plain
-- value, since Graph always sends those fields and the code builds no such value without them.
-- A time is a number of seconds.
use azurerator.Base.{ℕ, String, Bool, Option, List}

pub record AppRole : Type 0 where
  pub allowed_member_types : List String
  pub description : String
  pub display_name : String
  pub id : String
  pub is_enabled : Bool
  pub value : String

pub record PermissionScope : Type 0 where
  pub admin_consent_description : String
  pub admin_consent_display_name : String
  pub id : String
  pub is_enabled : Bool
  pub scope_type : String
  pub value : String

pub record PreAuthorizedApplication : Type 0 where
  pub app_id : String
  pub delegated_permission_ids : List String

pub record AppRoleAssignment : Type 0 where
  pub id : Option String
  pub app_role_id : String
  pub principal_display_name : String
  pub principal_id : String
  pub principal_type : String
  pub resource_id : String

pub record PasswordCredential : Type 0 where
  pub key_id : String
  pub display_name : Option String
  pub start_date_time : ℕ
  pub end_date_time : ℕ
  pub secret_text : String

pub record KeyCredential : Type 0 where
  pub key_id : String
  pub display_name : Option String
  pub start_date_time : ℕ
  pub end_date_time : ℕ

pub record OptionalClaim : Type 0 where
  pub name : Option String
  pub essential : Bool

pub record OptionalClaims : Type 0 where
  pub access_token : List OptionalClaim
  pub id_token : List OptionalClaim
  pub saml2_token : List OptionalClaim

pub record ApiApplication : Type 0 where
  pub accept_mapped_claims : Option Bool
  pub oauth2_permission_scopes : List PermissionScope
  pub pre_authorized_applications : List PreAuthorizedApplication

pub record Application : Type 0 where
  pub id : String
  pub app_id : String
  pub display_name : String
  pub api : Option ApiApplication
  pub app_roles : List AppRole
  pub group_membership_claims : Option String
  pub identifier_uris : List String
  pub key_credentials : List KeyCredential
  pub optional_claims : Option OptionalClaims
  pub password_credentials : List PasswordCredential
  pub tags : List String

pub record ServicePrincipal : Type 0 where
  pub id : String
  pub app_id : String
  pub app_role_assignment_required : Option Bool
  pub tags : List String

pub record Group : Type 0 where
  pub id : Option String
  pub display_name : Option String
