-- ===== src/Crd.antt =====
-- The custom resource `AzureAdApplication`, with the fields of it that the controller reads or
-- writes. Its Go type is declared by the `liberator` module, outside of this repository, as is its
-- `Hash`. A pointer that the code tests against nil is an `Option`; a time is a number of seconds.
use azurerator.Base.{ℕ, String, Bool, Option, List}
use azurerator.Base.Dict.{Dict}

pub record AccessPolicyRule : Type 0 where
  pub application : String
  pub namespace : String
  pub cluster : String

pub record AccessPolicyPermissions : Type 0 where
  pub roles : List String
  pub scopes : List String

pub record AccessPolicyInboundRule : Type 0 where
  pub rule : AccessPolicyRule
  pub permissions : Option AccessPolicyPermissions

pub record Spec : Type 0 where
  pub pre_authorized_applications : List AccessPolicyInboundRule
  pub secret_name : String
  pub secret_key_prefix : String
  pub tenant : String
  pub reply_urls : List String
  pub single_page_application : Option Bool
  pub group_membership_claims : Option String
  pub logout_url : String
  -- The identifiers of the groups that the claims list.
  pub claims_groups : Option (List String)
  pub allow_all_users : Option Bool

pub record PreAuthorizedAppStatus : Type 0 where
  pub access_policy_rule : Option AccessPolicyRule
  pub client_id : String
  pub service_principal_object_id : String

pub record PreAuthorizedAppsStatus : Type 0 where
  pub assigned : List PreAuthorizedAppStatus
  pub unassigned : List PreAuthorizedAppStatus

pub record Status : Type 0 where
  pub client_id : String
  pub object_id : String
  pub service_principal_id : String
  pub certificate_key_ids : List String
  pub password_key_ids : List String
  pub correlation_id : String
  pub pre_authorized_apps : Option PreAuthorizedAppsStatus
  pub synchronization_hash : String
  pub synchronization_secret_name : String
  pub synchronization_secret_rotation_time : Option ℕ
  pub synchronization_state : String
  pub synchronization_tenant : String
  pub synchronization_tenant_name : String
  pub synchronization_time : Option ℕ

-- `none` for the annotations is the nil map.
pub record AzureAdApplication : Type 0 where
  pub name : String
  pub namespace : String
  pub annotations : Option (Dict String String)
  pub finalizers : List String
  pub deletion_timestamp : Option ℕ
  pub spec : Spec
  pub status : Status
