-- ===== src/AzureClient.antt =====
-- pkg/azure/client/client.go: the client of Azure, which puts the others together. `retry` is
-- `doRetry` with the package `go-retry`: it runs a request again until it succeeds or the time is up.
pub mod CredentialSets
pub mod Laws
use azurerator.Base.{
  ℕ, String, Bool, true, false, Option, none, some, List, [], ◌∷◌, ◌==◌, string_eq, if◌then◌else◌,
}
use azurerator.Base.Exec.{Exec, Result, Failure, ok, err, pure, raise, then_do, ◌>>=◌, ◌>>◌}
use azurerator.Crd.{AzureAdApplication, Status, AccessPolicyRule}
use azurerator.Graph.{Application, ServicePrincipal}
use azurerator.Permissions.{Permissions, extract_permissions}
use azurerator.IdentifierUris
use azurerator.Reconciler
use azurerator.Reconciler.{
  ApplicationResult, PreAuthorizedApps, Transaction, operation_created, operation_updated,
}
use azurerator.ApplicationClient
use azurerator.ApplicationClient.{filter_by_name, get_unique_name}
use azurerator.ApplicationClient.Registration
use azurerator.ApplicationClient.Registration.{Context}
use azurerator.ServicePrincipals
use azurerator.PreAuthorizedAppClient
use azurerator.Groups
use azurerator.SecretData.{Set}
use azurerator.AzureClient.CredentialSets

pub record Features : Type 0 where
  pub app_role_assignment_required : Bool
  pub claims_mapping_policies : Bool
  pub claims_mapping_policy_id : String
  pub custom_security_attributes : Bool
  pub groups_assignment : Bool
  pub all_users_group_id : List String

pub record Config : Type 0 where
  pub features : Features
  pub tenant_id : String
  pub auth_client_id : String
  pub permission_grant_resource_id : String

pub record Client (S Jwk : Type 0) : Type 1 where
  pub apps : PreAuthorizedAppClient.Client S
  pub groups : Groups.Client S
  -- The clients of the credentials, for an application
  pub credentials : AzureAdApplication → CredentialSets.Client S Jwk
  pub retry : {A : Type 0} → Exec S A → Exec S A
  pub uniform_resource_name : String → String → String → String
  pub in_a_year : ℕ → ℕ
  pub clock : ℕ → ℕ
  -- Constants of `liberator`
  pub event_created_in_azure : String
  pub event_updated_in_azure : String

-- `Transaction.UpdateWithApplicationIDs` and `Transaction.UpdateWithServicePrincipalID`, which write
-- on the instance.
unfoldable pub with_application_ids : Application → AzureAdApplication → AzureAdApplication
with_application_ids application app = record app {
  status = record app.status { client_id = application.app_id; object_id = application.id };
}

unfoldable pub with_service_principal_id :
    ServicePrincipal → AzureAdApplication → AzureAdApplication
with_service_principal_id principal app = record app {
  status = record app.status { service_principal_id = principal.id };
}

-- A step that a feature may switch off.
abbrev pub where_enabled : {S : Type 0} → Bool → Exec S (Unit {0}) → Exec S (Unit {0})
where_enabled enabled step = if enabled then step else pure tt

module _ {S Jwk : Type 0} (client : Client S Jwk) (config : Config) (context : Context) where
  abbrev applications : ApplicationClient.Client S
  applications = client.apps.applications

  abbrev principals : ServicePrincipals.Client S
  principals = client.apps.principals

  abbrev uniform_name : AzureAdApplication → String
  uniform_name app = client.uniform_resource_name app.name app.namespace context.cluster_name

  abbrev group_config : Groups.Config
  group_config = record {
    all_users_group_id = config.features.all_users_group_id;
    app_role_assignment_required = config.features.app_role_assignment_required;
  }

  -- The parts of `process` before and after the pre-authorized applications.
  unfoldable pub process_owners : AzureAdApplication → Exec S (Unit {0})
  process_owners app = do
    ServicePrincipals.process_grants principals config.permission_grant_resource_id app
    owner ← ServicePrincipals.get_id_by_client_id principals config.auth_client_id
    ApplicationClient.process_owners applications app owner
    ServicePrincipals.process_owners principals app owner

  unfoldable pub process_features : AzureAdApplication → Application → Exec S (Unit {0})
  process_features app application = do
    where_enabled config.features.claims_mapping_policies (
        ApplicationClient.enable_accept_mapped_claims applications app application
        >> ServicePrincipals.process_policies principals app
            config.features.claims_mapping_policy_id)
    where_enabled config.features.groups_assignment
        (Groups.process client.groups context.range_order group_config app)
    where_enabled config.features.app_role_assignment_required
        (ServicePrincipals.set_app_role_assignment principals app true)
    where_enabled config.features.custom_security_attributes
        (ServicePrincipals.set_security_attributes principals app)

  unfoldable pub process : AzureAdApplication → Application → Exec S PreAuthorizedApps
  process app application = do
    process_owners app
    elim (extract_permissions application) [
      | none ↦ raise Failure.nil_pointer
      | some permissions ↦ do
        pre_auth_apps ←
            PreAuthorizedAppClient.process client.apps client.uniform_resource_name
              context.range_order context.cluster_name app permissions
        process_features app application
        pure pre_auth_apps
    ]

  unfoldable pub create : AzureAdApplication → Exec S ApplicationResult
  create app = do
    application ← Registration.register context applications (uniform_name app) app
    let registered = with_application_ids application app
    principal ← client.retry (
        ServicePrincipals.register principals config.features.app_role_assignment_required
          registered)
    let instance_ = with_service_principal_id principal registered
    client.retry (
        ApplicationClient.set_identifier_uris applications instance_
          (IdentifierUris.describe_create instance_ context.cluster_name))
    pre_auth_apps ← client.retry (process instance_ application)
    pure (record {
      client_id = application.app_id;
      object_id = application.id;
      service_principal_id = principal.id;
      pre_authorized_apps = pre_auth_apps;
      tenant = config.tenant_id;
      result = operation_created;
    })

  unfoldable pub update : AzureAdApplication → Exec S ApplicationResult
  update app = do
    application ← Registration.update context applications (uniform_name app) app
    ApplicationClient.update_redirect_uris applications context.is_url app
    pre_auth_apps ← process app application
    ApplicationClient.remove_disabled_permissions applications app application
    pure (record {
      client_id = app.status.client_id;
      object_id = app.status.object_id;
      service_principal_id = app.status.service_principal_id;
      pre_authorized_apps = pre_auth_apps;
      tenant = config.tenant_id;
      result = operation_updated;
    })

  unfoldable pub exists : AzureAdApplication → Exec S (Option Application)
  exists app = ApplicationClient.exists applications (uniform_name app)

  unfoldable pub delete : AzureAdApplication → Exec S (Unit {0})
  delete app = do
    found ← exists app
    elim found [ none ↦ raise Failure.other | some _ ↦ ApplicationClient.delete applications app ]

  unfoldable pub get_service_principal : AzureAdApplication → Exec S ServicePrincipal
  get_service_principal app = do
    found ← ServicePrincipals.exists principals app.status.client_id
    elim found [
      | some principal ↦ pure principal
      | none ↦
          ServicePrincipals.register principals config.features.app_role_assignment_required app
    ]

  -- The live client ID of an application, and whether it is assignable.
  unfoldable pub pre_authorized_app_client_id : AccessPolicyRule → Exec S (String × Bool)
  pre_authorized_app_client_id rule = do
    found ←
        ApplicationClient.exists_by_filter applications
          (filter_by_name (get_unique_name client.uniform_resource_name rule))
    elim found [
      | none ↦ pure ("", false)
      | some app ↦ if app.app_id == "" then pure ("", false) else do
        principal ← ServicePrincipals.exists principals app.app_id
        elim principal [ none ↦ pure ("", false) | some _ ↦ pure (app.app_id, true) ]
    ]

  -- A set, with the key IDs of its current certificate and password.
  abbrev with_key_ids : Set Jwk → Set Jwk × String × String
  with_key_ids set = (set, set.current.certificate.key_id, set.current.password.key_id)

  -- What the reconciler asks of the client, done by the functions above.
  unfoldable pub azure_client : Reconciler.AzureClient S (Set Jwk)
  azure_client = record {
    exists = λ app. do
      found ← exists app
      pure (elim found [ none ↦ none | some a ↦ some (a.app_id, a.id) ]);
    get_service_principal = λ app. do
      principal ← get_service_principal app
      pure principal.id;
    create = λ tx. create tx.instance_;
    update = λ tx. update tx.instance_;
    get_pre_authorized_apps = λ tx.
        PreAuthorizedAppClient.get client.apps client.uniform_resource_name context.cluster_name
          tx.instance_;
    delete = λ tx. delete tx.instance_;
    add_credentials = λ tx. do
      set ←
          CredentialSets.add (client.credentials tx.instance_) client.in_a_year client.clock
            tx.instance_.status.object_id
      pure (with_key_ids set);
    rotate_credentials = λ tx. do
      set ←
          CredentialSets.rotate (client.credentials tx.instance_) client.in_a_year client.clock
            tx.used tx.latest_set tx.instance_.status.object_id
      pure (with_key_ids set);
    delete_expired = λ tx.
        CredentialSets.delete_expired (client.credentials tx.instance_) client.in_a_year
          client.clock;
    delete_unused = λ tx.
        CredentialSets.delete_unused (client.credentials tx.instance_) client.in_a_year client.clock
          tx.used tx.latest_set;
    purge =
        λ tx. CredentialSets.purge (client.credentials tx.instance_) client.in_a_year client.clock;
    validate = λ tx set.
        CredentialSets.validate (client.credentials tx.instance_) client.in_a_year client.clock set;
    event_created_in_azure = client.event_created_in_azure;
    event_updated_in_azure = client.event_updated_in_azure;
  }
