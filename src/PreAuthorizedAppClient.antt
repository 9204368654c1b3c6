-- ===== src/PreAuthorizedAppClient.antt =====
-- pkg/azure/client/preauthorizedapp: list.go and preauthorizedapp.go. The lookups of applications
-- and service principals are those of `ApplicationClient` and `ServicePrincipals`, the roles those of
-- `Assignments` for the application's service principal.
pub mod Laws
pub mod Patches
use azurerator.Base.{
  String, Bool, true, false, Option, none, some, List, [], ◌∷◌, ◌++◌, ◌&&◌, ◌||◌, ◌==◌, contains,
  string_eq, if◌then◌else◌,
}
use azurerator.Base.Dict.{Iteration}
use azurerator.Base.Exec.{Exec, Result, Failure, ok, err, pure, raise, then_do, ◌>>=◌, ◌>>◌}
use azurerator.Crd.{AzureAdApplication, AccessPolicyRule, AccessPolicyInboundRule}
use azurerator.Graph.{Application, PreAuthorizedApplication}
use azurerator.Permissions.{Permissions}
use azurerator.Resources.{Resource, service_principal_type, to_pre_authorized_app}
use azurerator.Assignments
use azurerator.Reconciler.{PreAuthorizedApps}
use azurerator.ApplicationClient
use azurerator.ApplicationClient.{
  filter_by_name, filter_by_app_id, get_unique_name, patch_pre_authorized_applications,
}
use azurerator.ServicePrincipals

-- `List.HasResource`
unfoldable pub has_resource : List PreAuthorizedApplication → Resource → Bool
has_resource [] resource = false
has_resource (app ∷ l) resource =
    if app.app_id == resource.client_id then true else has_resource l resource

unfoldable pub invalid_resource :
    (String → String → String → String) → AccessPolicyInboundRule → Resource
unfolding get_unique_name
invalid_resource uniform_resource_name app = record {
  name = get_unique_name uniform_resource_name app.rule;
  client_id = "";
  object_id = "";
  principal_type = service_principal_type;
  inbound_rule = app;
}

unfoldable pub to_resource : String → String → AzureAdApplication → Resource
to_resource uniform_name cluster app = record {
  name = uniform_name;
  client_id = app.status.client_id;
  object_id = app.status.service_principal_id;
  principal_type = service_principal_type;
  inbound_rule = record {
    rule = record { application = app.name; namespace = app.namespace; cluster = cluster };
    permissions = none;
  };
}

unfoldable pub ensure_fields_are_set :
    String → AzureAdApplication → AccessPolicyInboundRule → AccessPolicyInboundRule
ensure_fields_are_set cluster app inbound = record inbound {
  rule = record {
    application = inbound.rule.application;
    namespace = if inbound.rule.namespace == "" then app.namespace else inbound.rule.namespace;
    cluster = if inbound.rule.cluster == "" then cluster else inbound.rule.cluster;
  };
}

-- The calls of the other clients.
pub record Client (S : Type 0) : Type 0 where
  pub applications : ApplicationClient.Client S
  pub principals : ServicePrincipals.Client S
  -- `AppRoleAssignments(tx, targetId)`
  pub assignments : String → Assignments.Client S

-- The last loop of `Get`: the valid applications that are assigned, and the rest.
unfoldable pub split_assigned :
    (Resource → Bool) → List Resource → List Resource → List Resource → PreAuthorizedApps
split_assigned is_assigned [] assigned unassigned = record {
  valid = assigned;
  invalid = unassigned;
}
split_assigned is_assigned (valid ∷ rest) assigned unassigned =
    if is_assigned valid
    then split_assigned is_assigned rest (assigned ++ valid ∷ []) unassigned
    else split_assigned is_assigned rest assigned (unassigned ++ valid ∷ [])

-- The client IDs of the applications that were added.
unfoldable pub added_ids : List Resource → List String
added_ids [] = []
added_ids (r ∷ resources) = r.client_id ∷ added_ids resources

unfoldable pub to_apps : Iteration → List Resource → Permissions → List PreAuthorizedApplication
to_apps it [] permissions = []
to_apps it (r ∷ resources) permissions =
    to_pre_authorized_app it r permissions ∷ to_apps it resources permissions

module _ {S : Type 0} (client : Client S)
    (uniform_resource_name : String → String → String → String) where
  -- The resource, and whether it exists.
  unfoldable pub map_to_resource : AccessPolicyInboundRule → Exec S (Resource × Bool)
  map_to_resource app = do
    found ←
        ApplicationClient.exists_by_filter client.applications
          (filter_by_name (get_unique_name uniform_resource_name app.rule))
    elim found [
      | none ↦ pure (invalid_resource uniform_resource_name app, false)
      | some a ↦ do
        principal ← ServicePrincipals.exists client.principals a.app_id
        elim principal [
          | none ↦ pure (invalid_resource uniform_resource_name app, false)
          | some sp ↦ pure (
            record {
              name = a.display_name;
              client_id = a.app_id;
              object_id = sp.id;
              principal_type = service_principal_type;
              inbound_rule = app;
            },
            true,
          )
        ]
    ]

  -- The loop of `mapDesiredPreAuthorizedApps`, with the names that it has `seen`; its result adds the
  -- application itself.
  unfoldable pub map_each :
      String
      → AzureAdApplication
      → List AccessPolicyInboundRule
      → List String
      → List Resource
      → List Resource
      → Exec S PreAuthorizedApps
  unfolding map_to_resource
  map_each cluster self [] seen valid invalid =
      let name = uniform_resource_name self.name self.namespace cluster in
      pure (record {
        valid = if contains seen name then valid else valid ++ to_resource name cluster self ∷ [];
        invalid = invalid;
      })
  map_each cluster self (app ∷ apps) seen valid invalid = do
    found ← map_to_resource (ensure_fields_are_set cluster self app)
    (if found.1
        then (if contains seen found.0.name
            then map_each cluster self apps seen valid invalid
            else map_each cluster self apps (found.0.name ∷ seen) (valid ++ found.0 ∷ []) invalid)
        else map_each cluster self apps seen valid (invalid ++ found.0 ∷ []))

  unfoldable pub map_desired_pre_authorized_apps :
      String → AzureAdApplication → Exec S PreAuthorizedApps
  unfolding map_each
  map_desired_pre_authorized_apps cluster self =
      map_each cluster self self.spec.pre_authorized_applications [] [] []

  -- The last part of a round of the loop of `patchPreAuthorizedApplications`: is the application
  -- there, and not managed?
  unfoldable pub is_unmanaged : String → Exec S Bool
  is_unmanaged client_id = do
    found ← ApplicationClient.exists_by_filter client.applications (filter_by_app_id client_id)
    elim found [
      | none ↦ pure false
      | some app ↦ λ s.
          let answer = ApplicationClient.is_managed client.applications app s in
          (ok (if answer.0 then false else true), answer.1)
    ]

  -- A round: is the existing application preserved?
  unfoldable pub is_preserved : List String → PreAuthorizedApplication → Exec S Bool
  unfolding is_unmanaged
  is_preserved added existing s =
      if contains added existing.app_id
      then (ok false, s)
      else elim (client.applications.is_managed_cached existing.app_id s) [
        | some true ↦ (ok false, s)
        | _ ↦ is_unmanaged existing.app_id s
      ]

  unfoldable pub preserve_each :
      List String
      → List PreAuthorizedApplication
      → List PreAuthorizedApplication
      → Exec S (List PreAuthorizedApplication)
  unfolding is_preserved
  preserve_each added [] apps = pure apps
  preserve_each added (existing ∷ rest) apps = do
    kept ← is_preserved added existing
    preserve_each added rest (if kept then apps ++ existing ∷ [] else apps)

  unfoldable pub patch_pre_authorized :
      Iteration → String → AzureAdApplication → List Resource → Permissions → Exec S (Unit {0})
  unfolding preserve_each
  patch_pre_authorized it cluster self resources permissions = do
    application ←
        ApplicationClient.get_by_name client.applications
          (uniform_resource_name self.name self.namespace cluster)
    elim application.api [
      | none ↦ raise Failure.nil_pointer
      | some api ↦ do
        apps ←
            preserve_each (added_ids resources) api.pre_authorized_applications
              (to_apps it resources permissions)
        client.applications.patch self.status.object_id (patch_pre_authorized_applications apps)
    ]

  unfoldable pub process :
      Iteration → String → AzureAdApplication → Permissions → Exec S PreAuthorizedApps
  unfolding map_desired_pre_authorized_apps patch_pre_authorized
  process it cluster self permissions = do
    apps ← map_desired_pre_authorized_apps cluster self
    patch_pre_authorized it cluster self apps.valid permissions
    Assignments.process_for (client.assignments self.status.service_principal_id) it
        self.status.service_principal_id apps.valid service_principal_type permissions
    pure apps

  unfoldable pub get : String → AzureAdApplication → Exec S PreAuthorizedApps
  unfolding map_desired_pre_authorized_apps split_assigned
  get cluster self = do
    desired ← map_desired_pre_authorized_apps cluster self
    application ←
        ApplicationClient.get_by_name client.applications
          (uniform_resource_name self.name self.namespace cluster)
    elim application.api [
      | none ↦ raise Failure.nil_pointer
      | some api ↦ do
        all ←
            Assignments.get_all_service_principals
              (client.assignments self.status.service_principal_id)
        pure (
            split_assigned
              (λ valid.
                has_resource api.pre_authorized_applications valid
                && Assignments.has_resource all valid)
              desired.valid [] desired.invalid)
    ]
