-- ===== src/ApplicationClient.antt =====
-- pkg/azure/client/application/application.go, with the packages owners, requiredresourceaccess and
-- identifieruri (`Set`) and redirecturi (`Update`) below it, pkg/azure/client/directoryobject, the
-- filters of pkg/azure/util and pkg/customresources/accesspolicyrule.go: the requests for an
-- application. `Client` has those of Microsoft Graph, and the cache of the managed applications, of
-- which an expired entry is one that is not found.
-- `uniform_resource_name` is the function `UniformResourceName` of `liberator`, of a name, a
-- namespace and a cluster.
pub mod Requests
pub mod Registration
pub mod Laws
use azurerator.Base.{
  ℕ, String, ◌<>◌, Bool, true, false, Option, none, some, List, [], ◌∷◌, ◌&&◌, ◌||◌, ◌==◌,
  string_eq, if◌then◌else◌,
}
use azurerator.Base.Dict.{Iteration}
use azurerator.Base.Exec.{Exec, Result, Failure, ok, err, pure, raise, then_do, ◌>>=◌, ◌>>◌}
use azurerator.Crd.{AccessPolicyRule, AzureAdApplication}
use azurerator.Graph.{Application, ApiApplication, PreAuthorizedApplication}
use azurerator.Permissions
use azurerator.AppRoles
use azurerator.PermissionScopes
use azurerator.IdentifierUris
use azurerator.RedirectUris
use azurerator.OptionalClaims
use azurerator.GroupMembershipClaims
use azurerator.ApplicationClient.Requests
use azurerator.ApplicationClient.Requests.{
  Request, empty_application, default_template, microsoft_graph, ia_c_app_tag, legacy_ia_c_app_tag,
}

-- What a patch of an application sends.
pub data Patch : Type 0 where
  patch_application : Request → Patch
  patch_redirect_uris : RedirectUris.RedirectUris → Patch
  patch_accept_mapped_claims : Bool → Patch
  patch_pre_authorized_applications : List PreAuthorizedApplication → Patch

pub record Client (S : Type 0) : Type 0 where
  -- The applications that a filter selects
  pub list_applications : String → Exec S (List Application)
  pub add_application : Request → Exec S Application
  pub delete_application : String → Exec S (Unit {0})
  pub patch : String → Patch → Exec S (Unit {0})
  -- The owners' identifiers, of the application with an identifier
  pub owners : String → Exec S (List (Option String))
  pub add_owner : String → String → Exec S (Unit {0})
  -- `IsManagedCache.Get` and `IsManagedCache.Set`
  pub is_managed_cached : String → S → Option Bool
  pub set_managed : String → Bool → S → S

unfoldable pub filter_by_name : String → String
filter_by_name name = "displayName eq '" <> (name <> "'")

unfoldable pub filter_by_app_id : String → String
filter_by_app_id client_id = "appId eq '" <> (client_id <> "'")

unfoldable pub get_unique_name : (String → String → String → String) → AccessPolicyRule → String
get_unique_name uniform_resource_name rule =
    uniform_resource_name rule.application rule.namespace rule.cluster

unfoldable pub has_managed_tag : List String → Bool
has_managed_tag [] = false
has_managed_tag (tag ∷ tags) =
    if tag == ia_c_app_tag || tag == legacy_ia_c_app_tag then true else has_managed_tag tags

unfoldable pub contains_owner : List (Option String) → String → Bool
contains_owner [] id = false
contains_owner (owner ∷ owners) id =
    (elim owner [ none ↦ false | some o ↦ o == id ]) || contains_owner owners id

unfoldable pub to_owner_payload : String → String
to_owner_payload id = "https://graph.microsoft.com/v1.0/directoryObjects/" <> id

module _ {S : Type 0} (client : Client S) where
  unfoldable pub is_managed : Application → S → Bool × S
  unfolding has_managed_tag
  is_managed app s = elim (client.is_managed_cached app.app_id s) [
    | some managed ↦ (managed, s)
    | none ↦
        let managed = has_managed_tag app.tags in (managed, client.set_managed app.app_id managed s)
  ]

  -- The loop of `getAll`, which fills the cache.
  unfoldable pub remember : List Application → S → S
  unfolding is_managed
  remember [] s = s
  remember (app ∷ apps) s = remember apps (is_managed app s).1

  unfoldable pub get_all : String → Exec S (List Application)
  unfolding remember
  get_all filter = do
    applications ← client.list_applications filter
    λ s. (ok applications, remember applications s)

  -- `none` is where no application exists.
  unfoldable pub exists_by_filter : String → Exec S (Option Application)
  unfolding get_all
  exists_by_filter filter = do
    applications ← get_all filter
    elim applications [ [] ↦ pure none | app ∷ [] ↦ pure (some app) | _ ↦ raise Failure.other ]

  unfoldable pub get_single_by_filter_or_error : String → Exec S Application
  unfolding get_all
  get_single_by_filter_or_error filter = do
    applications ← get_all filter
    elim applications [ [] ↦ raise Failure.other | app ∷ [] ↦ pure app | _ ↦ raise Failure.other ]

  unfoldable pub get_by_name : String → Exec S Application
  unfolding get_single_by_filter_or_error filter_by_name
  get_by_name name = get_single_by_filter_or_error (filter_by_name name)

  unfoldable pub get_by_client_id : String → Exec S Application
  unfolding get_single_by_filter_or_error filter_by_app_id
  get_by_client_id id = get_single_by_filter_or_error (filter_by_app_id id)

  unfoldable pub exists : String → Exec S (Option Application)
  unfolding exists_by_filter filter_by_name
  exists name = exists_by_filter (filter_by_name name)

  unfoldable pub delete : AzureAdApplication → Exec S (Unit {0})
  delete app = client.delete_application app.status.object_id

  -- The function `Process` of the package owners.
  unfoldable pub process_owners : AzureAdApplication → String → Exec S (Unit {0})
  unfolding contains_owner to_owner_payload
  process_owners app owner = do
    existing ← client.owners app.status.object_id
    (if contains_owner existing owner
        then pure tt
        else client.add_owner app.status.object_id (to_owner_payload owner))

  -- `Set` of the package identifieruri.
  unfoldable pub set_identifier_uris : AzureAdApplication → List String → Exec S (Unit {0})
  set_identifier_uris app uris =
      client.patch app.status.object_id
        (patch_application (Requests.identifier_uri_list uris empty_application))

  -- `Update` of the package redirecturi.
  unfoldable pub update_redirect_uris : (String → Bool) → AzureAdApplication → Exec S (Unit {0})
  update_redirect_uris is_url app =
      client.patch app.status.object_id (patch_redirect_uris (RedirectUris.app is_url app))

  unfoldable pub remove_disabled_permissions : AzureAdApplication → Application → Exec S (Unit {0})
  remove_disabled_permissions app application = client.patch app.status.object_id (
      patch_application (
        Requests.app_roles (AppRoles.remove_disabled application) (
          Requests.permission_scopes (PermissionScopes.remove_disabled application)
            empty_application)))

  unfoldable pub accepts_mapped_claims : Application → Bool
  accepts_mapped_claims application = elim application.api [
    | none ↦ false
    | some api ↦ elim api.accept_mapped_claims [ none ↦ false | some b ↦ b ]
  ]

  unfoldable pub enable_accept_mapped_claims : AzureAdApplication → Application → Exec S (Unit {0})
  unfolding accepts_mapped_claims
  enable_accept_mapped_claims app application =
      if accepts_mapped_claims application
      then pure tt
      else client.patch app.status.object_id (patch_accept_mapped_claims true)
