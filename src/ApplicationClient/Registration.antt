-- ===== src/ApplicationClient/Registration.antt =====
-- pkg/azure/client/application/application.go: the registration and the update of an application.
-- The context is what the code takes from the libraries and the configuration.
use azurerator.Base.{ℕ, String, Bool, none, some, [], ◌∷◌, ◌==◌, string_eq, if◌then◌else◌}
use azurerator.Base.Dict.{Iteration}
use azurerator.Base.Exec.{Exec, Result, Failure, ok, err, pure, ◌>>=◌, ◌>>◌}
use azurerator.Crd.{AzureAdApplication}
use azurerator.Graph.{Application, ApiApplication}
use azurerator.Permissions.{
  Permissions, generate_desired_permission_set, generate_desired_permission_set_preserve_existing,
}
use azurerator.AppRoles
use azurerator.PermissionScopes
use azurerator.IdentifierUris
use azurerator.RedirectUris
use azurerator.OptionalClaims
use azurerator.GroupMembershipClaims.{from_spec, from_spec_or_default}
use azurerator.ApplicationClient.{Client, patch_application, get_by_client_id}
use azurerator.ApplicationClient.Requests
use azurerator.ApplicationClient.Requests.{Request, default_template, microsoft_graph}

pub record Context : Type 1 where
  pub range_order : Iteration
  pub uuid : ℕ → String
  pub is_url : String → Bool
  pub equal_fold : String → String → Bool
  pub default_group_membership_claim : String
  pub cluster_name : String

module _ (c : Context) where
  -- What `Register` asks for, with the normalized claim.
  unfoldable pub registration : String → AzureAdApplication → String → Request
  registration uniform_name app claim =
      let desired = generate_desired_permission_set c.uuid 0 app.spec.pre_authorized_applications in
      Requests.resource_access (microsoft_graph ∷ []) (
        Requests.redirect_uris (RedirectUris.reply_urls_to_string_slice c.is_url app) app (
          Requests.permission_scopes (PermissionScopes.describe_create c.range_order desired) (
            Requests.optional_claims OptionalClaims.describe_create (
              Requests.group_membership_claims claim (
                Requests.app_roles (AppRoles.describe_create c.range_order desired)
                  (default_template uniform_name app))))))

  -- What `Update` asks for but for the group membership claims.
  unfoldable pub described :
      String → AzureAdApplication → Application → ApiApplication → Permissions → Request
  described uniform_name app actual api desired =
      Requests.permission_scopes
        (PermissionScopes.describe_update c.range_order desired api.oauth2_permission_scopes)
        (Requests.optional_claims (OptionalClaims.describe_update actual) (
          Requests.identifier_uri_list
            (IdentifierUris.describe_update app actual.identifier_uris c.cluster_name)
            (Requests.app_roles (AppRoles.describe_update c.range_order desired actual.app_roles)
              (default_template uniform_name app))))

  -- The claims are set where there were none, and else replaced if the specification has any.
  unfoldable pub with_claims : AzureAdApplication → Application → Request → Result Request
  with_claims app actual builder = elim actual.group_membership_claims [
    | none ↦ elim (from_spec_or_default c.equal_fold app c.default_group_membership_claim) [
      | err e ↦ err e
      | ok claim ↦ ok (Requests.group_membership_claims claim builder)
    ]
    | some _ ↦ elim (from_spec c.equal_fold app) [
      | err e ↦ err e
      | ok claim ↦
          ok (if claim == "" then builder else Requests.group_membership_claims claim builder)
    ]
  ]

  -- The request that `Update` makes of the application that it finds.
  unfoldable pub update_request : String → AzureAdApplication → Application → Result Request
  unfolding described with_claims
  update_request uniform_name app actual =
      elim (generate_desired_permission_set_preserve_existing c.range_order c.uuid 0
        app.spec.pre_authorized_applications actual) [
          | none ↦ err Failure.nil_pointer
          | some desired ↦ elim actual.api [
            | none ↦ err Failure.nil_pointer
            | some api ↦ with_claims app actual (described uniform_name app actual api desired)
          ]
        ]

  module _ {S : Type 0} (client : Client S) where
    unfoldable pub register : String → AzureAdApplication → Exec S Application
    unfolding registration
    register uniform_name app = do
      claim ← (λ s. (from_spec_or_default c.equal_fold app c.default_group_membership_claim, s))
      client.add_application (registration uniform_name app claim)

    unfoldable pub update : String → AzureAdApplication → Exec S Application
    unfolding update_request get_by_client_id
    update uniform_name app = do
      actual ← get_by_client_id client app.status.client_id
      request ← (λ s. (update_request uniform_name app actual, s))
      client.patch app.status.object_id (patch_application request)
      pure request.application
