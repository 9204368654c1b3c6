-- ===== src/ServicePrincipals.antt =====
-- pkg/azure/client/serviceprincipal: serviceprincipal.go, owners.go and policies.go, with
-- pkg/azure/client/oauth2permissiongrant. `Client` has the requests, and the two caches of
-- identifiers, whose entries do not expire. The assignments of roles are in `Assignments`.
pub mod Laws
use azurerator.Base.{
  String, ◌<>◌, Bool, true, false, Option, none, some, List, [], ◌∷◌, ◌&&◌, ◌==◌, contains,
  string_eq, if◌then◌else◌,
}
use azurerator.Base.Exec.{Exec, Failure, ok, pure, raise, ◌>>=◌, ◌>>◌}
use azurerator.Crd.{AzureAdApplication}
use azurerator.Graph.{ServicePrincipal}
use azurerator.ApplicationClient.{contains_owner, to_owner_payload, filter_by_app_id}

abbrev pub tag_hide_app : String
tag_hide_app = "HideApp"

-- What a request to register or to update a service principal sends.
pub record PrincipalRequest : Type 0 where
  pub app_id : Option String
  pub app_role_assignment_required : Bool
  pub tags : List String

pub record SecurityAttributes : Type 0 where
  pub odata_type : String
  pub managed_by : String

pub record Grant : Type 0 where
  pub client_id : String
  pub consent_type : String
  pub resource_id : String
  pub scope : String

pub record Client (S : Type 0) : Type 0 where
  pub get_principal : String → Exec S ServicePrincipal
  -- The service principals that a filter selects
  pub list_principals : String → Exec S (List ServicePrincipal)
  pub add_principal : PrincipalRequest → Exec S ServicePrincipal
  pub update_principal : String → PrincipalRequest → Exec S (Unit {0})
  pub patch_security_attributes : String → SecurityAttributes → Exec S (Unit {0})
  -- The owners' identifiers, of the service principal with an identifier
  pub owners : String → Exec S (List (Option String))
  pub add_owner : String → String → Exec S (Unit {0})
  -- The identifiers of the policies of a service principal
  pub policies : String → Exec S (List (Option String))
  pub add_policy : String → String → Exec S (Unit {0})
  pub remove_policy : String → String → Exec S (Unit {0})
  -- The permission grants that a filter selects, of which only the number is asked
  pub list_grants : String → Exec S (List Grant)
  pub add_grant : Grant → Exec S (Unit {0})
  pub client_id_cached : String → S → Option String
  pub cache_client_id : String → String → S → S
  pub principal_id_cached : String → S → Option String
  pub cache_principal_id : String → String → S → S

unfoldable pub filter_by_client_id : String → String
filter_by_client_id client_id = "clientId eq '" <> (client_id <> "'")

unfoldable pub policy_id : Option String → Option String
policy_id policy = elim policy [ none ↦ none | some id ↦ if id == "" then none else some id ]

unfoldable pub new_claims_mapping_policy_body : String → String
new_claims_mapping_policy_body id =
    "https://graph.microsoft.com/v1.0/policies/claimsMappingPolicies/" <> id

module _ {S : Type 0} (client : Client S) where
  unfoldable pub get_client_id : String → Exec S String
  get_client_id id s = elim (client.client_id_cached id s) [
    | some client_id ↦ (ok client_id, s)
    | none ↦
        (client.get_principal id >>= λ sp.
        λ t. (ok sp.app_id, client.cache_client_id id sp.app_id t))
          s
  ]

  -- `none` is where no service principal exists.
  unfoldable pub exists : String → Exec S (Option ServicePrincipal)
  exists client_id = do
    sps ← client.list_principals (filter_by_app_id client_id)
    elim sps [
      | [] ↦ pure none
      | sp ∷ _ ↦ λ s. (ok (some sp), client.cache_client_id sp.id sp.app_id s)
    ]

  unfoldable pub get_id_by_client_id : String → Exec S String
  unfolding exists
  get_id_by_client_id client_id s = elim (client.principal_id_cached client_id s) [
    | some id ↦ (ok id, s)
    | none ↦
        (exists client_id >>= λ found. elim found [
          | none ↦ raise Failure.other
          | some sp ↦ λ t. (ok sp.id, client.cache_principal_id client_id sp.id t)
        ])
          s
  ]

  unfoldable pub register : Bool → AzureAdApplication → Exec S ServicePrincipal
  register assignment_required app = client.add_principal record {
    app_id = some app.status.client_id;
    app_role_assignment_required = assignment_required;
    tags = tag_hide_app ∷ [];
  }

  unfoldable pub set_security_attributes : AzureAdApplication → Exec S (Unit {0})
  set_security_attributes app =
      client.patch_security_attributes app.status.service_principal_id record {
        odata_type = "#Microsoft.DirectoryServices.CustomSecurityAttributeValue";
        managed_by = "NAIS";
      }

  -- `==` of two Booleans.
  abbrev pub same : Bool → Bool → Bool
  same true b = b
  same false b = if b then false else true

  unfoldable pub set_app_role_assignment : AzureAdApplication → Bool → Exec S (Unit {0})
  unfolding exists
  set_app_role_assignment app required = do
    found ← exists app.status.client_id
    elim found [
      | none ↦ raise Failure.other
      | some sp ↦ elim sp.app_role_assignment_required [
        | none ↦ raise Failure.other
        | some is_required ↦
            if same is_required required && contains sp.tags tag_hide_app
            then pure tt
            else client.update_principal app.status.service_principal_id record {
              app_id = none;
              app_role_assignment_required = required;
              tags = tag_hide_app ∷ [];
            }
      ]
    ]

  unfoldable pub process_owners : AzureAdApplication → String → Exec S (Unit {0})
  process_owners app owner = do
    existing ← client.owners app.status.service_principal_id
    (if contains_owner existing owner
        then pure tt
        else client.add_owner app.status.service_principal_id (to_owner_payload owner))

  -- The loop of `Process` over the assigned policies, with the assignment that follows it.
  unfoldable pub replace_policies : String → String → List (Option String) → Exec S (Unit {0})
  replace_policies id desired [] = client.add_policy id (new_claims_mapping_policy_body desired)
  replace_policies id desired (assigned ∷ policies) = elim (policy_id assigned) [
    | none ↦ replace_policies id desired policies
    | some assigned_id ↦
        if assigned_id == desired
        then pure tt
        else (client.remove_policy assigned_id id >> replace_policies id desired policies)
  ]

  unfoldable pub process_policies : AzureAdApplication → String → Exec S (Unit {0})
  unfolding replace_policies
  process_policies app desired =
      if desired == ""
      then pure tt
      else if app.status.service_principal_id == ""
      then raise Failure.other
      else do
        assigned ← client.policies app.status.service_principal_id
        replace_policies app.status.service_principal_id desired assigned

  -- The package oauth2permissiongrant.
  unfoldable pub to_grant : String → String → Grant
  to_grant resource_id principal_id = record {
    client_id = principal_id;
    consent_type = "AllPrincipals";
    resource_id = resource_id;
    scope = "openid User.Read GroupMember.Read.All";
  }

  unfoldable pub grant_exists : AzureAdApplication → Exec S Bool
  unfolding filter_by_client_id
  grant_exists app = do
    grants ← client.list_grants (filter_by_client_id app.status.service_principal_id)
    pure (elim grants [ [] ↦ false | _ ↦ true ])

  unfoldable pub process_grants : String → AzureAdApplication → Exec S (Unit {0})
  unfolding grant_exists to_grant
  process_grants resource_id app = do
    already ← grant_exists app
    (if already
        then pure tt
        else client.add_grant (to_grant resource_id app.status.service_principal_id))
