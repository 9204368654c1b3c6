-- ===== src/Tests/Clients.antt =====
-- Runs of the theorems on an application's fields and credentials.
use azurerator.Base.{
  ◌+◌, ◌≡◌, refl, ◌∙◌, Bool, true, false, some, List, [], ◌∷◌, ◌==◌, contains, string_eq,
}
use azurerator.Base.Dict.{is_some}
use azurerator.Base.Exec.{ok}
use azurerator.Crd.{AzureAdApplication}
use azurerator.Graph.{Application, AppRole, PasswordCredential}
use azurerator.Permissions.Desired.{asked}
use azurerator.AppRoles.{new, remove_disabled}
use azurerator.AppRoles.Laws.{role_of}
use azurerator.OptionalClaims.{essential_claim, describe_update}
use azurerator.OptionalClaims.Laws.{Describes, describe_update-Describes}
use azurerator.ApplicationClient.Requests.{Request, group_membership_claims}
use azurerator.ApplicationClient.Registration.{Context, update_request, with_claims, described}
use azurerator.ApplicationClient.Laws.{update_request_lem, remove_disabled-update_request}
use azurerator.GroupMembershipClaims.{from_spec_or_default, normalize, first_valid}
use azurerator.PasswordCredentials.{password}
use azurerator.Registered.Laws.{ids}
use azurerator.AzureClient.CredentialSets
use azurerator.AzureClient.CredentialSets.{rotate}
use azurerator.AzureClient.Laws.{LeavesPasswords, rotate-next}
use azurerator.Reconciler.{KeyId}
use azurerator.SecretData.{Set}
use azurerator.Tests.Permissions.{
  in_order, fresh_id, rules_for, application, api, updated, generated,
}
use azurerator.Tests.Controller.{app}
use azurerator.Tests.Fields.{is_url}
use azurerator.Tests.Credentials.{
  password_at, three_passwords, passwords_differ, graph, graph-KeepsOthers,
}
use azurerator.Tests.Secrets.{a_set}

-- An application with claims of its own.
abbrev claiming : Application
claiming = record application {
  optional_claims = some (record {
    access_token = essential_claim "upn" ∷ [];
    id_token = record { name = some "sid"; essential = false } ∷ [];
    saml2_token = [];
  });
}

describe_update-Describes_example :
    Describes claiming (describe_update claiming)
    × (describe_update (record claiming { optional_claims = some (describe_update claiming) })
        ≡ describe_update claiming)
describe_update-Describes_example = describe_update-Describes claiming

-- `EqualFold` is replaced by an equality.
abbrev context : Context
context = record {
  range_order = in_order;
  uuid = fresh_id;
  is_url = is_url;
  equal_fold = λ a b. a == b;
  default_group_membership_claim = "All";
  cluster_name = "dev";
}

abbrev ruled : AzureAdApplication
ruled = record app { spec = record app.spec { pre_authorized_applications = rules_for "admin" } }

abbrev request : Request
request =
    group_membership_claims "All" (described context "dev:team:a" ruled application api updated)

normalized :
    with_claims context ruled application
      (described context "dev:team:a" ruled application api updated)
    ≡ ok request
unfolding with_claims from_spec_or_default normalize first_valid string_eq
normalized = refl

made : update_request context "dev:team:a" ruled application ≡ ok request
made =
    update_request_lem context "dev:team:a" ruled application updated api generated refl
    ∙ normalized

remove_disabled-update_request_example :
    (is_some (role_of "admin" (remove_disabled request.application))
      ≡ asked (rules_for "admin") "admin")
    × ((existing : AppRole)
        → role_of "admin" application.app_roles ≡ some existing
        → asked (rules_for "admin") "admin" ≡ true
        → role_of "admin" (remove_disabled request.application) ≡ some (new existing.id "admin"))
remove_disabled-update_request_example =
    remove_disabled-update_request context "dev:team:a" ruled application request "admin" made

-- The passwords are the state; a key is made and sent without touching them.
abbrev credentials_client : CredentialSets.Client (List PasswordCredential) Bool
credentials_client = record {
  passwords = graph;
  keys = record {
    application = graph.application;
    patch_keys = λ keys creds. (ok tt, creds);
    generate = λ creds. (ok (record { key_id = "k"; public_pem = "p" }, true), creds);
  };
}

keys_leave : LeavesPasswords credentials_client.keys (λ creds. creds)
keys_leave = record {
  application_leaves = λ s. refl;
  patch_leaves = λ sent s. refl;
  generate_leaves = λ s. refl;
}

abbrev no_used_keys : KeyId
no_used_keys = record { certificate = []; password = [] }

rotate-next_example :
    ((result : Set Bool)
      → (rotate credentials_client
          (λ t. t + 100)
          (λ i. 50)
          no_used_keys
          (some a_set)
          "object"
          three_passwords).0
        ≡ ok result
      → result.current ≡ a_set.next)
    × (contains
          (ids password
            (rotate credentials_client
              (λ t. t + 100)
              (λ i. 50)
              no_used_keys
              (some a_set)
              "object"
              three_passwords).1)
          "b"
        ≡ true)
rotate-next_example =
    rotate-next credentials_client (λ creds. creds) graph-KeepsOthers keys_leave no_used_keys a_set
      "object" (λ t. t + 100) (λ i. 50) three_passwords 1 (password_at "b" 30) passwords_differ refl
      refl
