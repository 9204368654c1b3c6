-- ===== src/IdentifierUris.antt =====
-- pkg/azure/client/application/identifieruri/identifieruri.go: the identifier URIs of an application.
pub mod Laws
use azurerator.Base.{String, ◌<>◌, List, [], ◌∷◌, ◌++◌, contains, string_eq, if◌then◌else◌}
use azurerator.Crd.{AzureAdApplication}

unfoldable pub uri_client_id : String → String
uri_client_id id = "api://" <> id

unfoldable pub uri_human_readable : AzureAdApplication → String → String
uri_human_readable app cluster =
    "api://" <> (cluster <> ("." <> (app.namespace <> ("." <> app.name))))

unfoldable pub default_uris : AzureAdApplication → String → List String
unfolding uri_client_id uri_human_readable
default_uris app cluster = uri_client_id app.status.client_id ∷ uri_human_readable app cluster ∷ []

unfoldable pub describe_create : AzureAdApplication → String → List String
unfolding default_uris
describe_create app cluster = default_uris app cluster

-- The loop of `DescribeUpdate`, which looks for each URI among the existing ones.
unfoldable pub add_unseen : List String → List String → List String → List String
add_unseen existing [] result = result
add_unseen existing (uri ∷ uris) result =
    add_unseen existing uris (if contains existing uri then result else result ++ uri ∷ [])

unfoldable pub describe_update : AzureAdApplication → List String → String → List String
unfolding add_unseen default_uris
describe_update app existing cluster = add_unseen existing (default_uris app cluster) existing
