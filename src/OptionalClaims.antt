-- ===== src/OptionalClaims.antt =====
-- pkg/azure/client/application/optionalclaims/optionalclaims.go: the optional claims of an
-- application's tokens. A claim may have no name, and is then never overridden.
pub mod Laws
use azurerator.Base.{
  String, Bool, true, false, Option, none, some, List, [], ◌∷◌, ◌++◌, ◌==◌, string_eq,
  if◌then◌else◌,
}
use azurerator.Graph.{OptionalClaim, OptionalClaims, Application}

abbrev pub essential_claim : String → OptionalClaim
essential_claim name = record { name = some name; essential = true }

abbrev pub default_claims : OptionalClaims
default_claims = record {
  access_token = essential_claim "idtyp" ∷ [];
  id_token = essential_claim "sid" ∷ [];
  saml2_token = [];
}

-- The claims have names, and these are equal.
unfoldable pub same_name : OptionalClaim → OptionalClaim → Bool
same_name claim override_claim = elim claim.name [
  | none ↦ false
  | some a ↦ elim override_claim.name [ none ↦ false | some b ↦ a == b ]
]

-- The inner loop of `merge`: what it makes of the claims, and whether it has `seen` one.
unfoldable pub replaced : OptionalClaim → List OptionalClaim → List OptionalClaim
unfolding same_name
replaced override_claim [] = []
replaced override_claim (claim ∷ existing) =
    (if same_name claim override_claim then override_claim else claim)
    ∷ replaced override_claim existing

unfoldable pub seen : OptionalClaim → List OptionalClaim → Bool
unfolding same_name
seen override_claim [] = false
seen override_claim (claim ∷ existing) =
    if same_name claim override_claim then true else seen override_claim existing

unfoldable pub merge_one : List OptionalClaim → OptionalClaim → List OptionalClaim
unfolding replaced seen
merge_one existing override_claim =
    let result = replaced override_claim existing in
    if seen override_claim existing then result else result ++ override_claim ∷ []

unfoldable pub merge : List OptionalClaim → List OptionalClaim → List OptionalClaim
unfolding merge_one
merge existing [] = existing
merge existing (override_claim ∷ claims) = merge (merge_one existing override_claim) claims

-- The code skips the merge of an empty list, which changes nothing.
unfoldable pub merge_claims : OptionalClaims → OptionalClaims → OptionalClaims
unfolding merge
merge_claims existing override_claims = record {
  access_token = merge existing.access_token override_claims.access_token;
  id_token = merge existing.id_token override_claims.id_token;
  saml2_token = merge existing.saml2_token override_claims.saml2_token;
}

unfoldable pub describe_create : OptionalClaims
describe_create = default_claims

unfoldable pub describe_update : Application → OptionalClaims
unfolding merge_claims
describe_update existing = elim existing.optional_claims [
  | none ↦ default_claims
  | some existing_claims ↦ merge_claims existing_claims default_claims
]
