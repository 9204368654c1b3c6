-- ===== src/SecretData.antt =====
-- pkg/secrets/secrets.go: the data of a secret, and the keys it stands under. `Json` has what the
-- packages `encoding/json` and `jose` do, for pairs of the type `Jwk`; `to_upper` is the function
-- `ToUpper` of the package `strings`.
pub mod Extractors
pub mod Laws
use azurerator.Base.{
  String, ◌<>◌, Bool, true, Option, none, some, List, [], ◌∷◌, ◌==◌, string_eq, if◌then◌else◌,
}
use azurerator.Base.Dict.{Dict, insert}
use azurerator.Base.Exec.{Result, Failure, ok, err}
use azurerator.Base.Text.{trim_underscore}
use azurerator.Resources.{Resource}
use azurerator.Reconciler.{ApplicationResult}

abbrev pub default_key_prefix : String
default_key_prefix = "AZURE"

abbrev pub certificate_id_suffix : String
certificate_id_suffix = "_APP_CERTIFICATE_KEY_ID"

abbrev pub client_secret_suffix : String
client_secret_suffix = "_APP_CLIENT_SECRET"

abbrev pub jwk_suffix : String
jwk_suffix = "_APP_JWK"

abbrev pub jwks_suffix : String
jwks_suffix = "_APP_JWKS"

abbrev pub password_id_suffix : String
password_id_suffix = "_APP_PASSWORD_KEY_ID"

abbrev pub client_id_suffix : String
client_id_suffix = "_APP_CLIENT_ID"

abbrev pub pre_auth_apps_suffix : String
pre_auth_apps_suffix = "_APP_PRE_AUTHORIZED_APPS"

abbrev pub tenant_id_suffix : String
tenant_id_suffix = "_APP_TENANT_ID"

abbrev pub well_known_url_suffix : String
well_known_url_suffix = "_APP_WELL_KNOWN_URL"

abbrev pub next_certificate_id_suffix : String
next_certificate_id_suffix = "_APP_NEXT_CERTIFICATE_KEY_ID"

abbrev pub next_client_secret_suffix : String
next_client_secret_suffix = "_APP_NEXT_CLIENT_SECRET"

abbrev pub next_jwk_suffix : String
next_jwk_suffix = "_APP_NEXT_JWK"

abbrev pub next_password_id_suffix : String
next_password_id_suffix = "_APP_NEXT_PASSWORD_KEY_ID"

abbrev pub openid_config_issuer_key : String
openid_config_issuer_key = "_OPENID_CONFIG_ISSUER"

abbrev pub openid_config_jwks_uri_key : String
openid_config_jwks_uri_key = "_OPENID_CONFIG_JWKS_URI"

abbrev pub openid_config_token_endpoint_key : String
openid_config_token_endpoint_key = "_OPENID_CONFIG_TOKEN_ENDPOINT"

-- The keys of the next credentials have no set of keys: `jwks` is empty for them.
pub record CredentialKeys : Type 0 where
  pub certificate_key_id : String
  pub client_secret : String
  pub password_key_id : String
  pub jwks : String
  pub jwk : String

pub record OpenIdConfigKeys : Type 0 where
  pub issuer : String
  pub jwks_uri : String
  pub token_endpoint : String

pub record SecretDataKeys : Type 0 where
  pub client_id : String
  pub current_credentials : CredentialKeys
  pub next_credentials : CredentialKeys
  pub pre_auth_apps : String
  pub tenant_id : String
  pub well_known_url : String
  pub open_id : OpenIdConfigKeys

unfoldable pub secret_prefix : (String → String) → String → String
secret_prefix to_upper prefix =
    if prefix == "" then default_key_prefix else to_upper (trim_underscore prefix)

-- The prefix that `NewSecretDataKeys` takes from its arguments.
unfoldable pub chosen_prefix : (String → String) → List String → String
unfolding secret_prefix
chosen_prefix to_upper [] = default_key_prefix
chosen_prefix to_upper (prefix ∷ _) = secret_prefix to_upper prefix

-- The keys for a prefix.
unfoldable pub keys_for : String → SecretDataKeys
keys_for prefix = record {
  client_id = prefix <> client_id_suffix;
  current_credentials = record {
    certificate_key_id = prefix <> certificate_id_suffix;
    client_secret = prefix <> client_secret_suffix;
    password_key_id = prefix <> password_id_suffix;
    jwks = prefix <> jwks_suffix;
    jwk = prefix <> jwk_suffix;
  };
  next_credentials = record {
    certificate_key_id = prefix <> next_certificate_id_suffix;
    client_secret = prefix <> next_client_secret_suffix;
    password_key_id = prefix <> next_password_id_suffix;
    jwks = "";
    jwk = prefix <> next_jwk_suffix;
  };
  pre_auth_apps = prefix <> pre_auth_apps_suffix;
  tenant_id = prefix <> tenant_id_suffix;
  well_known_url = prefix <> well_known_url_suffix;
  open_id = record {
    issuer = prefix <> openid_config_issuer_key;
    jwks_uri = prefix <> openid_config_jwks_uri_key;
    token_endpoint = prefix <> openid_config_token_endpoint_key;
  };
}

unfoldable pub new_secret_data_keys : (String → String) → List String → SecretDataKeys
unfolding chosen_prefix keys_for
new_secret_data_keys to_upper key_prefix = keys_for (chosen_prefix to_upper key_prefix)

unfoldable pub all_keys : SecretDataKeys → List String
all_keys s =
    s.client_id ∷ s.current_credentials.certificate_key_id ∷ s.current_credentials.client_secret
    ∷ s.current_credentials.password_key_id ∷ s.current_credentials.jwks ∷ s.current_credentials.jwk
    ∷ s.next_credentials.certificate_key_id ∷ s.next_credentials.client_secret
    ∷ s.next_credentials.password_key_id ∷ s.next_credentials.jwk ∷ s.pre_auth_apps ∷ s.tenant_id
    ∷ s.well_known_url ∷ s.open_id.issuer ∷ s.open_id.jwks_uri ∷ s.open_id.token_endpoint ∷ []

pub record Certificate (Jwk : Type 0) : Type 0 where
  pub key_id : String
  pub jwk : Jwk

pub record Password : Type 0 where
  pub key_id : String
  pub client_secret : String

pub record Credentials (Jwk : Type 0) : Type 0 where
  pub certificate : Certificate Jwk
  pub password : Password

pub record Set (Jwk : Type 0) : Type 0 where
  pub current : Credentials Jwk
  pub next : Credentials Jwk

pub record AzureOpenIdConfig : Type 0 where
  pub well_known_endpoint : String
  pub issuer : String
  pub jwks_uri : String
  pub token_endpoint : String

pub record Json (Jwk : Type 0) : Type 0 where
  -- `json.Marshal` of the private key, and of the set that `ToPrivateJwks` makes of it
  pub marshal_jwk : Jwk → Result String
  pub marshal_jwks : Jwk → Result String
  -- `json.Marshal` of the pre-authorized applications
  pub marshal_apps : List Resource → Result String
  -- `UnmarshalJSON`, and the pair that `FromJwk` makes of the key
  pub unmarshal_jwk : String → Result Jwk

-- The entries of a map literal, in the order in which they are put in.
unfoldable pub from_entries_onto : Dict String String → List (String × String) → Dict String String
from_entries_onto d [] = d
from_entries_onto d ((k, v) ∷ entries) = from_entries_onto (insert k v d) entries

abbrev pub and_then : {A B : Type 0} → Result A → (A → Result B) → Result B
and_then (ok a) f = f a
and_then (err e) f = err e

module _ {Jwk : Type 0} where
  unfoldable pub entries_of :
      ApplicationResult
      → Set Jwk
      → AzureOpenIdConfig
      → SecretDataKeys
      → String
      → String
      → String
      → String
      → List (String × String)
  entries_of app set config keys jwk next_jwk jwks apps =
      (keys.client_id, app.client_id)
      ∷ (keys.current_credentials.certificate_key_id, set.current.certificate.key_id)
      ∷ (keys.current_credentials.client_secret, set.current.password.client_secret)
      ∷ (keys.current_credentials.jwks, jwks)
      ∷ (keys.current_credentials.jwk, jwk)
      ∷ (keys.current_credentials.password_key_id, set.current.password.key_id)
      ∷ (keys.next_credentials.client_secret, set.next.password.client_secret)
      ∷ (keys.next_credentials.certificate_key_id, set.next.certificate.key_id)
      ∷ (keys.next_credentials.jwk, next_jwk)
      ∷ (keys.next_credentials.password_key_id, set.next.password.key_id)
      ∷ (keys.pre_auth_apps, apps)
      ∷ (keys.tenant_id, app.tenant)
      ∷ (keys.well_known_url, config.well_known_endpoint)
      ∷ (keys.open_id.issuer, config.issuer)
      ∷ (keys.open_id.jwks_uri, config.jwks_uri)
      ∷ (keys.open_id.token_endpoint, config.token_endpoint)
      ∷ []

  unfoldable pub secret_data :
      Json Jwk
      → ApplicationResult
      → Set Jwk
      → AzureOpenIdConfig
      → SecretDataKeys
      → Result (Dict String String)
  unfolding entries_of from_entries_onto
  secret_data json app set config keys =
      and_then (json.marshal_jwk set.current.certificate.jwk) λ jwk.
        and_then (json.marshal_jwk set.next.certificate.jwk) λ next_jwk.
          and_then (json.marshal_jwks set.current.certificate.jwk) λ jwks.
            and_then (json.marshal_apps app.pre_authorized_apps.valid) λ apps.
              ok (from_entries_onto [] (entries_of app set config keys jwk next_jwk jwks apps))
