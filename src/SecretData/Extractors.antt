-- ===== src/SecretData/Extractors.antt =====
-- pkg/secrets/extractors.go: the credentials and key IDs that are read back from secrets.
use azurerator.Base.{
  String, Option, none, some, List, [], ◌∷◌, ◌++◌, ◌==◌, string_eq, if◌then◌else◌,
}
use azurerator.Base.Dict.{Dict, lookup}
use azurerator.Base.Exec.{Result, ok, err}
use azurerator.Registered.{remove_duplicates}
use azurerator.Reconciler.{KeyId}
use azurerator.SecretData.{SecretDataKeys, CredentialKeys, Credentials, Set, Json}

-- A secret of Kubernetes, with its data as text.
pub record Secret : Type 0 where
  pub name : String
  pub content : Dict String String

-- `SecretLists` of `liberator`.
pub record SecretLists : Type 0 where
  pub used : List Secret
  pub unused : List Secret

pub record KeyIds : Type 0 where
  pub used : KeyId
  pub unused : KeyId

-- `string(sec.Data[key])`, which is empty where there is no such key.
unfoldable pub text_at : String → Secret → String
text_at key secret = elim (lookup key secret.content) [ none ↦ "" | some v ↦ v ]

unfoldable pub append_if_non_empty : List String → String → List String
append_if_non_empty s i = if i == "" then s else s ++ i ∷ []

-- The loop over the secrets, for one of the two keys.
unfoldable pub ids_at : String → List Secret → List String → List String
unfolding text_at append_if_non_empty
ids_at key [] found = found
ids_at key (secret ∷ secrets) found =
    ids_at key secrets (append_if_non_empty found (text_at key secret))

unfoldable pub get_key_ids : SecretDataKeys → SecretLists → KeyIds
unfolding ids_at
get_key_ids keys lists =
    let certificate = keys.current_credentials.certificate_key_id in
    let password = keys.current_credentials.password_key_id in
    record {
      used = record {
        certificate = remove_duplicates (ids_at certificate lists.used []);
        password = remove_duplicates (ids_at password lists.used []);
      };
      unused = record {
        certificate = remove_duplicates (ids_at certificate lists.unused []);
        password = remove_duplicates (ids_at password lists.unused []);
      };
    }

-- The text under a key, if it is valid.
unfoldable pub valid_text : String → Secret → Option String
valid_text key secret = elim (lookup key secret.content) [
  | none ↦ none
  | some v ↦ if v == "" then none else some v
]

unfoldable pub named : String → List Secret → Option Secret
named name [] = none
named name (secret ∷ secrets) = if secret.name == name then some secret else named name secrets

-- `none` is where the code returns no credentials and no error.
module _ {Jwk : Type 0} (json : Json Jwk) where
  unfoldable pub extract_credentials : Secret → CredentialKeys → Result (Option (Credentials Jwk))
  unfolding valid_text
  extract_credentials secret keys = elim (valid_text keys.client_secret secret) [
    | none ↦ ok none
    | some client_secret ↦ elim (valid_text keys.password_key_id secret) [
      | none ↦ ok none
      | some password_id ↦ elim (valid_text keys.jwk secret) [
        | none ↦ ok none
        | some jwk_secret ↦ elim (valid_text keys.certificate_key_id secret) [
          | none ↦ ok none
          | some certificate_id ↦ elim (json.unmarshal_jwk jwk_secret) [
            | err e ↦ err e
            | ok jwk ↦ ok (
                some (record {
                  certificate = record { key_id = certificate_id; jwk = jwk };
                  password = record { key_id = password_id; client_secret = client_secret };
                }))
          ]
        ]
      ]
    ]
  ]

  unfoldable pub extract_credentials_set_from_secret :
      SecretDataKeys → Secret → Result (Option (Set Jwk))
  unfolding extract_credentials
  extract_credentials_set_from_secret keys secret =
      elim (extract_credentials secret keys.current_credentials) [
        | err e ↦ err e
        | ok none ↦ ok none
        | ok (some current) ↦ elim (extract_credentials secret keys.next_credentials) [
          | err e ↦ err e
          | ok none ↦ ok none
          | ok (some next) ↦ ok (some (record { current = current; next = next }))
        ]
      ]

  unfoldable pub get_previous_credentials_set :
      SecretDataKeys → SecretLists → String → Result (Option (Set Jwk))
  unfolding named extract_credentials_set_from_secret
  get_previous_credentials_set keys lists secret_name =
      if secret_name == "" then ok none else elim (named secret_name (lists.unused ++ lists.used)) [
        | none ↦ ok none
        | some secret ↦ extract_credentials_set_from_secret keys secret
      ]
