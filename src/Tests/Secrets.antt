-- ===== src/Tests/Secrets.antt =====
-- Runs of the theorems on secrets.
use azurerator.Base.{
  ◌+◌, String, ◌≡◌, refl, Bool, true, false, some, [], ◌∷◌, ◌==◌, contains, string_eq,
  if◌then◌else◌,
}
use azurerator.Base.Exec.{ok}
use azurerator.Base.Dict.{lookup}
use azurerator.Reconciler.{ApplicationResult, operation_created}
use azurerator.SecretData.{
  Json, Set, Credentials, AzureOpenIdConfig, keys_for, new_secret_data_keys, from_entries_onto,
  entries_of, secret_data,
}
use azurerator.SecretData.Extractors.{
  Secret, SecretLists, text_at, named, get_key_ids, get_previous_credentials_set,
}
use azurerator.SecretData.Laws.{IsComplete, IsFaithful, get_previous_credentials_set-secret_data}
use azurerator.PasswordCredentials.{password, rotate}
use azurerator.Registered.Laws.{ids}
use azurerator.SecretsReconciler.Laws.{any_has, rotate-get_key_ids}
use azurerator.Tests.Credentials.{
  password_at, three_passwords, passwords_differ, graph, graph-KeepsOthers,
}

-- Two pairs of keys, each with its own text.
unfoldable text_of : Bool → String
text_of true = "t"
text_of false = "f"

abbrev bool_json : Json Bool
bool_json = record {
  marshal_jwk = λ b. ok (text_of b);
  marshal_jwks = λ b. ok (text_of b);
  marshal_apps = λ apps. ok "[]";
  unmarshal_jwk = λ s. if s == "t" then ok true else ok false;
}

unmarshal-marshal :
    (b : Bool) (t : String) → bool_json.marshal_jwk b ≡ ok t → bool_json.unmarshal_jwk t ≡ ok b
unfolding text_of string_eq
unmarshal-marshal true t e = let f : t ≡ "t" = cc e in rw (f)
unmarshal-marshal false t e = let f : t ≡ "f" = cc e in rw (f)

marshal_not_empty : (b : Bool) (t : String) → bool_json.marshal_jwk b ≡ ok t → (t == "") ≡ false
unfolding text_of string_eq
marshal_not_empty true t e = let f : t ≡ "t" = cc e in rw (f)
marshal_not_empty false t e = let f : t ≡ "f" = cc e in rw (f)

bool_json-IsFaithful : IsFaithful bool_json
bool_json-IsFaithful = record {
  unmarshal-marshal = unmarshal-marshal;
  marshal_not_empty = marshal_not_empty;
}

abbrev pub credentials_of : String → Bool → Credentials Bool
credentials_of id jwk = record {
  certificate = record { key_id = id; jwk = jwk };
  password = record { key_id = id; client_secret = "secret" };
}

abbrev pub a_set : Set Bool
a_set = record { current = credentials_of "a" true; next = credentials_of "b" false }

a_set-IsComplete : IsComplete a_set
unfolding string_eq
a_set-IsComplete = record {
  certificate = refl;
  client_secret = refl;
  password = refl;
  next_certificate = refl;
  next_client_secret = refl;
  next_password = refl;
}

abbrev a_result : ApplicationResult
a_result = record {
  client_id = "client";
  object_id = "object";
  service_principal_id = "principal";
  pre_authorized_apps = record { valid = []; invalid = [] };
  tenant = "tenant";
  result = operation_created;
}

abbrev a_config : AzureOpenIdConfig
a_config = record { well_known_endpoint = "w"; issuer = "i"; jwks_uri = "j"; token_endpoint = "t" }

abbrev a_secret : Secret
a_secret = record {
  name = "latest";
  content = from_entries_onto [] (
      entries_of a_result a_set a_config (new_secret_data_keys (λ s. s) ("X_" ∷ [])) "t" "f" "t"
        "[]");
}

abbrev a_list : SecretLists
a_list = record { used = a_secret ∷ []; unused = [] }

made :
    secret_data bool_json a_result a_set a_config (new_secret_data_keys (λ s. s) ("X_" ∷ []))
    ≡ ok a_secret.content
unfolding secret_data text_of
made = refl

latest_not_empty : (a_secret.name == "") ≡ false
unfolding string_eq
latest_not_empty = refl

found : named "latest" a_list.used ≡ some a_secret
unfolding named string_eq
found = refl

get_previous_credentials_set-secret_data_example :
    get_previous_credentials_set bool_json
      (new_secret_data_keys (λ s. s) ("X_" ∷ []))
      a_list
      "latest"
    ≡ ok (some a_set)
get_previous_credentials_set-secret_data_example =
    get_previous_credentials_set-secret_data bool_json bool_json-IsFaithful (λ s. s) ("X_" ∷ [])
      a_result a_set a_config a_secret.content a_secret a_list "latest" a_set-IsComplete made
      (λ k v e. e) latest_not_empty found

abbrev a_key : String
a_key = (keys_for "AZURE").current_credentials.password_key_id

-- A secret in use that names the password of this key.
abbrev names_password : String → Secret
names_password id = record { name = "s"; content = (a_key, id) ∷ [] }

abbrev used_list : SecretLists
used_list = record { used = names_password "a" ∷ []; unused = [] }

a_not_empty : ((password_at "a" 10).key_id == "") ≡ false
unfolding string_eq
a_not_empty = refl

names_a : any_has a_key used_list.used "a" ≡ true
unfolding keys_for text_at lookup string_eq
names_a = refl

rotate-get_key_ids_example :
    contains
      (ids password
        (rotate graph
          (record {
            used = (get_key_ids (keys_for "AZURE") used_list).used.password;
            current = "c";
            next = "b";
          })
          (λ t. t + 100)
          50
          "object"
          three_passwords).1)
      "a"
    ≡ true
rotate-get_key_ids_example =
    rotate-get_key_ids graph (λ creds. creds) graph-KeepsOthers (keys_for "AZURE") used_list "c" "b"
      three_passwords 0 (password_at "a" 10) (λ t. t + 100) 50 "object" passwords_differ refl
      a_not_empty names_a
