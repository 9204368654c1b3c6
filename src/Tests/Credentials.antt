-- ===== src/Tests/Credentials.antt =====
-- Runs of the theorems on registered credentials, and on the resources of roles.
use azurerator.Base.{
  ℕ, ◌+◌, ◌≢◌, String, ◌≡◌, refl, true, false, not, none, some, List, [], ◌∷◌, ◌&&◌, ◌||◌, ◌==◌,
  contains, string_eq, if◌then◌else◌, arith, ◌↔◌,
}
use azurerator.Base.Text.{nat_eq}
use azurerator.Base.Exec.{ok}
use azurerator.Graph.{PasswordCredential, KeyCredential, Application}
use azurerator.Permissions.{Permission, default_app_role_value, default_group_role_id}
use azurerator.Permissions
use azurerator.Registered.{newest_index, has_managed_key, validate_from}
use azurerator.Registered.Laws.{ids, NodupKeys, IsNewest, newest_index-IsNewest}
use azurerator.Registered.Selection.{Live, validate_from_lem}
use azurerator.PasswordCredentials.{
  Client, UsedKeys, password, revocation_candidates, delete_unused, rotate,
}
use azurerator.PasswordCredentials.Laws.{
  in_use, KeepsOthers, revocation_candidates_lem, delete_unused_keeps, rotate_keeps,
}
use azurerator.KeyCredentials.{key, filter_revoked_keys}
use azurerator.KeyCredentials.Laws.{filter_revoked_keys_lem}
use azurerator.Resources.{Resource, group_type, service_principal_type, extract_desired_assignees}
use azurerator.Resources.Laws.{asks_for, those, extract_desired_assignees_lem}

abbrev pub password_at : String → ℕ → PasswordCredential
password_at key_id start = record {
  key_id = key_id;
  display_name = some "azurerator-2024";
  start_date_time = start;
  end_date_time = 1000;
  secret_text = "secret";
}

abbrev pub three_passwords : List PasswordCredential
three_passwords = password_at "a" 10 ∷ password_at "b" 30 ∷ password_at "c" 20 ∷ []

abbrev used_keys : UsedKeys
used_keys = record { used = "a" ∷ []; current = "a"; next = "a" }

pub passwords_differ : NodupKeys (ids password three_passwords)
unfolding string_eq
passwords_differ = (refl, (refl, (refl, tt)))

newest_index-IsNewest_example :
    IsNewest password (newest_index password three_passwords) three_passwords
newest_index-IsNewest_example =
    newest_index-IsNewest password (password_at "a" 10)
      (password_at "b" 30 ∷ password_at "c" 20 ∷ [])

revocation_candidates_example :
    contains (ids password (revocation_candidates used_keys three_passwords)) "c" ≡ (
      has_managed_key password three_passwords
      && not (in_use used_keys "c" || 2 == newest_index password three_passwords))
revocation_candidates_example =
    revocation_candidates_lem used_keys three_passwords 2 (password_at "c" 20) passwords_differ refl

abbrev key_at : String → ℕ → KeyCredential
key_at key_id start = record {
  key_id = key_id;
  display_name = some "azurerator-2024";
  start_date_time = start;
  end_date_time = 1000;
}

abbrev two_keys : List KeyCredential
two_keys = key_at "a" 10 ∷ key_at "b" 30 ∷ []

keys_differ : NodupKeys (ids key two_keys)
unfolding string_eq
keys_differ = (refl, (refl, tt))

filter_revoked_keys_example :
    contains (ids key (filter_revoked_keys used_keys two_keys)) "b"
    ≡ (not (has_managed_key key two_keys) || in_use used_keys "b" || 1 == newest_index key two_keys)
filter_revoked_keys_example =
    filter_revoked_keys_lem used_keys two_keys 1 (key_at "b" 30) keys_differ refl

validate_from_example :
    (validate_from password (λ _. 100) "a" "b" 0 false false three_passwords ≡ true) ↔ (
      Live password (λ _. 100) 0 three_passwords "a"
      × Live password (λ _. 100) 0 three_passwords "b")
validate_from_example = validate_from_lem password (λ _. 100) "a" "b" three_passwords

-- The passwords are the state; every request succeeds, and reading is of an application with them.
abbrev with_passwords : List PasswordCredential → Application
with_passwords creds = record {
  id = "object";
  app_id = "client";
  display_name = "dev:team:a";
  api = none;
  app_roles = [];
  group_membership_claims = none;
  identifier_uris = [];
  key_credentials = [];
  optional_claims = none;
  password_credentials = creds;
  tags = [];
}

pub without_key : String → List PasswordCredential → List PasswordCredential
without_key k [] = []
without_key k (c ∷ cs) = let rest = without_key k cs in if c.key_id == k then rest else c ∷ rest

abbrev pub graph : Client (List PasswordCredential)
graph = record {
  application = λ creds. (ok (with_passwords creds), creds);
  add_password =
      λ id start end creds. (ok (password_at "new" start), password_at "new" start ∷ creds);
  remove_password = λ id k creds. (ok tt, without_key k creds);
}

without_key_keeps :
    (key_id : String) (creds : List PasswordCredential) (k : String)
    → k ≢ key_id
    → contains (ids password creds) k ≡ true
    → contains (ids password (without_key key_id creds)) k ≡ true
unfolding without_key
without_key_keeps key_id [] k apart h = h
without_key_keeps key_id (c ∷ creds) k apart h =
    ground (arith, without_key_keeps key_id creds k apart)

pub graph-KeepsOthers : KeepsOthers graph (λ creds. creds)
graph-KeepsOthers = record {
  application_reads = λ s e. cc e;
  application_keeps = λ s. refl;
  add_keeps = λ id start end s k h. ground arith;
  remove_keeps = λ id key_id s k apart h. without_key_keeps key_id s k apart h;
}

a_in_use : (in_use used_keys "a" || 0 == newest_index password three_passwords) ≡ true
unfolding string_eq newest_index nat_eq
a_in_use = refl

delete_unused_keeps_example :
    contains (ids password (delete_unused graph used_keys three_passwords).1) "a" ≡ true
delete_unused_keeps_example =
    delete_unused_keeps graph (λ creds. creds) graph-KeepsOthers used_keys three_passwords 0
      (password_at "a" 10) passwords_differ refl a_in_use

rotate_keeps_example :
    contains
      (ids password (rotate graph used_keys (λ t. t + 100) 50 "object" three_passwords).1)
      "a"
    ≡ true
rotate_keeps_example =
    rotate_keeps graph (λ creds. creds) graph-KeepsOthers used_keys three_passwords 0
      (password_at "a" 10) passwords_differ refl a_in_use (λ t. t + 100) 50 "object"

abbrev pub resource : String → String → Resource
resource object_id kind = record {
  name = "r";
  client_id = "c";
  object_id = object_id;
  principal_type = kind;
  inbound_rule = record {
    rule = record { application = "b"; namespace = "team"; cluster = "dev" };
    permissions = some (record { roles = "admin" ∷ []; scopes = [] });
  };
}

extract_desired_assignees_example :
    extract_desired_assignees
      (resource "1" group_type ∷ [])
      group_type
      (Permissions.new "5" "admin" true)
    ≡ (if (group_type == group_type && "5" == default_group_role_id)
          || (group_type == service_principal_type && "admin" == default_app_role_value)
        then resource "1" group_type ∷ []
        else those (asks_for "admin") (resource "1" group_type ∷ []))
extract_desired_assignees_example =
    extract_desired_assignees_lem (resource "1" group_type ∷ []) group_type
      (Permissions.new "5" "admin" true)
