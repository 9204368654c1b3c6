-- ===== src/SecretData/Laws.antt =====
-- What is written to a secret is what is read back.
use azurerator.Base.{
  String, ◌<>◌, ◌≡◌, refl, ◌∙◌, false, some, List, [], ◌∷◌, ◌++◌, ◌==◌, string_eq, arith, inl, inr,
}
use mathlib.Core.Path.{subst⁻¹}
use text.Mathlib.TextLemmas.{append_cancel_left}
use azurerator.Base.Dict.{Dict, lookup, insert, lookup-insert, lookup-nil}
use azurerator.Base.Exec.{ok_inj, ok, err, Result-cases}
use azurerator.Reconciler.{ApplicationResult}
use azurerator.SecretData.{
  SecretDataKeys, CredentialKeys, Credentials, Set, AzureOpenIdConfig, Json, keys_for,
  new_secret_data_keys, chosen_prefix, client_secret_suffix, password_id_suffix, jwk_suffix,
  certificate_id_suffix, next_client_secret_suffix, next_password_id_suffix, next_jwk_suffix,
  next_certificate_id_suffix, from_entries_onto, entries_of, secret_data,
}
use azurerator.SecretData.Extractors.{
  Secret, SecretLists, valid_text, named, extract_credentials, extract_credentials_set_from_secret,
  get_previous_credentials_set,
}

-- The entries, each under its key with the prefix.
abbrev with_prefix : String → List (String × String) → List (String × String)
with_prefix p [] = []
with_prefix p ((k, v) ∷ entries) = (p <> k, v) ∷ with_prefix p entries

eq-prefix : (p a b : String) → (p <> a == p <> b) ≡ (a == b)
eq-prefix p a b = ground (arith, append_cancel_left p a b)

lookup-from_entries_onto :
    (p k : String) (c d : Dict String String) (entries : List (String × String))
    → ((j : String) → lookup (p <> j) c ≡ lookup j d)
    → lookup (p <> k) (from_entries_onto c (with_prefix p entries))
      ≡ lookup k (from_entries_onto d entries)
unfolding from_entries_onto
lookup-from_entries_onto p k c d [] h = h k
lookup-from_entries_onto p k c d ((i, v) ∷ entries) h =
    lookup-from_entries_onto p k (insert (p <> i) v c) (insert i v d) entries
      λ j. rw (lookup-insert, lookup-insert, eq-prefix, h)

-- What is read back from a secret: all the texts are there.
pub record IsComplete {Jwk : Type 0} (set : Set Jwk) : Type 0 where
  pub certificate : (set.current.certificate.key_id == "") ≡ false
  pub client_secret : (set.current.password.client_secret == "") ≡ false
  pub password : (set.current.password.key_id == "") ≡ false
  pub next_certificate : (set.next.certificate.key_id == "") ≡ false
  pub next_client_secret : (set.next.password.client_secret == "") ≡ false
  pub next_password : (set.next.password.key_id == "") ≡ false

-- A key that is marshalled is read back as it was, from a text that is not empty.
pub record IsFaithful {Jwk : Type 0} (json : Json Jwk) : Type 0 where
  pub unmarshal-marshal :
      (jwk : Jwk) (t : String) → json.marshal_jwk jwk ≡ ok t → json.unmarshal_jwk t ≡ ok jwk
  pub marshal_not_empty : (jwk : Jwk) (t : String) → json.marshal_jwk jwk ≡ ok t → (t == "") ≡ false

-- The secret has these entries, and maybe others.
abbrev pub Holds : Secret → Dict String String → Type 0
Holds secret d = (k v : String) → lookup k d ≡ some v → lookup k secret.content ≡ some v

valid_text-of_lookup :
    (key v : String) (secret : Secret)
    → lookup key secret.content ≡ some v
    → (v == "") ≡ false
    → valid_text key secret ≡ some v
unfolding valid_text
valid_text-of_lookup key v secret h e = rw (h, e, valid_text)

module _ {Jwk : Type 0} (json : Json Jwk) (faithful : IsFaithful json) where
  read_back :
      (secret : Secret) (keys : CredentialKeys) (c : Credentials Jwk) (t : String)
      → json.marshal_jwk c.certificate.jwk ≡ ok t
      → valid_text keys.client_secret secret ≡ some c.password.client_secret
      → valid_text keys.password_key_id secret ≡ some c.password.key_id
      → valid_text keys.jwk secret ≡ some t
      → valid_text keys.certificate_key_id secret ≡ some c.certificate.key_id
      → extract_credentials json secret keys ≡ ok (some c)
  unfolding extract_credentials
  read_back secret keys c t m a b d e =
      rw (a, b, d, e, faithful.unmarshal-marshal c.certificate.jwk t m, extract_credentials)

  -- What was marshalled, and the data made of it.
  abbrev Parts :
      ApplicationResult → Set Jwk → AzureOpenIdConfig → SecretDataKeys → Dict String String → Type 0
  Parts app set config keys sd =
      (jwk : String) × (next_jwk : String) × (jwks : String) × (apps : String) × (json.marshal_jwk
          set.current.certificate.jwk
        ≡ ok jwk)
      × (json.marshal_jwk set.next.certificate.jwk ≡ ok next_jwk)
      × (from_entries_onto [] (entries_of app set config keys jwk next_jwk jwks apps) ≡ sd)

  marshalled :
      (app : ApplicationResult) (set : Set Jwk) (config : AzureOpenIdConfig) (keys : SecretDataKeys)
      (sd : Dict String String)
      → secret_data json app set config keys ≡ ok sd
      → Parts app set config keys sd
  unfolding secret_data
  marshalled app set config keys sd h =
      elim (Result-cases (json.marshal_jwk set.current.certificate.jwk)) [
        | inr (x, e) ↦ let f : err x ≡ ok sd = rw (e, secret_data) at h in cc f
        | inl (jwk, e) ↦ elim (Result-cases (json.marshal_jwk set.next.certificate.jwk)) [
          | inr (x, f) ↦ let g : err x ≡ ok sd = rw (e, f, secret_data) at h in cc g
          | inl (next_jwk, f) ↦
              elim (Result-cases (json.marshal_jwks set.current.certificate.jwk)) [
                | inr (x, g) ↦ let i : err x ≡ ok sd = rw (e, f, g, secret_data) at h in cc i
                | inl (jwks, g) ↦
                    elim (Result-cases (json.marshal_apps app.pre_authorized_apps.valid)) [
                      | inr (x, i) ↦
                          let j : err x ≡ ok sd = rw (e, f, g, i, secret_data) at h in cc j
                      | inl (apps, i) ↦ (
                        jwk,
                        next_jwk,
                        jwks,
                        apps,
                        e,
                        f,
                        ok_inj _ sd (rw (e, f, g, i, secret_data) at h),
                      )
                    ]
              ]
        ]
      ]

module _ {Jwk : Type 0} (p : String) (app : ApplicationResult) (set : Set Jwk)
    (config : AzureOpenIdConfig) (jwk next_jwk jwks apps : String) (secret : Secret)
    (holds : Holds secret
      (from_entries_onto [] (entries_of app set config (keys_for p) jwk next_jwk jwks apps))) where
  -- The entries under the suffixes alone.
  abbrev table : List (String × String)
  table = entries_of app set config (keys_for "") jwk next_jwk jwks apps

  lookup-table :
      (suffix v : String)
      → lookup suffix (from_entries_onto [] table) ≡ some v
      → lookup (p <> suffix) secret.content ≡ some v
  unfolding entries_of keys_for
  lookup-table suffix v h =
      holds (p <> suffix) v
        (lookup-from_entries_onto p suffix [] [] table (λ j. rw (lookup-nil, lookup-nil)) ∙ h)

  text-table :
      (suffix v : String)
      → lookup suffix (from_entries_onto [] table) ≡ some v
      → (v == "") ≡ false
      → valid_text (p <> suffix) secret ≡ some v
  text-table suffix v h e = valid_text-of_lookup (p <> suffix) v secret (lookup-table suffix v h) e

  module _ (json : Json Jwk) (faithful : IsFaithful json) (c : IsComplete set) where
    current_back :
        json.marshal_jwk set.current.certificate.jwk ≡ ok jwk
        → extract_credentials json secret (keys_for p).current_credentials ≡ ok (some set.current)
    unfolding keys_for entries_of from_entries_onto lookup insert string_eq
    current_back m =
        read_back json faithful secret (keys_for p).current_credentials set.current jwk m
          (text-table client_secret_suffix set.current.password.client_secret refl c.client_secret)
          (text-table password_id_suffix set.current.password.key_id refl c.password)
          (text-table jwk_suffix jwk refl
            (faithful.marshal_not_empty set.current.certificate.jwk jwk m))
          (text-table certificate_id_suffix set.current.certificate.key_id refl c.certificate)

    next_back :
        json.marshal_jwk set.next.certificate.jwk ≡ ok next_jwk
        → extract_credentials json secret (keys_for p).next_credentials ≡ ok (some set.next)
    unfolding keys_for entries_of from_entries_onto lookup insert string_eq
    next_back m =
        read_back json faithful secret (keys_for p).next_credentials set.next next_jwk m
          (text-table next_client_secret_suffix set.next.password.client_secret refl
            c.next_client_secret)
          (text-table next_password_id_suffix set.next.password.key_id refl c.next_password)
          (text-table next_jwk_suffix next_jwk refl
            (faithful.marshal_not_empty set.next.certificate.jwk next_jwk m))
          (text-table next_certificate_id_suffix set.next.certificate.key_id refl
            c.next_certificate)

module _ {Jwk : Type 0} (json : Json Jwk) (faithful : IsFaithful json) where
  extract-secret_data :
      (p : String) (app : ApplicationResult) (set : Set Jwk) (config : AzureOpenIdConfig)
      (sd : Dict String String) (secret : Secret)
      → IsComplete set
      → secret_data json app set config (keys_for p) ≡ ok sd
      → Holds secret sd
      → extract_credentials_set_from_secret json (keys_for p) secret ≡ ok (some set)
  unfolding extract_credentials_set_from_secret
  extract-secret_data p app set config sd secret c h holds =
      let (jwk, next_jwk, jwks, apps, m, n, made) =
        marshalled json faithful app set config (keys_for p) sd h in
      let held = subst⁻¹ (Holds secret) made holds in
      rw (
        current_back p app set config jwk next_jwk jwks apps secret held json faithful c m,
        next_back p app set config jwk next_jwk jwks apps secret held json faithful c n,
        extract_credentials_set_from_secret,
      )

  -- Suppose that a marshalled key is read back as it was, from a text that is not empty. If the
  -- first secret of the given name, among the unused and then the used ones, holds the data that
  -- was made of a set whose key IDs and secrets are not empty, then that set is found, under the
  -- keys for the same prefix.
  pub get_previous_credentials_set-secret_data :
      (to_upper : String → String) (prefix : List String) (app : ApplicationResult) (set : Set Jwk)
      (config : AzureOpenIdConfig) (sd : Dict String String) (secret : Secret) (lists : SecretLists)
      (name : String)
      → IsComplete set
      → secret_data json app set config (new_secret_data_keys to_upper prefix) ≡ ok sd
      → Holds secret sd
      → (name == "") ≡ false
      → named name (lists.unused ++ lists.used) ≡ some secret
      → get_previous_credentials_set json (new_secret_data_keys to_upper prefix) lists name
        ≡ ok (some set)
  unfolding get_previous_credentials_set new_secret_data_keys
  get_previous_credentials_set-secret_data to_upper prefix app set config sd secret lists name c h
        holds e f =
      rw (e, f, get_previous_credentials_set)
        (extract-secret_data (chosen_prefix to_upper prefix) app set config sd secret c h holds)
