-- ===== src/AzureClient/CredentialSets.antt =====
-- pkg/azure/client/credentials.go: the credentials of an application as sets of a certificate and a
-- password for now and for next. The clients are those for the transaction's application; the pauses
-- between the requests are left out. `clock i` is the i-th time that is read.
use azurerator.Base.{ℕ, String, Bool, Option, none, some, ◌&&◌}
use azurerator.Base.Exec.{Exec, Failure, pure, raise, ◌>>=◌, ◌>>◌}
use azurerator.Graph.{PasswordCredential}
use azurerator.PasswordCredentials
use azurerator.PasswordCredentials.{UsedKeys}
use azurerator.KeyCredentials
use azurerator.KeyCredentials.{NewKey}
use azurerator.Reconciler.{KeyId}
use azurerator.SecretData.{Credentials, Set}

pub record Client (S Jwk : Type 0) : Type 0 where
  pub passwords : PasswordCredentials.Client S
  pub keys : KeyCredentials.Client S Jwk

abbrev pub credentials_of : {Jwk : Type 0} → PasswordCredential → NewKey × Jwk → Credentials Jwk
credentials_of password (key, jwk) = record {
  certificate = record { key_id = key.key_id; jwk = jwk };
  password = record { key_id = password.key_id; client_secret = password.secret_text };
}

-- The keys that a revocation leaves alone.
unfoldable pub password_keys : {Jwk : Type 0} → KeyId → Set Jwk → UsedKeys
password_keys used set = record {
  used = used.password;
  current = set.current.password.key_id;
  next = set.next.password.key_id;
}

unfoldable pub certificate_keys : {Jwk : Type 0} → KeyId → Set Jwk → UsedKeys
certificate_keys used set = record {
  used = used.certificate;
  current = set.current.certificate.key_id;
  next = set.next.certificate.key_id;
}

module _ {S Jwk : Type 0} (client : Client S Jwk) (in_a_year clock : ℕ → ℕ) where
  unfoldable pub add : String → Exec S (Set Jwk)
  add object_id = do
    current_password ← PasswordCredentials.add client.passwords in_a_year (clock 0) object_id
    next_password ← PasswordCredentials.add client.passwords in_a_year (clock 1) object_id
    (current_key, next_key) ← KeyCredentials.add client.keys
    pure (record {
      current = credentials_of current_password current_key;
      next = credentials_of next_password next_key;
    })

  unfoldable pub delete_expired : Exec S (Unit {0})
  delete_expired =
      KeyCredentials.delete_expired client.keys clock
      >> PasswordCredentials.delete_expired client.passwords clock

  -- Without a set the code follows a nil pointer once it has read the application.
  unfoldable pub delete_unused : KeyId → Option (Set Jwk) → Exec S (Unit {0})
  delete_unused used none = client.keys.application >> raise Failure.nil_pointer
  delete_unused used (some set) =
      KeyCredentials.delete_unused client.keys (certificate_keys used set)
      >> PasswordCredentials.delete_unused client.passwords (password_keys used set)

  unfoldable pub purge : Exec S (Unit {0})
  purge = PasswordCredentials.purge client.passwords >> KeyCredentials.purge client.keys

  unfoldable pub rotate : KeyId → Option (Set Jwk) → String → Exec S (Set Jwk)
  rotate used none object_id = client.passwords.application >> raise Failure.nil_pointer
  rotate used (some set) object_id = do
    next_password ←
        PasswordCredentials.rotate client.passwords (password_keys used set) in_a_year (clock 0)
          object_id
    next_key ← KeyCredentials.rotate client.keys (certificate_keys used set)
    pure (record { current = set.next; next = credentials_of next_password next_key })

  unfoldable pub validate : Set Jwk → Exec S Bool
  validate existing = do
    passwords ←
        PasswordCredentials.validate client.passwords clock existing.current.password.key_id
          existing.next.password.key_id
    keys ←
        KeyCredentials.validate client.keys clock existing.current.certificate.key_id
          existing.next.certificate.key_id
    pure (passwords && keys)
