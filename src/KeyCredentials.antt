-- ===== src/KeyCredentials.antt =====
-- pkg/azure/client/keycredential/keycredential.go. `Client` is the interface of that name, with the
-- generation of a key pair that the package `crypto` makes from random numbers. The keys that a
-- patch sends replace those of the application; Graph dates a new one, so `NewKey` has no dates.
pub mod Laws
use azurerator.Base.{
  ℕ, String, Bool, false, true, Option, none, some, List, [], ◌∷◌, ◌++◌, map, ltb, if◌then◌else◌,
}
use azurerator.Base.Exec.{Exec, Result, ok, err, pure, raise, then_do, ◌>>=◌, ◌>>◌}
use azurerator.Graph.{KeyCredential, Application}
use azurerator.Registered.{
  Credential, ids_in_use, newest_index, has_managed_key, filtered_from, validate_from,
}
use azurerator.PasswordCredentials.{UsedKeys}

abbrev pub key : Credential
key = record {
  Carrier = KeyCredential;
  key_id = λ c. c.key_id;
  display_name = λ c. c.display_name;
  start_date_time = λ c. c.start_date_time;
  end_date_time = λ c. c.end_date_time;
}

-- What `toKeyCredential` makes: an identifier and the public part of the pair.
pub record NewKey : Type 0 where
  pub key_id : String
  pub public_pem : String

pub data SentKey : Type 0 where
  registered : KeyCredential → SentKey
  generated : NewKey → SentKey

-- `Jwk` is the type of a generated pair.
pub record Client (S Jwk : Type 0) : Type 0 where
  pub application : Exec S Application
  -- `Application().Patch` with a list of keys.
  pub patch_keys : List SentKey → Exec S (Unit {0})
  -- `crypto.GenerateJwk` and the identifier from `uuid`.
  pub generate : Exec S (NewKey × Jwk)

unfoldable pub sent : List KeyCredential → List SentKey
sent [] = []
sent (c ∷ cs) = registered c ∷ sent cs

unfoldable pub filter_revoked_keys : UsedKeys → List KeyCredential → List KeyCredential
filter_revoked_keys keys creds =
    if has_managed_key key creds
    then filtered_from key (ids_in_use keys.used keys.current keys.next) (newest_index key creds) 0
        creds
    else creds

-- The loop of `DeleteExpired`; round `i` reads the clock.
unfoldable pub not_expired_from : (ℕ → ℕ) → ℕ → List KeyCredential → List KeyCredential
not_expired_from now i [] = []
not_expired_from now i (cred ∷ creds) =
    let rest = not_expired_from now (ℕ.suc i) creds in
    if ltb (now i) cred.end_date_time then cred ∷ rest else rest

module _ {S Jwk : Type 0} (client : Client S Jwk) where
  unfoldable pub add : Exec S ((NewKey × Jwk) × (NewKey × Jwk))
  unfolding sent
  add = do
    app ← client.application
    current ← client.generate
    next ← client.generate
    client.patch_keys (sent app.key_credentials ++ generated current.0 ∷ generated next.0 ∷ [])
    pure (current, next)

  unfoldable pub delete_expired : (ℕ → ℕ) → Exec S (Unit {0})
  unfolding not_expired_from sent
  delete_expired now = do
    app ← client.application
    client.patch_keys (sent (not_expired_from now 0 app.key_credentials))

  unfoldable pub delete_unused : UsedKeys → Exec S (Unit {0})
  unfolding sent
  delete_unused keys = do
    app ← client.application
    client.patch_keys (sent (filter_revoked_keys keys app.key_credentials))

  unfoldable pub rotate : UsedKeys → Exec S (NewKey × Jwk)
  unfolding sent
  rotate keys = do
    app ← client.application
    new ← client.generate
    client.patch_keys (sent (filter_revoked_keys keys app.key_credentials) ++ generated new.0 ∷ [])
    pure new

  unfoldable pub purge : Exec S (Unit {0})
  purge = client.patch_keys []

  unfoldable pub validate : (ℕ → ℕ) → String → String → Exec S Bool
  validate now current next = do
    app ← client.application
    pure (validate_from key now current next 0 false false app.key_credentials)
