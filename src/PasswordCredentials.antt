-- ===== src/PasswordCredentials.antt =====
-- pkg/azure/client/passwordcredential/passwordcredential.go. `Client` is the interface of that name
-- with the calls of Microsoft Graph that the package makes. `now i` is what the i-th call of
-- `time.Now` in a loop reads. The sleeps between the calls and the logging are left out.
pub mod Laws
use azurerator.Base.{
  ℕ, suc, ◌+◌, String, Bool, true, false, Option, none, some, List, [], ◌∷◌, ltb, if◌then◌else◌,
}
use azurerator.Base.Exec.{Exec, Result, ok, err, pure, then_do, ◌>>=◌, ◌>>◌}
use azurerator.Graph.{PasswordCredential, Application}
use azurerator.Registered.{
  Credential, ids_in_use, newest_index, has_managed_key, revoked_from, validate_from,
}

abbrev pub password : Credential
password = record {
  Carrier = PasswordCredential;
  key_id = λ c. c.key_id;
  display_name = λ c. c.display_name;
  start_date_time = λ c. c.start_date_time;
  end_date_time = λ c. c.end_date_time;
}

pub record Client (S : Type 0) : Type 0 where
  -- `Application().Get(tx)`
  pub application : Exec S Application
  -- The request for a new password with its start and end. Graph makes the secret.
  pub add_password : String → ℕ → ℕ → Exec S PasswordCredential
  -- The request to remove the password with a key from the application with an identifier.
  pub remove_password : String → String → Exec S (Unit {0})

-- What `tx.Secrets` holds: the keys of the passwords in use, and those of the latest credentials.
pub record UsedKeys : Type 0 where
  pub used : List String
  pub current : String
  pub next : String

unfoldable pub revocation_candidates : UsedKeys → List PasswordCredential → List PasswordCredential
revocation_candidates keys creds =
    if has_managed_key password creds
    then revoked_from password (ids_in_use keys.used keys.current keys.next)
        (newest_index password creds) 0 creds
    else []

module _ {S : Type 0} (client : Client S) where
  -- An error of the request is logged and dropped.
  unfoldable pub remove : String → String → Exec S (Unit {0})
  remove id key_id s = (ok tt, (client.remove_password id key_id s).1)

  unfoldable pub remove_all : String → List PasswordCredential → Exec S (Unit {0})
  unfolding remove
  remove_all id [] s = (ok tt, s)
  remove_all id (cred ∷ creds) s = remove_all id creds (remove id cred.key_id s).1

  -- `in_a_year` is `AddDate(1, 0, 0)` of the package `time`.
  unfoldable pub add : (ℕ → ℕ) → ℕ → String → Exec S PasswordCredential
  add in_a_year now object_id = client.add_password object_id now (in_a_year now)

  -- The loop of `DeleteExpired`.
  unfoldable pub delete_expired_from :
      (ℕ → ℕ) → ℕ → String → List PasswordCredential → Exec S (Unit {0})
  unfolding remove
  delete_expired_from now i id [] s = (ok tt, s)
  delete_expired_from now i id (cred ∷ creds) s =
      delete_expired_from now (suc i) id creds
        (if ltb cred.end_date_time (now i) then (remove id cred.key_id s).1 else s)

  unfoldable pub delete_expired : (ℕ → ℕ) → Exec S (Unit {0})
  unfolding delete_expired_from
  delete_expired now = do
    app ← client.application
    delete_expired_from now 0 app.id app.password_credentials

  unfoldable pub delete_unused : UsedKeys → Exec S (Unit {0})
  unfolding remove_all
  delete_unused keys = do
    app ← client.application
    remove_all app.id (revocation_candidates keys app.password_credentials)

  unfoldable pub rotate : UsedKeys → (ℕ → ℕ) → ℕ → String → Exec S PasswordCredential
  unfolding remove_all add
  rotate keys in_a_year now object_id = do
    app ← client.application
    remove_all app.id (revocation_candidates keys app.password_credentials)
    add in_a_year now object_id

  unfoldable pub purge : Exec S (Unit {0})
  unfolding remove_all
  purge = do app ← client.application; remove_all app.id app.password_credentials

  unfoldable pub validate : (ℕ → ℕ) → String → String → Exec S Bool
  validate now current next = do
    app ← client.application
    pure (validate_from password now current next 0 false false app.password_credentials)
