-- ===== src/PasswordCredentials/Laws.antt =====
-- Which passwords are revoked, and which stay registered whatever the requests do.
use azurerator.Base.{
  ℕ, String, ◌≡◌, ◌≢◌, inl, inr, refl, ◌∙◌, Bool, true, false, not, some, List, [], ◌∷◌, ◌&&◌, ◌||◌,
  ◌==◌, contains, string_eq, arith, Bool-cases, get_elem?,
}
use azurerator.Base.Text.{nat_eq}
use native.Mathlib.Nat.{zero-add}
use azurerator.Base.Exec.{Result-cases, ok}
use azurerator.Graph.{PasswordCredential, Application}
use azurerator.Registered.{ids_in_use, newest_index, has_managed_key}
use azurerator.Registered.Laws.{ids, NodupKeys, contains-ids_in_use}
use azurerator.Registered.Selection.{revoked_at, contains_of_get}
use azurerator.PasswordCredentials.{
  password, Client, UsedKeys, revocation_candidates, remove, remove_all, delete_unused, rotate,
}

-- The key is that of a secret in use or of the latest credentials.
abbrev pub in_use : UsedKeys → String → Bool
in_use keys k = contains keys.used k || k == keys.current || k == keys.next

-- Among credentials with different keys, one is revoked exactly if the controller has made one of
-- them, it is not in use, and it is not the newest.
pub revocation_candidates_lem :
    (keys : UsedKeys) (creds : List PasswordCredential) (j : ℕ) (c : PasswordCredential)
    → NodupKeys (ids password creds)
    → get_elem? creds j ≡ some c
    → contains (ids password (revocation_candidates keys creds)) c.key_id ≡ (
        has_managed_key password creds
        && not (in_use keys c.key_id || j == newest_index password creds))
unfolding revocation_candidates
revocation_candidates_lem keys creds j c u h = elim (Bool-cases (has_managed_key password creds)) [
  | inl e ↦
      rw (e, revocation_candidates)
        (revoked_at password (ids_in_use keys.used keys.current keys.next)
            (newest_index password creds) 0 creds j c u h
          ∙ rw (contains-ids_in_use, zero-add))
  | inr e ↦ rw (e, revocation_candidates)
]

-- What the package relies on: reading the application changes no password, and neither adding one
-- nor a request to remove a key, failed or not, removes a password with another key.
pub record KeepsOthers {S : Type 0} (client : Client S) (passwords : S → List PasswordCredential)
    : Type 0 where
  pub application_reads :
      (s : S) {app : Application}
      → (client.application s).0 ≡ ok app
      → app.password_credentials ≡ passwords s
  pub application_keeps : (s : S) → passwords (client.application s).1 ≡ passwords s
  pub add_keeps :
      (id : String) (start end : ℕ) (s : S) (k : String)
      → contains (ids password (passwords s)) k ≡ true
      → contains (ids password (passwords (client.add_password id start end s).1)) k ≡ true
  pub remove_keeps :
      (id key : String) (s : S) (k : String)
      → k ≢ key
      → contains (ids password (passwords s)) k ≡ true
      → contains (ids password (passwords (client.remove_password id key s).1)) k ≡ true

remove_all_ok :
    {S : Type 0} (client : Client S) (id : String) (creds : List PasswordCredential) (s : S)
    → (remove_all client id creds s).0 ≡ ok tt
unfolding remove_all
remove_all_ok client id [] s = refl
remove_all_ok client id (c ∷ creds) s = remove_all_ok client id creds _

module _ {S : Type 0} (client : Client S) (passwords : S → List PasswordCredential)
    (K : KeepsOthers client passwords) where
  remove_all_keeps :
      (id : String) (creds : List PasswordCredential) (s : S) (k : String)
      → contains (ids password creds) k ≡ false
      → contains (ids password (passwords s)) k ≡ true
      → contains (ids password (passwords (remove_all client id creds s).1)) k ≡ true
  unfolding remove_all
  remove_all_keeps id [] s k apart h = h
  remove_all_keeps id (c ∷ creds) s k apart h =
      remove_all_keeps id creds (remove client id c.key_id s).1 k (ground arith)
        (K.remove_keeps id c.key_id s k (ground arith) h)

  module _ (keys : UsedKeys) (s : S) (j : ℕ) (c : PasswordCredential)
      (u : NodupKeys (ids password (passwords s))) (h : get_elem? (passwords s) j ≡ some c)
      (safe : (in_use keys c.key_id || j == newest_index password (passwords s)) ≡ true) where
    abbrev candidates : List PasswordCredential
    candidates = revocation_candidates keys (passwords s)

    not_candidate : contains (ids password candidates) c.key_id ≡ false
    not_candidate = revocation_candidates_lem keys (passwords s) j c u h ∙ rw safe (ground arith)

    candidates_keep :
        (id : String)
        → contains
            (ids password (passwords (remove_all client id candidates (client.application s).1).1))
            c.key_id
          ≡ true
    candidates_keep id =
        remove_all_keeps id candidates (client.application s).1 c.key_id not_candidate
          (rw K.application_keeps (contains_of_get password (passwords s) j c h))

    -- If the registered passwords have different keys, and the requests touch no other password than
    -- they are for, a password that is in use, or that is the newest, is still registered after
    -- `DeleteUnused`, whichever requests fail on the way.
    pub delete_unused_keeps :
        contains (ids password (passwords (delete_unused client keys s).1)) c.key_id ≡ true
    unfolding delete_unused
    delete_unused_keeps = elim (Result-cases (client.application s).0) [
      | inl (app, e) ↦ rw (e, K.application_reads s e) (candidates_keep app.id)
      | inr (f, e) ↦ rw (e, K.application_keeps s) (contains_of_get password (passwords s) j c h)
    ]

    -- If the registered passwords have different keys, and the requests touch no other password than
    -- they are for, a password that is in use, or that is the newest, is still registered after
    -- `Rotate`, which goes on to add one, whichever requests fail on the way.
    pub rotate_keeps :
        (in_a_year : ℕ → ℕ) (now : ℕ) (object_id : String)
        → contains
            (ids password (passwords (rotate client keys in_a_year now object_id s).1))
            c.key_id
          ≡ true
    unfolding rotate
    rotate_keeps in_a_year now object_id = elim (Result-cases (client.application s).0) [
      | inl (app, e) ↦
          rw (e, K.application_reads s e, remove_all_ok client app.id candidates)
            (K.add_keeps object_id now (in_a_year now) _ c.key_id (candidates_keep app.id))
      | inr (f, e) ↦ rw (e, K.application_keeps s) (contains_of_get password (passwords s) j c h)
    ]
