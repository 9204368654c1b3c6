-- ===== src/AzureClient/Laws.antt =====
-- What a rotation does to a set of credentials and to the registered passwords.
use azurerator.Base.{
  ℕ, String, ◌≡◌, refl, sym, ap, ◌∙◌, true, some, List, [], ◌∷◌, ◌++◌, contains, string_eq,
  get_elem?, arith, inl, inr, eq_self,
}
use mathlib.Core.Path.{subst}
use azurerator.Base.Exec.{ok_inj, Exec, ok, err, Result-cases}
use azurerator.Graph.{PasswordCredential}
use azurerator.Registered.Laws.{NodupKeys, ids}
use azurerator.PasswordCredentials
use azurerator.PasswordCredentials.{password, UsedKeys}
use azurerator.PasswordCredentials.Laws.{KeepsOthers, rotate_keeps}
use azurerator.KeyCredentials
use azurerator.KeyCredentials.{SentKey, NewKey}
use azurerator.Reconciler.{KeyId}
use azurerator.SecretData.{Set}
use azurerator.AzureClient.CredentialSets.{
  Client, password_keys, certificate_keys, credentials_of, rotate,
}

-- The requests for keys leave the passwords as they are.
pub record LeavesPasswords {S Jwk : Type 0} (keys : KeyCredentials.Client S Jwk)
    (passwords : S → List PasswordCredential) : Type 0 where
  pub application_leaves : (s : S) → passwords (keys.application s).1 ≡ passwords s
  pub patch_leaves :
      (sent : List SentKey) (s : S) → passwords (keys.patch_keys sent s).1 ≡ passwords s
  pub generate_leaves : (s : S) → passwords (keys.generate s).1 ≡ passwords s

module _ {S Jwk : Type 0} (client : Client S Jwk) (passwords : S → List PasswordCredential)
    (K : KeepsOthers client.passwords passwords) (L : LeavesPasswords client.keys passwords) where
  rotate_keys_leaves :
      (keys : UsedKeys) (s : S)
      → passwords (KeyCredentials.rotate client.keys keys s).1 ≡ passwords s
  unfolding KeyCredentials.rotate
  rotate_keys_leaves keys s = elim (Result-cases (client.keys.application s).0) [
    | inr (x, e) ↦ rw (e) (L.application_leaves s)
    | inl (app, e) ↦ elim (Result-cases (client.keys.generate (client.keys.application s).1).0) [
      | inr (x, f) ↦ rw (e, f) (L.generate_leaves _ ∙ L.application_leaves s)
      | inl (new, f) ↦
          let patch =
            client.keys.patch_keys
              (KeyCredentials.sent (KeyCredentials.filter_revoked_keys keys app.key_credentials)
                ++ KeyCredentials.generated new.0 ∷ [])
              (client.keys.generate (client.keys.application s).1).1 in
          let leaves = L.patch_leaves _ _ ∙ L.generate_leaves _ ∙ L.application_leaves s in
          elim (Result-cases patch.0) [
            | inr (x, g) ↦ rw (e, f, g) leaves
            | inl (done, g) ↦ rw (e, f, g) leaves
          ]
    ]
  ]

  -- The rotation of the password, with which that of a set begins.
  abbrev first_rotation : KeyId → Set Jwk → String → (ℕ → ℕ) → (ℕ → ℕ) → Exec S PasswordCredential
  first_rotation used set object_id in_a_year clock =
      PasswordCredentials.rotate client.passwords (password_keys used set) in_a_year (clock 0)
        object_id

  -- What comes after the rotation of the password.
  rotated_passwords :
      (used : KeyId) (set : Set Jwk) (object_id : String) (in_a_year clock : ℕ → ℕ) (s : S)
      → passwords (rotate client in_a_year clock used (some set) object_id s).1
        ≡ passwords (first_rotation used set object_id in_a_year clock s).1
  unfolding rotate
  rotated_passwords used set object_id in_a_year clock s =
      let first = first_rotation used set object_id in_a_year clock s in
      elim (Result-cases first.0) [
        | inr (x, e) ↦ rw (e) refl
        | inl (next_password, e) ↦
            let second = KeyCredentials.rotate client.keys (certificate_keys used set) first.1 in
            let leaves = rotate_keys_leaves (certificate_keys used set) first.1 in
            elim (Result-cases second.0) [
              | inr (x, f) ↦ rw (e, f) leaves
              | inl (next_key, f) ↦ rw (e, f) leaves
            ]
      ]

  current_is_next :
      (used : KeyId) (set result : Set Jwk) (object_id : String) (in_a_year clock : ℕ → ℕ) (s : S)
      → (rotate client in_a_year clock used (some set) object_id s).0 ≡ ok result
      → result.current ≡ set.next
  unfolding rotate
  current_is_next used set result object_id in_a_year clock s h =
      elim (Result-cases (first_rotation used set object_id in_a_year clock s).0) [
        | inr (x, e) ↦ let absurd : err x ≡ ok result = rw (e) at h in cc absurd
        | inl (next_password, e) ↦
            elim (Result-cases
              (KeyCredentials.rotate client.keys (certificate_keys used set)
                (first_rotation used set object_id in_a_year clock s).1).0) [
                  | inr (x, f) ↦ let absurd : err x ≡ ok result = rw (e, f) at h in cc absurd
                  | inl (next_key, f) ↦ sym (
                      ap (λ (x : Set Jwk). x.current)
                        (ok_inj
                          (record {
                            current = set.next;
                            next = credentials_of next_password next_key;
                          })
                          result (rw (e, f) at h)))
                ]
      ]

  -- A set that a rotation returns has the next credentials of the latest set as its current ones, and
  -- their password is still registered after the rotation, whichever requests fail: if the registered
  -- passwords have different keys, it is one of them, and requests touch no other password than they
  -- are for.
  pub rotate-next :
      (used : KeyId) (set : Set Jwk) (object_id : String) (in_a_year clock : ℕ → ℕ) (s : S) (j : ℕ)
      (c : PasswordCredential)
      → NodupKeys (ids password (passwords s))
      → get_elem? (passwords s) j ≡ some c
      → c.key_id ≡ set.next.password.key_id
      → ((result : Set Jwk)
          → (rotate client in_a_year clock used (some set) object_id s).0 ≡ ok result
          → result.current ≡ set.next)
        × (contains
              (ids password
                (passwords (rotate client in_a_year clock used (some set) object_id s).1))
              set.next.password.key_id
            ≡ true)
  unfolding password_keys
  rotate-next used set object_id in_a_year clock s j c u h same = (
    λ result e. current_is_next used set result object_id in_a_year clock s e,
    rw (rotated_passwords) (
        subst
          (λ k.
            contains
              (ids password (passwords (first_rotation used set object_id in_a_year clock s).1)) k
            ≡ true)
          same
          (rotate_keeps client.passwords passwords K (password_keys used set) s j c u h
            (rw (same) (ground (arith, eq_self set.next.password.key_id))) in_a_year (clock 0)
            object_id)),
  )
