-- ===== src/SecretsReconciler/Laws.antt =====
-- What the secrets in use protect, and what the deletion of unused ones leaves.
use azurerator.Base.{
  ℕ, String, ◌≡◌, ◌∙◌, Bool, true, false, some, List, [], ◌∷◌, ◌||◌, ◌==◌, contains, string_eq,
  arith, Bool-cases, inl, inr, get_elem?,
}
use azurerator.Graph.{PasswordCredential}
use azurerator.Registered.Laws.{contains-append, remove_duplicates_lem, NodupKeys, ids}
use azurerator.PasswordCredentials
use azurerator.PasswordCredentials.{UsedKeys, password}
use azurerator.PasswordCredentials.Laws.{KeepsOthers, rotate_keeps}
use azurerator.SecretData.{SecretDataKeys}
use azurerator.SecretData.Extractors.{
  Secret, SecretLists, text_at, append_if_non_empty, ids_at, get_key_ids,
}

-- A secret of the list has this text under the key.
abbrev pub any_has : String → List Secret → String → Bool
any_has key [] k = false
any_has key (secret ∷ secrets) k = text_at key secret == k || any_has key secrets k

contains-append_if_non_empty :
    (found : List String) (i k : String)
    → (k == "") ≡ false
    → contains (append_if_non_empty found i) k ≡ (contains found k || i == k)
unfolding append_if_non_empty
contains-append_if_non_empty found i k h = elim (Bool-cases (i == "")) [
  | inl e ↦ rw (e, append_if_non_empty) (ground arith)
  | inr e ↦ rw (e, append_if_non_empty) (contains-append found (i ∷ []) k ∙ ground arith)
]

contains-ids_at :
    (key k : String) (secrets : List Secret) (found : List String)
    → (k == "") ≡ false
    → contains (ids_at key secrets found) k ≡ (contains found k || any_has key secrets k)
unfolding ids_at
contains-ids_at key k [] found h = ground arith
contains-ids_at key k (secret ∷ secrets) found h =
    contains-ids_at key k secrets (append_if_non_empty found (text_at key secret)) h
    ∙ rw (contains-append_if_non_empty found (text_at key secret) k h) (ground arith)

-- The IDs in use are those that the used secrets name, and likewise for the unused ones.
get_key_ids_lem :
    (keys : SecretDataKeys) (lists : SecretLists) (k : String)
    → (k == "") ≡ false
    → contains (get_key_ids keys lists).used.password k
      ≡ any_has keys.current_credentials.password_key_id lists.used k
unfolding get_key_ids
get_key_ids_lem keys lists k h =
    (remove_duplicates_lem (ids_at keys.current_credentials.password_key_id lists.used [])).0 k
    ∙ contains-ids_at keys.current_credentials.password_key_id k lists.used [] h

module _ {S : Type 0} (client : PasswordCredentials.Client S)
    (passwords : S → List PasswordCredential) (K : KeepsOthers client passwords) where
  -- A password whose key a secret in use names is still registered after `Rotate`, whichever requests
  -- fail: if the registered passwords have different keys, the requests touch no other password than
  -- they are for, and the keys in use are those that were read from the secrets.
  pub rotate-get_key_ids :
      (keys : SecretDataKeys) (lists : SecretLists) (current next : String) (s : S) (j : ℕ)
      (c : PasswordCredential) (in_a_year : ℕ → ℕ) (now : ℕ) (object_id : String)
      → NodupKeys (ids password (passwords s))
      → get_elem? (passwords s) j ≡ some c
      → (c.key_id == "") ≡ false
      → any_has keys.current_credentials.password_key_id lists.used c.key_id ≡ true
      → contains
          (ids password (
            passwords
              (PasswordCredentials.rotate client
                (record {
                  used = (get_key_ids keys lists).used.password;
                  current = current;
                  next = next;
                })
                in_a_year
                now
                object_id
                s).1))
          c.key_id
        ≡ true
  rotate-get_key_ids keys lists current next s j c in_a_year now object_id u h full named =
      rotate_keeps client passwords K
        (record { used = (get_key_ids keys lists).used.password; current = current; next = next }) s
        j c u h (rw (get_key_ids_lem keys lists c.key_id full, named)) in_a_year now object_id
