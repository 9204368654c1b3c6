-- ===== src/KeyCredentials/Laws.antt =====
-- Which keys a patch keeps.
use azurerator.Base.{
  ℕ, ◌≡◌, inl, inr, ◌∙◌, not, some, List, ◌||◌, ◌==◌, contains, string_eq, Bool-cases, get_elem?,
}
use native.Mathlib.Nat.{zero-add}
use azurerator.Base.Text.{nat_eq}
use azurerator.Graph.{KeyCredential}
use azurerator.Registered.{ids_in_use, newest_index, has_managed_key}
use azurerator.Registered.Laws.{ids, NodupKeys, contains-ids_in_use}
use azurerator.Registered.Selection.{filtered_at, contains_of_get}
use azurerator.PasswordCredentials.{UsedKeys}
use azurerator.PasswordCredentials.Laws.{in_use}
use azurerator.KeyCredentials.{key, filter_revoked_keys}

-- Among keys with different identifiers, one stays exactly if the controller made none of them, it
-- is in use, or it is the newest.
pub filter_revoked_keys_lem :
    (keys : UsedKeys) (creds : List KeyCredential) (j : ℕ) (c : KeyCredential)
    → NodupKeys (ids key creds)
    → get_elem? creds j ≡ some c
    → contains (ids key (filter_revoked_keys keys creds)) c.key_id
      ≡ (not (has_managed_key key creds) || in_use keys c.key_id || j == newest_index key creds)
unfolding filter_revoked_keys
filter_revoked_keys_lem keys creds j c u h = elim (Bool-cases (has_managed_key key creds)) [
  | inl e ↦
      rw (e, filter_revoked_keys)
        (filtered_at key (ids_in_use keys.used keys.current keys.next) (newest_index key creds) 0
            creds j c u h
          ∙ rw (contains-ids_in_use, zero-add))
  | inr e ↦ rw (e, filter_revoked_keys) (contains_of_get key creds j c h)
]
