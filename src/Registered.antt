-- ===== src/Registered.antt =====
-- The loops that the packages pkg/azure/client/passwordcredential and keycredential share over the
-- credentials registered for an application: which is newest, whether the controller made any,
-- which are in use, which have expired. `Credential` is what the two types have in common.
-- pkg/util/strings/strings.go stands here too.
pub mod Laws
pub mod Selection
use text.Mathlib.Text.{starts_with}
use azurerator.Base.{
  ℕ, suc, ◌+◌, String, Bool, true, false, not, Option, none, some, List, [], ◌∷◌, ◌++◌, ◌&&◌, ◌||◌,
  ◌==◌, contains, string_eq, ltb, if◌then◌else◌,
}
use azurerator.Base.Text.{nat_eq}

pub record Credential : Type 1 where
  pub Carrier : Type 0
  pub key_id : Carrier → String
  pub display_name : Carrier → Option String
  pub start_date_time : Carrier → ℕ
  pub end_date_time : Carrier → ℕ

abbrev pub azurerator_prefix : String
azurerator_prefix = "azurerator"

-- `RemoveDuplicates`: the loop keeps the keys seen so far.
unfoldable pub remove_duplicates_from : List String → List String → List String
remove_duplicates_from seen [] = []
remove_duplicates_from seen (key ∷ keys) =
    let kept = key ∷ remove_duplicates_from (key ∷ seen) keys in
    let skipped = remove_duplicates_from seen keys in if contains seen key then skipped else kept

unfoldable pub remove_duplicates : List String → List String
unfolding remove_duplicates_from
remove_duplicates keys = remove_duplicates_from [] keys

-- The identifiers in use: those of the secrets in use, and those of the latest credentials.
unfoldable pub ids_in_use : List String → String → String → List String
unfolding remove_duplicates
ids_in_use used current next = remove_duplicates (used ++ current ∷ next ∷ [])

module _ (C : Credential) where
  -- The first loop: `newest` and `newestIndex`, with `i` the index of the round.
  unfoldable pub newest_from : ℕ → Option C.Carrier → ℕ → List C.Carrier → ℕ
  newest_from i newest at [] = at
  newest_from i none at (cred ∷ creds) = newest_from (suc i) (some cred) i creds
  newest_from i (some n) at (cred ∷ creds) =
      let newer = ltb (C.start_date_time n) (C.start_date_time cred) in
      newest_from (suc i) (if newer then some cred else some n) (if newer then i else at) creds

  unfoldable pub newest_index : List C.Carrier → ℕ
  unfolding newest_from
  newest_index creds = newest_from 0 none 0 creds

  unfoldable pub is_managed : C.Carrier → Bool
  is_managed cred = elim (C.display_name cred) [
    | none ↦ false
    | some name ↦ starts_with name azurerator_prefix
  ]

  -- `hasManagedKey` after the first loop.
  unfoldable pub has_managed_key : List C.Carrier → Bool
  unfolding is_managed
  has_managed_key [] = false
  has_managed_key (cred ∷ creds) = is_managed cred || has_managed_key creds

  -- The second loop of `revocationCandidates`, with `i` the index of the round.
  unfoldable pub revoked_from : List String → ℕ → ℕ → List C.Carrier → List C.Carrier
  unfolding nat_eq
  revoked_from in_use newest i [] = []
  revoked_from in_use newest i (cred ∷ creds) =
      let rest = revoked_from in_use newest (suc i) creds in
      if contains in_use (C.key_id cred) || i == newest then rest else cred ∷ rest

  -- The second loop of `filterRevokedKeys`.
  unfoldable pub filtered_from : List String → ℕ → ℕ → List C.Carrier → List C.Carrier
  unfolding nat_eq
  filtered_from in_use newest i [] = []
  filtered_from in_use newest i (cred ∷ creds) =
      let rest = filtered_from in_use newest (suc i) creds in
      if contains in_use (C.key_id cred) || i == newest then cred ∷ rest else rest

  -- `Validate`: each round reads the clock anew, `now i` in round `i`.
  unfoldable pub validate_from : (ℕ → ℕ) → String → String → ℕ → Bool → Bool → List C.Carrier → Bool
  validate_from now current next i current_valid next_valid [] = current_valid && next_valid
  validate_from now current next i current_valid next_valid (cred ∷ creds) =
      let not_expired = ltb (now i) (C.end_date_time cred) in
      validate_from now current next (suc i)
        (if C.key_id cred == current && not_expired then true else current_valid)
        (if C.key_id cred == next && not_expired then true else next_valid) creds
