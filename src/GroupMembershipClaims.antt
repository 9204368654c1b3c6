-- ===== src/GroupMembershipClaims.antt =====
-- pkg/azure/client/application/groupmembershipclaim/groupmembershipclaim.go: which groups the
-- tokens of an application list. `equal_fold` is the function `EqualFold` of the package `strings`.
use azurerator.Base.{String, Bool, none, some, List, [], ◌∷◌, if◌then◌else◌}
use azurerator.Base.Exec.{Result, Failure, ok, err}
use azurerator.Crd.{AzureAdApplication}

abbrev pub all : String
all = "All"

abbrev pub directory_role : String
directory_role = "DirectoryRole"

abbrev pub security_group : String
security_group = "SecurityGroup"

abbrev pub application_group : String
application_group = "ApplicationGroup"

abbrev pub no_groups : String
no_groups = "None"

abbrev pub allowed : List String
allowed = all ∷ directory_role ∷ security_group ∷ application_group ∷ no_groups ∷ []

module _ (equal_fold : String → String → Bool) where
  -- The loop of `Normalize`.
  unfoldable pub first_valid : String → List String → Result String
  first_valid claim [] = err Failure.other
  first_valid claim (valid ∷ rest) =
      if equal_fold claim valid then ok valid else first_valid claim rest

  unfoldable pub normalize : String → Result String
  unfolding first_valid
  normalize claim = first_valid claim allowed

  -- The empty text stands for no claim.
  unfoldable pub from_spec : AzureAdApplication → Result String
  unfolding normalize
  from_spec app = elim app.spec.group_membership_claims [
    | none ↦ ok ""
    | some claims ↦ normalize claims
  ]

  unfoldable pub from_spec_or_default : AzureAdApplication → String → Result String
  unfolding normalize
  from_spec_or_default app default_value =
      normalize
        (elim app.spec.group_membership_claims [ none ↦ default_value | some claims ↦ claims ])
