-- ===== src/Groups.antt =====
-- pkg/azure/client/group/group.go: the groups that are assigned to an application. `Client` has the
-- request for a group, with what reading and decoding the body of its response gives, and the cache
-- of groups, of which an expired entry is one that is not found. `assignments` are those of the
-- application's service principal.
pub mod Lookups
pub mod Laws
use azurerator.Base.{
  ℕ, String, Bool, true, false, not, Option, none, some, List, [], ◌∷◌, ◌++◌, ◌&&◌, ◌||◌, ◌==◌,
  contains, string_eq, if◌then◌else◌,
}
use azurerator.Base.Dict.{Iteration}
use azurerator.Base.Text.{nat_eq}
use azurerator.Base.Exec.{Exec, Result, Failure, ok, err, pure, raise, then_do, ◌>>=◌, ◌>>◌}
use azurerator.Crd.{AzureAdApplication}
use azurerator.Graph.{Group}
use azurerator.Permissions
use azurerator.Permissions.{Permissions}
use azurerator.AppRoles
use azurerator.Resources.{Resource, group_type, add_all}
use azurerator.Assignments

-- A response, with what its body is decoded to: `none` is the JSON value `null`.
pub record Response : Type 0 where
  pub status : ℕ
  pub readable : Bool
  pub decoded : Result (Option Group)

-- A group with the fields that the code tests for.
pub record FoundGroup : Type 0 where
  pub id : String
  pub display_name : String

pub record Client (S : Type 0) : Type 0 where
  pub get_group : String → Exec S Response
  pub group_cached : String → S → Option FoundGroup
  pub cache_group : String → FoundGroup → S → S
  -- `AppRoleAssignments(tx, targetId)`
  pub assignments : String → Assignments.Client S

pub record Config : Type 0 where
  pub all_users_group_id : List String
  pub app_role_assignment_required : Bool

-- `none` is the answer that the group does not exist.
unfoldable pub decode_json_response_for_get_request : Response → Result (Option Group)
decode_json_response_for_get_request res =
    if res.status == 200 || res.status == 201
    then res.decoded
    else if res.status == 204 || res.status == 404
    then ok none
    else err Failure.other

-- The group of an answer, if it has its fields.
unfoldable pub complete : Option Group → Option FoundGroup
complete none = none
complete (some group) = elim group.id [
  | none ↦ none
  | some id ↦ elim group.display_name [
    | none ↦ none
    | some display_name ↦ some (record { id = id; display_name = display_name })
  ]
]

unfoldable pub map_to_resource : FoundGroup → Resource
map_to_resource group = record {
  name = group.display_name;
  client_id = "";
  object_id = group.id;
  principal_type = group_type;
  inbound_rule = record {
    rule = record { application = ""; namespace = ""; cluster = "" };
    permissions = none;
  };
}

-- `make([]resource.Resource, n)` has one of these for each element.
abbrev pub zero_resource : Resource
zero_resource = record {
  name = "";
  client_id = "";
  object_id = "";
  principal_type = "";
  inbound_rule = record {
    rule = record { application = ""; namespace = ""; cluster = "" };
    permissions = none;
  };
}

unfoldable pub zeros : List String → List Resource
zeros [] = []
zeros (_ ∷ ids) = zero_resource ∷ zeros ids

-- What a round of the loop of `getGroupsFromClaims` makes of a result: it skips a bad request.
abbrev pub skipped : Result (Option FoundGroup) → Result (Option FoundGroup)
skipped (ok group) = ok group
skipped (err Failure.bad_request) = ok none
skipped (err e) = err e

abbrev pub is_empty : List String → Bool
is_empty [] = true
is_empty _ = false

-- `allowAllUsersEnabled`
unfoldable pub allows_all_users : AzureAdApplication → Bool
allows_all_users app = elim app.spec.allow_all_users [ none ↦ false | some b ↦ b ]

module _ {S : Type 0} (client : Client S) where
  unfoldable pub fetch : String → Exec S (Option FoundGroup)
  unfolding decode_json_response_for_get_request complete
  fetch id = do
    res ← client.get_group id
    (if res.status == 400
        then raise (if res.readable then Failure.bad_request else Failure.other)
        else elim (decode_json_response_for_get_request res) [
          | err e ↦ raise e
          | ok answer ↦ elim (complete answer) [
            | none ↦ pure none
            | some group ↦ λ s. (ok (some group), client.cache_group id group s)
          ]
        ])

  unfoldable pub get_by_id : String → Exec S (Option FoundGroup)
  unfolding fetch
  get_by_id id s =
      if id == ""
      then (ok none, s)
      else elim (client.group_cached id s) [ some group ↦ (ok (some group), s) | none ↦ fetch id s ]

  unfoldable pub lookup_claim : String → Exec S (Option FoundGroup)
  lookup_claim id s = let found = get_by_id id s in (skipped found.0, found.1)

  unfoldable pub groups_from : List String → List String → List Resource → Exec S (List Resource)
  groups_from [] seen resources = pure resources
  groups_from (id ∷ ids) seen resources = do
    found ← lookup_claim id
    elim found [
      | none ↦ groups_from ids seen resources
      | some group ↦
          if contains seen id
          then groups_from ids seen resources
          else groups_from ids (id ∷ seen) (resources ++ map_to_resource group ∷ [])
    ]

  unfoldable pub get_groups_from_claims : AzureAdApplication → Exec S (List Resource)
  unfolding groups_from
  get_groups_from_claims app = elim app.spec.claims_groups [
    | none ↦ pure []
    | some groups ↦ groups_from groups [] []
  ]

  -- The loop of `getAllUsersGroups`.
  unfoldable pub all_users_from : List String → List Resource → Exec S (List Resource)
  all_users_from [] groups = pure groups
  all_users_from (id ∷ ids) groups = do
    found ← get_by_id id
    elim found [
      | none ↦ raise Failure.other
      | some group ↦ all_users_from ids (groups ++ map_to_resource group ∷ [])
    ]

  unfoldable pub get_all_users_groups : Config → Exec S (List Resource)
  unfolding all_users_from zeros
  get_all_users_groups config =
      all_users_from config.all_users_group_id (zeros config.all_users_group_id)

  unfoldable pub get_groups : Config → AzureAdApplication → Exec S (List Resource)
  get_groups config app = do
    groups ← get_groups_from_claims app
    (if is_empty config.all_users_group_id || not config.app_role_assignment_required
        then pure groups
        else if not (allows_all_users app)
        then pure groups
        else do all_users ← get_all_users_groups config; pure (add_all groups all_users))

  unfoldable pub process : Iteration → Config → AzureAdApplication → Exec S (Unit {0})
  unfolding get_groups
  process it config app = do
    groups ← get_groups config app
    Assignments.process_for (client.assignments app.status.service_principal_id) it
        app.status.service_principal_id groups group_type
        (Permissions.add (Permissions.from_app_role AppRoles.default_group_role) [])
