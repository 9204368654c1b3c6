-- ===== src/Assignments.antt =====
-- pkg/azure/client/approleassignment/list.go and approleassignment.go, with
-- pkg/azure/client/serviceprincipal/approleassignments.go: the assignments of roles to groups and
-- service principals. `Client` is what the last of these calls. The logging is left out.
pub mod Laws
pub mod Kept
use azurerator.Base.{
  String, Bool, true, false, Option, none, some, List, [], ◌∷◌, ◌++◌, ◌&&◌, ◌||◌, ◌==◌, Eq,
  contains, map, string_eq, if◌then◌else◌,
}
use azurerator.Base.Dict.{Dict, Iteration}
use azurerator.Base.Exec.{Exec, Result, Failure, ok, err, pure, raise, then_do, ◌>>=◌, ◌>>◌}
use azurerator.Graph.{AppRoleAssignment, Application}
use azurerator.Permissions
use azurerator.Permissions.{Permission, Permissions}
use azurerator.Resources
use azurerator.Resources.{Resource, group_type, service_principal_type}

pub record AssignmentKey : Type 0 where
  pub app_role_id : String
  pub principal_id : String
  pub resource_id : String

instance unfoldable pub key_eq : Eq AssignmentKey
key_eq = record { dec = hlevel string_eq.dec }

abbrev pub to_key : AppRoleAssignment → AssignmentKey
to_key a = record {
  app_role_id = a.app_role_id;
  principal_id = a.principal_id;
  resource_id = a.resource_id;
}

unfoldable pub to_app_role_assignments :
    List Resource → String → Permission → List AppRoleAssignment
to_app_role_assignments [] target role = []
to_app_role_assignments (re ∷ rs) target role =
    Resources.to_app_role_assignment re target role ∷ to_app_role_assignments rs target role

unfoldable pub has : List AppRoleAssignment → AppRoleAssignment → Bool
has [] assignment = false
has (a ∷ l) assignment =
    if a.principal_id == assignment.principal_id
      && a.app_role_id == assignment.app_role_id
      && a.principal_type == assignment.principal_type
    then true
    else has l assignment

unfoldable pub has_resource : List AppRoleAssignment → Resource → Bool
has_resource [] r = false
has_resource (a ∷ l) r =
    if a.principal_id == r.object_id && a.principal_type == r.principal_type
    then true
    else has_resource l r

unfoldable pub filter_by_role_id : List AppRoleAssignment → String → List AppRoleAssignment
filter_by_role_id [] role_id = []
filter_by_role_id (a ∷ l) role_id =
    let rest = filter_by_role_id l role_id in if a.app_role_id == role_id then a ∷ rest else rest

unfoldable pub filter_by_type : List AppRoleAssignment → String → List AppRoleAssignment
filter_by_type [] kind = []
filter_by_type (a ∷ l) kind =
    let rest = filter_by_type l kind in if a.principal_type == kind then a ∷ rest else rest

unfoldable pub without_matching_role :
    Iteration → List AppRoleAssignment → Permissions → List AppRoleAssignment
without_matching_role it [] roles = []
without_matching_role it (a ∷ l) roles =
    let rest = without_matching_role it l roles in
    if Permissions.has_role_id it roles a.app_role_id then rest else a ∷ rest

-- The loop of `Difference` over `a`, for the set of the keys of `b`.
unfoldable pub difference_from :
    List AssignmentKey → List AppRoleAssignment → List AppRoleAssignment
difference_from mb [] = []
difference_from mb (x ∷ a) =
    let rest = difference_from mb a in if contains mb (to_key x) then rest else x ∷ rest

unfoldable pub difference : List AppRoleAssignment → List AppRoleAssignment → List AppRoleAssignment
unfolding difference_from
difference a b = difference_from (map to_key b) a

unfoldable pub to_assign : List AppRoleAssignment → List AppRoleAssignment → List AppRoleAssignment
unfolding difference
to_assign existing desired = difference desired existing

unfoldable pub to_revoke : List AppRoleAssignment → List AppRoleAssignment → List AppRoleAssignment
unfolding difference
to_revoke existing desired = difference existing desired

unfoldable pub unmodified :
    List AppRoleAssignment
    → List AppRoleAssignment
    → List AppRoleAssignment
    → List AppRoleAssignment
unfolding difference
unmodified existing assign revoke = difference existing (assign ++ revoke)

-- The requests, for one target service principal.
pub record Client (S : Type 0) : Type 0 where
  -- `request().GetN`
  pub get_all : Exec S (List AppRoleAssignment)
  -- `request().Add`
  pub add : AppRoleAssignment → Exec S (Unit {0})
  -- `requestWithID(*assignment.ID).Delete`; `none` is the panic on an assignment without ID.
  pub delete : Option String → Exec S (Unit {0})
  -- `ServicePrincipal().GetClientId`
  pub client_id_of : String → Exec S String
  -- `application.IsManagedCache.Get`
  pub is_managed_cached : String → Exec S (Option Bool)
  -- `application.IsManaged` of what `Application().GetByClientId` returns.
  pub is_managed : String → Exec S Bool

module _ {S : Type 0} (client : Client S) where
  -- The loop of `GetAllServicePrincipals`.
  unfoldable pub managed_only : List AppRoleAssignment → Exec S (List AppRoleAssignment)
  managed_only [] = pure []
  managed_only (a ∷ l) = do
    client_id ← client.client_id_of a.principal_id
    cached ← client.is_managed_cached client_id
    managed ← (elim cached [ some b ↦ pure b | none ↦ client.is_managed client_id ])
    rest ← managed_only l
    pure (if managed then a ∷ rest else rest)

  unfoldable pub get_all_groups : Exec S (List AppRoleAssignment)
  get_all_groups = do assignments ← client.get_all; pure (filter_by_type assignments group_type)

  unfoldable pub get_all_service_principals : Exec S (List AppRoleAssignment)
  unfolding managed_only
  get_all_service_principals = do
    assignments ← client.get_all
    managed_only (filter_by_type assignments service_principal_type)

  unfoldable pub fetch_existing : String → Exec S (List AppRoleAssignment)
  unfolding get_all_groups get_all_service_principals
  fetch_existing kind =
      if kind == group_type
      then get_all_groups
      else if kind == service_principal_type
      then get_all_service_principals
      else raise Failure.other

  unfoldable pub assign_for : List AppRoleAssignment → Exec S (Unit {0})
  assign_for [] = pure tt
  assign_for (a ∷ l) = client.add a >> assign_for l

  unfoldable pub revoke_for : List AppRoleAssignment → Exec S (Unit {0})
  revoke_for [] = pure tt
  revoke_for (a ∷ l) = client.delete a.id >> revoke_for l

  -- A round of the loop of `processEnabledRoles`.
  unfoldable pub process_role :
      String → List AppRoleAssignment → List Resource → String → Permission → Exec S (Unit {0})
  unfolding assign_for revoke_for
  process_role target existing assignees kind role =
      let by_role = filter_by_role_id existing role.id in
      let desired =
        to_app_role_assignments (Resources.extract_desired_assignees assignees kind role) target
          role in
      assign_for (to_assign by_role desired) >> revoke_for (to_revoke by_role desired)

  unfoldable pub process_roles :
      String
      → List AppRoleAssignment
      → List Resource
      → String
      → Dict String Permission
      → Exec S (Unit {0})
  unfolding process_role
  process_roles target existing assignees kind [] = pure tt
  process_roles target existing assignees kind ((_, role) ∷ roles) =
      process_role target existing assignees kind role
      >> process_roles target existing assignees kind roles

  -- The loop of `revokeAssignmentsForDisabledRoles`.
  unfoldable pub revoke_roles : List AppRoleAssignment → Dict String Permission → Exec S (Unit {0})
  unfolding revoke_for
  revoke_roles existing [] = pure tt
  revoke_roles existing ((_, role) ∷ roles) =
      revoke_for (filter_by_role_id existing role.id) >> revoke_roles existing roles

  unfoldable pub process_for :
      Iteration → String → List Resource → String → Permissions → Exec S (Unit {0})
  unfolding fetch_existing process_roles revoke_roles revoke_for
  process_for it target assignees kind roles = do
    existing ← fetch_existing kind
    process_roles target existing (Resources.filter_by_principal_type assignees kind) kind
        (it.range Permission (Permissions.enabled it roles))
    revoke_roles existing (it.range Permission (Permissions.disabled it roles))
    revoke_for (without_matching_role it existing roles)
