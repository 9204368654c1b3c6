-- ===== src/ApplicationClient/Laws.antt =====
-- What an update leaves of an application's roles once the disabled ones are removed.
use azurerator.Base.{
  String, ◌≡◌, refl, ◌∙◌, Bool, true, false, Option, none, some, List, [], ◌∷◌, ◌==◌, ◌||◌,
  string_eq, if◌then◌else◌, arith, Option-cases, inl, inr,
}
use azurerator.Base.Dict.{lookup, is_some, has, NodupKeys}
use azurerator.Base.Keyed.{index, either}
use azurerator.Base.Exec.{Failure, ok, err, Result-cases}
use azurerator.Crd.{AzureAdApplication, AccessPolicyInboundRule}
use azurerator.Graph.{AppRole, Application, ApiApplication}
use azurerator.Permissions.{
  Permissions, default_app_role_value, extract_permissions,
  generate_desired_permission_set_preserve_existing,
}
use azurerator.Permissions.Laws.{IsPermissionSet}
use azurerator.Permissions.Desired.{
  asked, lookup-preserve_generated, preserve_existing-IsPermissionSet, has-generate,
}
use azurerator.AppRoles.{app_role_grant, new, describe_update, remove_disabled}
use azurerator.AppRoles.Laws.{value_of, role_of, wanted_role, role_of-describe_update}
use azurerator.Grants
use azurerator.GroupMembershipClaims.{from_spec, from_spec_or_default}
use azurerator.OptionalClaims
use azurerator.ApplicationClient.Requests
use azurerator.ApplicationClient.Requests.{Request}
use azurerator.ApplicationClient.Registration.{Context, described, with_claims, update_request}

-- A role that is disabled is none.
abbrev enabled_only : Option AppRole → Option AppRole
enabled_only none = none
enabled_only (some r) = if r.is_enabled then some r else none

role_of-enabled :
    (k : String) (roles : List AppRole)
    → NodupKeys (index value_of roles)
    → role_of k (Grants.remove_disabled app_role_grant roles) ≡ enabled_only (role_of k roles)
unfolding Grants.remove_disabled lookup
role_of-enabled k [] u = refl
role_of-enabled k (r ∷ roles) (fresh, u) = ground (arith, role_of-enabled k roles u, fresh)

-- The roles that an update of desired permissions keeps enabled.
remaining :
    (desired : Permissions) (k : String) (existing : Option AppRole)
    → is_some (enabled_only (wanted_role desired k existing))
      ≡ (k == default_app_role_value || has k desired)
remaining desired k none = ground arith
remaining desired k (some r) = ground arith

remaining_id :
    (desired : Permissions) (k : String) (r : AppRole)
    → (k == default_app_role_value || has k desired) ≡ true
    → enabled_only (wanted_role desired k (some r)) ≡ some (new r.id k)
remaining_id desired k r h = ground arith

is_some-either :
    {A : Type 0} (b : Bool) (o p : Option A)
    → is_some p ≡ b
    → is_some (if b then either o p else none) ≡ b
is_some-either true none p h = h
is_some-either true (some a) p h = refl
is_some-either false o p h = refl

-- The default role is always asked for.
asked-default :
    (rs : List AccessPolicyInboundRule) (k : String)
    → (k == default_app_role_value || asked rs k) ≡ asked rs k
asked-default rs k = ground arith

module _ (c : Context) (name : String) (app : AzureAdApplication) (actual : Application) where
  -- The claims leave the roles as they are.
  with_claims-roles :
      (builder r : Request)
      → with_claims c app actual builder ≡ ok r
      → r.application.app_roles ≡ builder.application.app_roles
  unfolding with_claims Requests.group_membership_claims
  with_claims-roles builder r h = elim (Option-cases actual.group_membership_claims) [
    | inl e ↦
        elim (Result-cases
          (from_spec_or_default c.equal_fold app c.default_group_membership_claim)) [
            | inl (claim, f) ↦ ground arith
            | inr (x, f) ↦ ground arith
          ]
    | inr (g, e) ↦ elim (Result-cases (from_spec c.equal_fold app)) [
      | inl (claim, f) ↦ ground arith
      | inr (x, f) ↦ ground arith
    ]
  ]

  abbrev rules : List AccessPolicyInboundRule
  rules = app.spec.pre_authorized_applications

  pub update_request_lem :
      (desired : Permissions) (api : ApiApplication)
      → generate_desired_permission_set_preserve_existing c.range_order c.uuid 0 rules actual
        ≡ some desired
      → actual.api ≡ some api
      → update_request c name app actual
        ≡ with_claims c app actual (described c name app actual api desired)
  unfolding update_request OptionalClaims.describe_update
  update_request_lem desired api e f = rw (update_request, e, f) refl

  -- The desired permissions that a request was made from.
  abbrev MadeFrom : Request → Permissions → Type 0
  MadeFrom r desired =
      (generate_desired_permission_set_preserve_existing c.range_order c.uuid 0 rules actual
        ≡ some desired)
      × (r.application.app_roles ≡ describe_update c.range_order desired actual.app_roles)

  made_from :
      (r : Request)
      → update_request c name app actual ≡ ok r
      → (desired : Permissions) × MadeFrom r desired
  unfolding update_request described Requests.permission_scopes Requests.optional_claims
      Requests.identifier_uri_list Requests.app_roles
  made_from r h =
      elim (Option-cases
        (generate_desired_permission_set_preserve_existing c.range_order c.uuid 0 rules actual)) [
          | inl e ↦ let g : err Failure.nil_pointer ≡ ok r = rw (e, update_request) at h in cc g
          | inr (desired, e) ↦ elim (Option-cases actual.api) [
            | inl f ↦
                let g : err Failure.nil_pointer ≡ ok r = rw (e, f, update_request) at h in cc g
            | inr (api, f) ↦
                let g : with_claims c app actual (described c name app actual api desired) ≡ ok r =
                  rw (e, f, update_request) at h in
                (desired, (e, with_claims-roles (described c name app actual api desired) r g))
          ]
        ]

  generated-IsPermissionSet :
      (desired : Permissions)
      → generate_desired_permission_set_preserve_existing c.range_order c.uuid 0 rules actual
        ≡ some desired
      → IsPermissionSet desired × ((k : String) → has k desired ≡ asked rules k)
  unfolding generate_desired_permission_set_preserve_existing
  generated-IsPermissionSet desired h = elim (Option-cases (extract_permissions actual)) [
    | inl e ↦ ground arith
    | inr (p, e) ↦ (
      preserve_existing-IsPermissionSet c.range_order c.uuid 0 rules actual e h,
      λ k.
          rw (lookup-preserve_generated c.range_order c.uuid 0 rules actual e h k)
            (is_some-either (asked rules k) (lookup k p) _ (has-generate c.uuid 0 rules k)),
    )
  ]

  -- An update whose request can be made asks for roles of which those that are left, once the
  -- disabled ones are removed, are exactly those of the two default values, of the role and of the
  -- scope, and of the values that the rules list as roles or as scopes; one that existed and is
  -- asked for keeps its identifier.
  pub remove_disabled-update_request :
      (r : Request) (k : String)
      → update_request c name app actual ≡ ok r
      → (is_some (role_of k (remove_disabled r.application)) ≡ asked rules k)
        × ((existing : AppRole)
            → role_of k actual.app_roles ≡ some existing
            → asked rules k ≡ true
            → role_of k (remove_disabled r.application) ≡ some (new existing.id k))
  unfolding remove_disabled
  remove_disabled-update_request r k h =
      let (desired, (e, f)) = made_from r h in
      let (set, names) = generated-IsPermissionSet desired e in
      let (described, unique) =
        role_of-describe_update c.range_order desired set actual.app_roles in
      rw
        (
          f,
          role_of-enabled k (describe_update c.range_order desired actual.app_roles) unique,
          described k,
        )
        (
          remaining desired k (role_of k actual.app_roles) ∙ rw (names k) (asked-default rules k),
          λ existing found asks.
              rw (found)
                (remaining_id desired k existing (rw (names k) (asked-default rules k) ∙ asks)),
        )
