-- ===== src/PermissionScopes/Laws.antt =====
-- What the described scopes are, name by name.
use azurerator.Base.{
  String, ◌≡◌, refl, ◌∙◌, Option, List, [], ◌∷◌, string_eq, none, some, ◌==◌, ◌||◌, if◌then◌else◌,
  false, arith,
}
use azurerator.Base.Dict.{lookup, has, NodupKeys, Iteration}
use azurerator.Base.Keyed.{index}
use azurerator.Graph.{PermissionScope}
use azurerator.Permissions.{Permissions, default_permission_scope_value, default_scope_type}
use azurerator.Permissions.Laws.{IsPermissionSet}
use azurerator.Grants
use azurerator.Grants.Update.{
  wanted, lookup-merged, merged-NodupKeys, ensured, lookup-ensure, ensure-NodupKeys,
  lookup-describe_create, describe_create-NodupKeys,
}
use azurerator.PermissionScopes.{
  scope_grant, scope_grant-IsLawful, new, default_scope, describe_create, describe_update,
  ensure_scopes_require_admin_consent,
}

abbrev pub value_of : PermissionScope → String
value_of c = c.value

-- The scope of each name in a list of scopes: the first that has the name as its value.
abbrev pub scope_of : String → List PermissionScope → Option PermissionScope
scope_of k scopes = lookup k (index value_of scopes)

-- A scope that should exist under a name, given the first existing one.
abbrev pub wanted_scope : Permissions → String → Option PermissionScope → Option PermissionScope
wanted_scope desired k none =
    if k == default_permission_scope_value
    then some default_scope
    else elim (lookup k desired) [ none ↦ none | some p ↦ some (new p.id p.name) ]
wanted_scope desired k (some c) =
    if k == default_permission_scope_value || has k desired
    then some (new c.id k)
    else some (record c { is_enabled = false; scope_type = default_scope_type })

abbrev by_admin : Option PermissionScope → Option PermissionScope
by_admin none = none
by_admin (some c) =
    some (
      if c.scope_type == default_scope_type
      then c
      else record c { scope_type = default_scope_type })

scope_of-by_admin :
    (k : String) (cs : List PermissionScope)
    → scope_of k (ensure_scopes_require_admin_consent cs) ≡ by_admin (scope_of k cs)
unfolding ensure_scopes_require_admin_consent lookup
scope_of-by_admin k [] = refl
scope_of-by_admin k (c ∷ cs) = ground (arith, scope_of-by_admin k cs)

by_admin-NodupKeys :
    (cs : List PermissionScope)
    → NodupKeys (index value_of cs)
    → NodupKeys (index value_of (ensure_scopes_require_admin_consent cs))
unfolding ensure_scopes_require_admin_consent
by_admin-NodupKeys [] _ = tt
by_admin-NodupKeys (c ∷ cs) (fresh, u) =
    ground (arith, by_admin-NodupKeys cs u, scope_of-by_admin c.value cs)

ensured-by_admin-wanted :
    (k : String) (desired : Permissions) (o : Option PermissionScope)
    → ensured scope_grant scope_grant-IsLawful k (by_admin (wanted scope_grant desired k o))
      ≡ wanted_scope desired k o
ensured-by_admin-wanted k desired none = ground arith
ensured-by_admin-wanted k desired (some c) = ground arith

module _ (it : Iteration) (desired : Permissions) (s : IsPermissionSet desired) where
  -- For desired permissions whose names are listed once, each under its own, a new application gets
  -- no name twice, the default scope with its fixed identifier, and for each desired permission of
  -- another name one enabled scope with the permission's identifier, and no others.
  pub scope_of-describe_create :
      ((k : String) → scope_of k (describe_create it desired) ≡ wanted_scope desired k none)
      × NodupKeys (index value_of (describe_create it desired))
  unfolding describe_create
  scope_of-describe_create = (
    lookup-describe_create scope_grant scope_grant-IsLawful it desired s,
    describe_create-NodupKeys scope_grant scope_grant-IsLawful it desired s,
  )

  -- For desired permissions whose names are listed once, each under its own, and whatever scopes
  -- exist: An update asks for no name twice. It creates the default scope and the desired scopes that do
  -- not exist; it keeps the identifier of every scope that exists; it enables those that are desired
  -- and the default one, and disables all others. All of them require the consent of an admin.
  pub scope_of-describe_update :
      (existing : List PermissionScope)
      → ((k : String)
          → scope_of k (describe_update it desired existing)
            ≡ wanted_scope desired k (scope_of k existing))
        × NodupKeys (index value_of (describe_update it desired existing))
  unfolding describe_update
  scope_of-describe_update existing =
      let merged = Grants.merged scope_grant it desired existing in
      (
        λ k.
            lookup-ensure scope_grant scope_grant-IsLawful k
              (ensure_scopes_require_admin_consent merged)
            ∙ rw
                (
                  scope_of-by_admin,
                  lookup-merged scope_grant scope_grant-IsLawful it desired s existing,
                )
                (ensured-by_admin-wanted k desired (scope_of k existing)),
        ensure-NodupKeys scope_grant scope_grant-IsLawful
            (ensure_scopes_require_admin_consent merged)
            (by_admin-NodupKeys merged
              (merged-NodupKeys scope_grant scope_grant-IsLawful it desired s existing)),
      )
