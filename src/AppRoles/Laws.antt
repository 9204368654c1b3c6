-- ===== src/AppRoles/Laws.antt =====
-- What the described roles are, name by name.
use azurerator.Base.{
  String, ◌≡◌, Option, List, string_eq, none, some, ◌==◌, ◌||◌, if◌then◌else◌, false,
}
use azurerator.Base.Dict.{lookup, has, NodupKeys, Iteration}
use azurerator.Base.Keyed.{index}
use azurerator.Graph.{AppRole}
use azurerator.Permissions.{Permissions, default_app_role_value}
use azurerator.Permissions.Laws.{IsPermissionSet}
use azurerator.Grants.Update.{
  lookup-ensure-merged, ensure-merged-NodupKeys, lookup-describe_create, describe_create-NodupKeys,
}
use azurerator.AppRoles.{
  app_role_grant, app_role_grant-IsLawful, new, default_role, describe_create, describe_update,
}

abbrev pub value_of : AppRole → String
value_of r = r.value

-- The role of each name in a list of roles: the first that has the name as its value.
abbrev pub role_of : String → List AppRole → Option AppRole
role_of k roles = lookup k (index value_of roles)

-- A role that should exist under a name, given the first existing one.
abbrev pub wanted_role : Permissions → String → Option AppRole → Option AppRole
wanted_role desired k none =
    if k == default_app_role_value
    then some default_role
    else elim (lookup k desired) [ none ↦ none | some p ↦ some (new p.id p.name) ]
wanted_role desired k (some r) =
    if k == default_app_role_value || has k desired
    then some (new r.id k)
    else some (record r { is_enabled = false })

module _ (it : Iteration) (desired : Permissions) (s : IsPermissionSet desired) where
  -- For desired permissions whose names are listed once, each under its own, a new application gets
  -- no name twice, the default role with its fixed identifier, and for each desired permission of
  -- another name one enabled role with the permission's identifier, and no others.
  pub role_of-describe_create :
      ((k : String) → role_of k (describe_create it desired) ≡ wanted_role desired k none)
      × NodupKeys (index value_of (describe_create it desired))
  unfolding describe_create
  role_of-describe_create = (
    lookup-describe_create app_role_grant app_role_grant-IsLawful it desired s,
    describe_create-NodupKeys app_role_grant app_role_grant-IsLawful it desired s,
  )

  -- For desired permissions whose names are listed once, each under its own, and whatever roles
  -- exist: An update asks for no name twice. It creates the default role and the desired roles that do not
  -- exist; it keeps the identifier of every role that exists; it leaves enabled (or enables) those
  -- that are desired and the default one, and disables all others.
  pub role_of-describe_update :
      (existing : List AppRole)
      → ((k : String)
          → role_of k (describe_update it desired existing)
            ≡ wanted_role desired k (role_of k existing))
        × NodupKeys (index value_of (describe_update it desired existing))
  unfolding describe_update
  role_of-describe_update existing = (
    λ k. lookup-ensure-merged app_role_grant app_role_grant-IsLawful it desired s existing k,
    ensure-merged-NodupKeys app_role_grant app_role_grant-IsLawful it desired s existing,
  )
