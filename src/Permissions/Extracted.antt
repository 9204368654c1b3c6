-- ===== src/Permissions/Extracted.antt =====
-- The permissions that an application defines already.
use azurerator.Base.{
  String, ◌≡◌, ◌∙◌, Option, none, some, List, [], ◌∷◌, arith, string_eq, Option-cases, inl, inr,
}
use azurerator.Base.Dict.{lookup}
use azurerator.Base.Keyed.{either, index}
use azurerator.Graph.{AppRole, PermissionScope, Application}
use azurerator.Permissions.{
  Permissions, add, extract_permissions, from_app_role, from_permission_scope, add_scopes,
  add_roles,
}
use azurerator.Permissions.Laws.{IsPermissionSet, lookup-add, add-IsPermissionSet}

abbrev pub scope_value : PermissionScope → String
scope_value c = c.value

abbrev pub role_value : AppRole → String
role_value r = r.value

abbrev pub map_some {ℓ} : {A B : Type ℓ} → (A → B) → Option A → Option B
map_some f none = none
map_some f (some a) = some (f a)

lookup-add_scopes :
    (k : String) (scopes : List PermissionScope) (p : Permissions)
    → lookup k (add_scopes scopes p)
      ≡ either (lookup k p) (map_some from_permission_scope (lookup k (index scope_value scopes)))
unfolding add_scopes lookup
lookup-add_scopes k [] p = ground arith
lookup-add_scopes k (c ∷ scopes) p =
    lookup-add_scopes k scopes (add (from_permission_scope c) p) ∙ rw lookup-add (ground arith)

lookup-add_roles :
    (k : String) (roles : List AppRole) (p : Permissions)
    → lookup k (add_roles roles p)
      ≡ either (lookup k p) (map_some from_app_role (lookup k (index role_value roles)))
unfolding add_roles lookup
lookup-add_roles k [] p = ground arith
lookup-add_roles k (r ∷ roles) p =
    lookup-add_roles k roles (add (from_app_role r) p) ∙ rw lookup-add (ground arith)

add_scopes-IsPermissionSet :
    (scopes : List PermissionScope) (p : Permissions)
    → IsPermissionSet p
    → IsPermissionSet (add_scopes scopes p)
unfolding add_scopes
add_scopes-IsPermissionSet [] p s = s
add_scopes-IsPermissionSet (c ∷ scopes) p s =
    add_scopes-IsPermissionSet scopes _ (add-IsPermissionSet (from_permission_scope c) p s)

add_roles-IsPermissionSet :
    (roles : List AppRole) (p : Permissions)
    → IsPermissionSet p
    → IsPermissionSet (add_roles roles p)
unfolding add_roles
add_roles-IsPermissionSet [] p s = s
add_roles-IsPermissionSet (r ∷ roles) p s =
    add_roles-IsPermissionSet roles _ (add-IsPermissionSet (from_app_role r) p s)

pub extract-IsPermissionSet :
    (app : Application) {p : Permissions} → extract_permissions app ≡ some p → IsPermissionSet p
unfolding extract_permissions
extract-IsPermissionSet app {p} h = elim (Option-cases app.api) [
  | inl e ↦ cc
  | inr (api, e) ↦
      let made : add_roles app.app_roles (add_scopes api.oauth2_permission_scopes []) ≡ p =
        ground arith in
      rw made at (
        add_roles-IsPermissionSet app.app_roles _ (
          add_scopes-IsPermissionSet api.oauth2_permission_scopes []
            (record { unique = tt; named = tt })))
]

-- The permission of a name is that of the first scope with the name, or else that of the first
-- role with it.
pub lookup-extract :
    (app : Application) (k : String) {p : Permissions}
    → extract_permissions app ≡ some p
    → lookup k p
      ≡ either
          (elim app.api [
            | none ↦ none
            | some api ↦
                map_some from_permission_scope
                  (lookup k (index scope_value api.oauth2_permission_scopes))
          ])
          (map_some from_app_role (lookup k (index role_value app.app_roles)))
unfolding extract_permissions lookup
lookup-extract app k {p} h = elim (Option-cases app.api) [
  | inl e ↦ cc
  | inr (api, e) ↦
      let made : add_roles app.app_roles (add_scopes api.oauth2_permission_scopes []) ≡ p =
        ground arith in
      rw (e, ← made, lookup-add_roles, lookup-add_scopes)
]
