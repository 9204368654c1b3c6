-- ===== src/Permissions/Desired.antt =====
-- The desired permissions of an application, and how they take over those that exist.
use azurerator.Base.{
  ℕ, suc, String, ◌≡◌, refl, ◌∙◌, Bool, true, none, some, List, [], ◌∷◌, ◌++◌, arith, ◌==◌, ◌||◌,
  contains, string_eq, if◌then◌else◌, Option-cases, inl, inr,
}
use azurerator.Base.Dict.{Dict, lookup, has, NodupKeys, Iteration, lookup-insert, insert-NodupKeys}
use azurerator.Base.Keyed.{either, insert-IsKeyed, key_of_lookup}
use azurerator.Crd.{AccessPolicyInboundRule}
use azurerator.Graph.{Application}
use azurerator.Permissions.{
  Permission, Permissions, add, preserve_step, preserve_onto, new_generate_id, add_generated,
  generate_desired_permission_set, generate_desired_permission_set_preserve_existing,
  flatten_scopes, flatten_roles, default_app_role_value, default_permission_scope_value,
  extract_permissions,
}
use azurerator.Permissions.Fresh.{wanted_permission, lookup-generate_lem}
use azurerator.Permissions.Laws.{name_of, IsPermissionSet, lookup-add, add-IsPermissionSet}
use azurerator.Permissions.Extracted.{extract-IsPermissionSet}

-- The names that the rules and the two defaults ask for.
abbrev pub asked : List AccessPolicyInboundRule → String → Bool
asked rules k =
    contains (flatten_scopes rules ++ flatten_roles rules) k
    || k == default_app_role_value
    || k == default_permission_scope_value

abbrev AllEnabled : Permissions → Type 0
AllEnabled p = (k : String) (v : Permission) → lookup k p ≡ some v → v.enabled ≡ true

add-AllEnabled :
    (v : Permission) (p : Permissions) → v.enabled ≡ true → AllEnabled p → AllEnabled (add v p)
add-AllEnabled v p e h k w l = elim (Option-cases (lookup k p)) [
  | inl a ↦ ground (arith, lookup-add k v p)
  | inr (u, a) ↦ ground (arith, lookup-add k v p, h k u a)
]

has-add :
    (k : String) (v : Permission) (p : Permissions) → has k (add v p) ≡ (has k p || k == v.name)
has-add k v p = ground (arith, lookup-add k v p)

module _ (uuid : ℕ → String) where
  has-add_generated :
      (k : String) (n : ℕ) (names : List String) (p : Permissions)
      → has k (add_generated uuid n names p) ≡ (has k p || contains names k)
  unfolding add_generated
  has-add_generated k n [] p = ground arith
  has-add_generated k n (name ∷ names) p =
      has-add_generated k (suc n) names (add (new_generate_id uuid n name true) p)
      ∙ rw has-add (ground arith)

  add_generated-IsPermissionSet :
      (n : ℕ) (names : List String) (p : Permissions)
      → IsPermissionSet p
      → IsPermissionSet (add_generated uuid n names p)
  unfolding add_generated
  add_generated-IsPermissionSet n [] p s = s
  add_generated-IsPermissionSet n (name ∷ names) p s =
      add_generated-IsPermissionSet (suc n) names _ (add-IsPermissionSet _ p s)

  add_generated-AllEnabled :
      (n : ℕ) (names : List String) (p : Permissions)
      → AllEnabled p
      → AllEnabled (add_generated uuid n names p)
  unfolding add_generated
  add_generated-AllEnabled n [] p s = s
  add_generated-AllEnabled n (name ∷ names) p s =
      add_generated-AllEnabled (suc n) names _ (add-AllEnabled _ p refl s)

  module _ (n : ℕ) (rules : List AccessPolicyInboundRule) where
    pub generate-IsPermissionSet : IsPermissionSet (generate_desired_permission_set uuid n rules)
    unfolding generate_desired_permission_set
    generate-IsPermissionSet = add-IsPermissionSet _ _ (
        add-IsPermissionSet _ _ (
          add_generated-IsPermissionSet n (flatten_scopes rules ++ flatten_roles rules) []
            (record { unique = tt; named = tt })))

    pub generate-AllEnabled : AllEnabled (generate_desired_permission_set uuid n rules)
    unfolding generate_desired_permission_set lookup
    generate-AllEnabled = add-AllEnabled _ _ refl (
        add-AllEnabled _ _ refl (
          add_generated-AllEnabled n (flatten_scopes rules ++ flatten_roles rules) []
            (λ k v h. cc)))

    pub has-generate :
        (k : String) → has k (generate_desired_permission_set uuid n rules) ≡ asked rules k
    unfolding generate_desired_permission_set lookup
    has-generate k = rw (has-add, has-add, has-add_generated) (ground arith)

lookup-preserve_step :
    (k : String) (actual : Permissions) (key : String) (p : Permissions)
    → lookup k (preserve_step actual key p)
      ≡ (if k == key then either (lookup k actual) (lookup k p) else lookup k p)
unfolding preserve_step
lookup-preserve_step k actual key p = elim (Option-cases (lookup key actual)) [
  | inl e ↦ ground arith
  | inr (v, e) ↦ ground (arith, lookup-insert k key v p)
]

lookup-preserve_onto :
    (k : String) (actual : Permissions) (d : Dict String Permission) (p : Permissions)
    → lookup k (preserve_onto actual d p)
      ≡ (if has k d then either (lookup k actual) (lookup k p) else lookup k p)
unfolding preserve_onto lookup
lookup-preserve_onto k actual [] p = ground arith
lookup-preserve_onto k actual ((j, v) ∷ d) p =
    lookup-preserve_onto k actual d (preserve_step actual j p)
    ∙ rw lookup-preserve_step (ground arith)

-- After the takeover the names are those desired, and a name that exists already has the permission
-- that exists, its identifier included.
pub lookup-preserve_existing :
    (it : Iteration) (k : String) (actual desired : Permissions)
    → NodupKeys desired
    → lookup k (preserve_onto actual (it.range Permission desired) desired)
      ≡ (if has k desired then either (lookup k actual) (lookup k desired) else none)
lookup-preserve_existing it k actual desired u =
    lookup-preserve_onto k actual (it.range Permission desired) desired
    ∙ rw (it.lookup-range Permission desired k u) (ground arith)

preserve_step-IsPermissionSet :
    (actual : Permissions) (key : String) (p : Permissions)
    → IsPermissionSet actual
    → IsPermissionSet p
    → IsPermissionSet (preserve_step actual key p)
unfolding preserve_step
preserve_step-IsPermissionSet actual key p a s = elim (Option-cases (lookup key actual)) [
  | inl e ↦ rw (e, preserve_step) s
  | inr (v, e) ↦
      rw (e, preserve_step)
        (record {
          unique = insert-NodupKeys key v p s.unique;
          named =
              insert-IsKeyed name_of key v p (key_of_lookup name_of actual key v a.named e) s.named;
        })
]

preserve_onto-IsPermissionSet :
    (actual : Permissions) (d : Dict String Permission) (p : Permissions)
    → IsPermissionSet actual
    → IsPermissionSet p
    → IsPermissionSet (preserve_onto actual d p)
unfolding preserve_onto
preserve_onto-IsPermissionSet actual [] p a s = s
preserve_onto-IsPermissionSet actual ((j, v) ∷ d) p a s =
    preserve_onto-IsPermissionSet actual d (preserve_step actual j p) a
      (preserve_step-IsPermissionSet actual j p a s)

module _ (it : Iteration) (uuid : ℕ → String) (n : ℕ) (rules : List AccessPolicyInboundRule)
    (app : Application) {actual p : Permissions} (extracted : extract_permissions app ≡ some actual)
    (generated : generate_desired_permission_set_preserve_existing it uuid n rules app
      ≡ some p) where
  abbrev fresh : Permissions
  fresh = generate_desired_permission_set uuid n rules

  made : preserve_onto actual (it.range Permission fresh) fresh ≡ p
  unfolding generate_desired_permission_set_preserve_existing
  made = ground arith

  pub lookup-preserve_generated :
      (k : String)
      → lookup k p ≡ (if asked rules k then either (lookup k actual) (lookup k fresh) else none)
  lookup-preserve_generated k = rw (
    ← made,
    lookup-preserve_existing it k actual fresh (generate-IsPermissionSet uuid n rules).unique,
    has-generate uuid n rules k,
  )

  -- When an application's permissions can be extracted and the desired ones are generated from them:
  -- A name that neither the rules nor the two defaults ask for has no permission. One that is asked
  -- for keeps the permission, identifier included, that the application defines for it. If there is
  -- none, a name that the rules list has an enabled permission with the identifier generated for the
  -- first position at which they list it, and a default that they do not list has its fixed one.
  pub lookup-generate_preserve_existing :
      (k : String)
      → lookup k p ≡ (
          if asked rules k
          then either (lookup k actual) (wanted_permission uuid n rules k)
          else none)
  lookup-generate_preserve_existing k =
      lookup-preserve_generated k ∙ rw (lookup-generate_lem uuid n rules k) refl

  pub preserve_existing-IsPermissionSet : IsPermissionSet p
  preserve_existing-IsPermissionSet = rw made at (
      preserve_onto-IsPermissionSet actual (it.range Permission fresh) fresh
        (extract-IsPermissionSet app extracted) (generate-IsPermissionSet uuid n rules))
