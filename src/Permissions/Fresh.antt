-- ===== src/Permissions/Fresh.antt =====
-- The identifiers in the desired permissions of a new application.
use azurerator.Base.{
  ℕ, suc, ◌+◌, String, Option, ◌≡◌, refl, ◌∙◌, true, false, none, some, List, [], ◌∷◌, ◌++◌, arith,
  ◌==◌, contains, string_eq, if◌then◌else◌, Bool-cases, inl, inr,
}
use azurerator.Base.Dict.{lookup}
use azurerator.Base.Keyed.{either}
use azurerator.Crd.{AccessPolicyInboundRule}
use azurerator.Permissions.{
  Permission, Permissions, new, add, new_generate_id, add_generated,
  generate_desired_permission_set, flatten_scopes, flatten_roles, default_app_role,
  default_permission_scope, default_app_role_value, default_permission_scope_value,
}
use azurerator.Permissions.Laws.{lookup-add}

-- The names that the rules list, as scopes or as roles.
abbrev pub listed : List AccessPolicyInboundRule → List String
listed rules = flatten_scopes rules ++ flatten_roles rules

-- The position at which a name is listed first.
abbrev pub position : String → List String → Option ℕ
position k [] = none
position k (name ∷ names) =
    let later = position k names in
    if k == name then some 0 else elim later [ none ↦ none | some i ↦ some (suc i) ]

-- The identifier that is generated for the name at a position, where `n` were generated before.
abbrev pub generated_at : (ℕ → String) → ℕ → String → Option ℕ → Option Permission
generated_at uuid n k none = none
generated_at uuid n k (some i) = some (new (uuid (n + i)) k true)

-- What a name should have that does not exist: an enabled permission with the identifier generated
-- for its first position in the rules' names or, if they do not list it, the default of its name.
abbrev pub wanted_permission :
    (ℕ → String) → ℕ → List AccessPolicyInboundRule → String → Option Permission
wanted_permission uuid n rules k = either (generated_at uuid n k (position k (listed rules))) (
    if k == default_app_role_value
    then some default_app_role
    else if k == default_permission_scope_value
    then some default_permission_scope
    else none)

module _ (uuid : ℕ → String) where
  generated_at-suc :
      (n : ℕ) (k : String) (o : Option ℕ)
      → generated_at uuid (suc n) k o
        ≡ generated_at uuid n k (elim o [ none ↦ none | some i ↦ some (suc i) ])
  generated_at-suc n k none = refl
  generated_at-suc n k (some i) = let e : suc n + i ≡ n + suc i = omega arith in rw (e) refl

  lookup-add_generated :
      (k : String) (n : ℕ) (names : List String) (p : Permissions)
      → lookup k (add_generated uuid n names p)
        ≡ either (lookup k p) (generated_at uuid n k (position k names))
  unfolding add_generated new_generate_id
  lookup-add_generated k n [] p = ground arith
  lookup-add_generated k n (name ∷ names) p =
      lookup-add_generated k (suc n) names (add (new (uuid n) name true) p)
      ∙ rw (lookup-add, generated_at-suc n k (position k names)) (ground arith)

  lookup-add_generated_other :
      (k : String) (n : ℕ) (names : List String) (p : Permissions)
      → contains names k ≡ false
      → lookup k (add_generated uuid n names p) ≡ lookup k p
  unfolding add_generated new_generate_id
  lookup-add_generated_other k n [] p h = refl
  lookup-add_generated_other k n (name ∷ names) p h =
      lookup-add_generated_other k (suc n) names _ (ground arith)
      ∙ ground (arith, lookup-add k (new (uuid n) name true) p)

  lookup-add_generated_old :
      (k : String) (n : ℕ) (names : List String) (p : Permissions) {v : Permission}
      → lookup k p ≡ some v
      → lookup k (add_generated uuid n names p) ≡ some v
  unfolding add_generated new_generate_id
  lookup-add_generated_old k n [] p h = h
  lookup-add_generated_old k n (name ∷ names) p h =
      lookup-add_generated_old k (suc n) names _
        (ground (arith, lookup-add k (new (uuid n) name true) p))

  lookup-add_generated_new :
      (k : String) (n : ℕ) (names : List String) (p : Permissions)
      → contains names k ≡ true
      → lookup k p ≡ none
      → (i : ℕ) × (lookup k (add_generated uuid n names p) ≡ some (new (uuid i) k true))
  unfolding add_generated new_generate_id
  lookup-add_generated_new k n [] p h e = cc
  lookup-add_generated_new k n (name ∷ names) p h e = elim (Bool-cases (k == name)) [
    | inl same ↦ (
      n,
      lookup-add_generated_old k (suc n) names _
          (ground (arith, lookup-add k (new (uuid n) name true) p)),
    )
    | inr other ↦
        lookup-add_generated_new k (suc n) names _ (ground arith)
          (ground (arith, lookup-add k (new (uuid n) name true) p))
  ]

  module _ (n : ℕ) (rules : List AccessPolicyInboundRule) where
    lookup-generate :
        (k : String)
        → lookup k (generate_desired_permission_set uuid n rules)
          ≡ either (lookup k (add_generated uuid n (listed rules) [])) (
              if k == default_app_role_value
              then some default_app_role
              else if k == default_permission_scope_value
              then some default_permission_scope
              else none)
    unfolding generate_desired_permission_set
    lookup-generate k = lookup-add k default_permission_scope _ ∙ rw lookup-add (ground arith)

    -- The generated permission of each name.
    pub lookup-generate_lem :
        (k : String)
        → lookup k (generate_desired_permission_set uuid n rules) ≡ wanted_permission uuid n rules k
    unfolding lookup
    lookup-generate_lem k = lookup-generate k ∙ rw (lookup-add_generated k n (listed rules) []) refl

    -- A name that the rules do not list is there only as a default, with its fixed identifier.
    pub lookup-generate_unlisted :
        (k : String)
        → contains (listed rules) k ≡ false
        → lookup k (generate_desired_permission_set uuid n rules) ≡ (
            if k == default_app_role_value
            then some default_app_role
            else if k == default_permission_scope_value
            then some default_permission_scope
            else none)
    unfolding lookup
    lookup-generate_unlisted k h =
        lookup-generate k ∙ rw (lookup-add_generated_other k n (listed rules) [] h)

    -- A name that the rules list has an identifier that was generated, a default name too.
    pub lookup-generate_listed :
        (k : String)
        → contains (listed rules) k ≡ true
        → (i : ℕ) × (lookup k (generate_desired_permission_set uuid n rules)
            ≡ some (new (uuid i) k true))
    unfolding lookup
    lookup-generate_listed k h =
        let (i, e) = lookup-add_generated_new k n (listed rules) [] h refl in
        (i, lookup-generate k ∙ rw e)
