-- ===== src/Permissions/Laws.antt =====
-- What `Add`, `Filter`, `Enabled` and `Disabled` do to the permission of each name.
use azurerator.Base.{
  String, ◌≡◌, refl, ◌∙◌, Bool, not, none, some, List, [], ◌∷◌, arith, ◌==◌, contains, string_eq,
  if◌then◌else◌, Option-cases, inl, inr,
}
use azurerator.Base.Dict.{Dict, lookup, NodupKeys, Iteration, lookup-insert, insert-NodupKeys}
use azurerator.Base.Keyed.{IsKeyed, either, insert-IsKeyed, range-IsKeyed}
use azurerator.Permissions.{
  Permission, Permissions, add, filter_step, filter_onto, filter, select_onto, enabled, disabled,
}

abbrev pub name_of : Permission → String
name_of p = p.name

-- Every name is listed once, and a permission is listed under its own name.
pub record IsPermissionSet (p : Permissions) : Type 0 where
  pub unique : NodupKeys p
  pub named : IsKeyed name_of p

pub lookup-add :
    (k : String) (v : Permission) (p : Permissions)
    → lookup k (add v p) ≡ (if k == v.name then either (lookup k p) (some v) else lookup k p)
unfolding add
lookup-add k v p = ground (arith, lookup-insert k v.name v p)

pub add-IsPermissionSet :
    (v : Permission) (p : Permissions) → IsPermissionSet p → IsPermissionSet (add v p)
unfolding add
add-IsPermissionSet v p s =
    ground
      (arith, insert-NodupKeys v.name v p s.unique, insert-IsKeyed name_of v.name v p refl s.named)

lookup-filter_step :
    (k : String) (p : Permissions) (s : String) (result : Permissions)
    → lookup k (filter_step p s result)
      ≡ (if k == s then either (lookup k result) (lookup k p) else lookup k result)
unfolding filter_step
lookup-filter_step k p s result = elim (Option-cases (lookup s p)) [
  | inl e ↦ ground arith
  | inr (v, e) ↦ ground (arith, lookup-insert k s v result)
]

lookup-filter_onto :
    (k : String) (p : Permissions) (desired : List String) (result : Permissions)
    → lookup k (filter_onto p desired result)
      ≡ either (lookup k result) (if contains desired k then lookup k p else none)
unfolding filter_onto
lookup-filter_onto k p [] result = ground arith
lookup-filter_onto k p (s ∷ desired) result =
    lookup-filter_onto k p desired (filter_step p s result) ∙ rw lookup-filter_step (ground arith)

-- `Filter` keeps exactly the permissions of the given names, unchanged.
pub lookup-filter :
    (k : String) (p : Permissions) (desired : List String)
    → lookup k (filter p desired) ≡ (if contains desired k then lookup k p else none)
unfolding filter lookup
lookup-filter k p desired = lookup-filter_onto k p desired []

module _ (keep : Permission → Bool) where
  lookup-select_onto :
      (k : String) (d : Dict String Permission) (result : Permissions)
      → NodupKeys d
      → IsKeyed name_of d
      → lookup k (select_onto keep d result)
        ≡ either
            (lookup k result)
            (elim (lookup k d) [ none ↦ none | some v ↦ if keep v then some v else none ])
  unfolding select_onto lookup
  lookup-select_onto k [] result _ _ = ground arith
  lookup-select_onto k ((j, v) ∷ d) result (fresh, u) (e, h) = ground (
    arith,
    lookup-select_onto k d result u h,
    lookup-select_onto k d (add v result) u h,
    lookup-add k v result,
  )

module _ (it : Iteration) (k : String) (p : Permissions) (s : IsPermissionSet p) where
  lookup-select :
      (keep : Permission → Bool)
      → lookup k (select_onto keep (it.range Permission p) [])
        ≡ elim (lookup k p) [ none ↦ none | some v ↦ if keep v then some v else none ]
  unfolding lookup
  lookup-select keep =
      lookup-select_onto keep k (it.range Permission p) []
        (it.range-NodupKeys Permission p s.unique) (range-IsKeyed name_of it p s.unique s.named)
      ∙ rw (it.lookup-range Permission p k s.unique)

  -- Of a set whose names are listed once, each under its own, `Enabled` keeps exactly the permissions
  -- that are enabled, unchanged.
  pub lookup-enabled :
      lookup k (enabled it p)
      ≡ elim (lookup k p) [ none ↦ none | some v ↦ if v.enabled then some v else none ]
  unfolding enabled
  lookup-enabled = lookup-select (λ v. v.enabled)

  -- Of a set whose names are listed once, each under its own, `Disabled` keeps exactly the
  -- permissions that are not enabled, unchanged.
  pub lookup-disabled :
      lookup k (disabled it p)
      ≡ elim (lookup k p) [ none ↦ none | some v ↦ if v.enabled then none else some v ]
  unfolding disabled
  lookup-disabled = lookup-select (λ v. not v.enabled) ∙ ground arith
