-- ===== src/Resources/Laws.antt =====
-- Which resources a role is assigned to.
use azurerator.Base.{
  String, ◌≡◌, refl, ◌∙◌, Bool, true, false, none, some, List, [], ◌∷◌, ◌++◌, ◌&&◌, ◌||◌, ◌==◌,
  contains, string_eq, if◌then◌else◌, arith, ◌≢◌, Bool-cases, Option-cases, inl, inr,
}
use text.Mathlib.TextEquality.{eq_iff}
use mathlib.Core.List.{append_assoc, append-nil}
use azurerator.Permissions.{Permission, default_app_role_value, default_group_role_id}
use azurerator.Resources.{
  Resource, group_type, service_principal_type, roles_match, filter_by_role_onto, filter_by_role,
  extract_desired_assignees, has, add, add_all,
}

-- A resource asks for a role of this name.
abbrev pub asks_for : String → Resource → Bool
asks_for name re = elim re.inbound_rule.permissions [
  | none ↦ false
  | some p ↦ contains p.roles name
]

-- The resources of a list that meet a test, in order.
abbrev pub those : (Resource → Bool) → List Resource → List Resource
those test [] = []
those test (re ∷ rs) = let rest = those test rs in if test re then re ∷ rest else rest

types_differ : group_type ≢ service_principal_type
types_differ e = cc ((eq_iff group_type service_principal_type).1 e)

roles_match-seen :
    (name : String) (roles : List String) (re : Resource) (result : List Resource)
    → roles_match name true roles re result ≡ result
unfolding roles_match
roles_match-seen name [] re result = refl
roles_match-seen name (r ∷ roles) re result = ground (arith, roles_match-seen name roles re result)

roles_match_lem :
    (name : String) (roles : List String) (re : Resource) (result : List Resource)
    → roles_match name false roles re result
      ≡ (if contains roles name then result ++ re ∷ [] else result)
unfolding roles_match
roles_match_lem name [] re result = refl
roles_match_lem name (r ∷ roles) re result = ground (
  arith,
  roles_match_lem name roles re result,
  roles_match-seen name roles re (result ++ re ∷ []),
)

filter_by_role_onto_lem :
    (role : Permission) (rs result : List Resource)
    → filter_by_role_onto role rs result ≡ result ++ those (asks_for role.name) rs
unfolding filter_by_role_onto
filter_by_role_onto_lem role [] result = rw append-nil
filter_by_role_onto_lem role (re ∷ rs) result = elim (Option-cases re.inbound_rule.permissions) [
  | inl e ↦ ground (arith, filter_by_role_onto_lem role rs result)
  | inr (p, e) ↦ ground (
    arith,
    roles_match_lem role.name p.roles re result,
    filter_by_role_onto_lem role rs result,
    filter_by_role_onto_lem role rs (result ++ re ∷ []),
    append_assoc result (re ∷ []) (those (asks_for role.name) rs),
  )
]

-- Every group gets the default group role, every service principal the default application role,
-- and any other role goes to the resources that ask for it by name; each of them once, in order.
pub extract_desired_assignees_lem :
    (rs : List Resource) (kind : String) (role : Permission)
    → extract_desired_assignees rs kind role ≡ (
        if (kind == group_type && role.id == default_group_role_id)
          || (kind == service_principal_type && role.name == default_app_role_value)
        then rs
        else those (asks_for role.name) rs)
unfolding extract_desired_assignees filter_by_role
extract_desired_assignees_lem rs kind role =
    ground (arith, types_differ, filter_by_role_onto_lem role rs [])

-- No two resources have one object and type.
abbrev pub IsDistinct : List Resource → Type 0
IsDistinct [] = Unit
IsDistinct (re ∷ rs) = (has rs re ≡ false) × IsDistinct rs

pub has-append :
    (rs ss : List Resource) (other : Resource)
    → has (rs ++ ss) other ≡ (has rs other || has ss other)
unfolding has
has-append [] ss other = refl
has-append (re ∷ rs) ss other = ground (arith, has-append rs ss other)

add-IsDistinct :
    (rs : List Resource) (re : Resource)
    → has rs re ≡ false
    → IsDistinct rs
    → IsDistinct (rs ++ re ∷ [])
unfolding has
add-IsDistinct [] re h _ = (refl, tt)
add-IsDistinct (r ∷ rs) re h (fresh, d) =
    (has-append rs (re ∷ []) r ∙ ground arith, add-IsDistinct rs re (ground arith) d)

add_keeps : (rs : List Resource) (re : Resource) → IsDistinct rs → IsDistinct (add rs re)
unfolding add
add_keeps rs re d = elim (Bool-cases (has rs re)) [
  | inl e ↦ rw (e, add) d
  | inr e ↦ rw (e, add) (add-IsDistinct rs re e d)
]

has-same :
    (rs : List Resource) (r s : Resource)
    → r.principal_type ≡ s.principal_type
    → r.object_id ≡ s.object_id
    → has rs r ≡ has rs s
unfolding has
has-same [] r s p q = refl
has-same (re ∷ rs) r s p q = ground (arith, has-same rs r s p q)

has-add :
    (rs : List Resource) (re other : Resource)
    → has (add rs re) other ≡ (has rs other || has (re ∷ []) other)
unfolding add has
has-add rs re other = elim (Bool-cases (has rs re)) [
  | inl e ↦
      elim (Bool-cases
        (re.principal_type == other.principal_type && re.object_id == other.object_id)) [
          | inl f ↦
              let same : has rs re ≡ has rs other =
                has-same rs re other (ground arith) (ground arith) in
              ground arith
          | inr f ↦ ground arith
        ]
  | inr e ↦ rw (e, add) (has-append rs (re ∷ []) other)
]

has-cons :
    (re : Resource) (rs : List Resource) (other : Resource)
    → has (re ∷ rs) other ≡ (has (re ∷ []) other || has rs other)
unfolding has
has-cons re rs other = ground arith

none_more : (rs : List Resource) (other : Resource) → has rs other ≡ (has rs other || has [] other)
unfolding has
none_more rs other = ground arith

pub has-add_all :
    (rs more : List Resource) (other : Resource)
    → has (add_all rs more) other ≡ (has rs other || has more other)
unfolding add_all
has-add_all rs [] other = none_more rs other
has-add_all rs (re ∷ more) other =
    has-add_all (add rs re) more other ∙ ground (arith, has-add rs re other, has-cons re more other)

add_all-IsDistinct : (rs more : List Resource) → IsDistinct rs → IsDistinct (add_all rs more)
unfolding add_all
add_all-IsDistinct rs [] d = d
add_all-IsDistinct rs (re ∷ more) d = add_all-IsDistinct (add rs re) more (add_keeps rs re d)

-- `AddAll` keeps resources distinct that are so, and then has those that were there and those that are added.
pub add_all_lem :
    (rs more : List Resource)
    → IsDistinct rs
    → IsDistinct (add_all rs more)
      × ((other : Resource) → has (add_all rs more) other ≡ (has rs other || has more other))
add_all_lem rs more d = (add_all-IsDistinct rs more d, has-add_all rs more)
