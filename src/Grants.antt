-- ===== src/Grants.antt =====
-- pkg/azure/client/application/approle and permissionscope: the two packages declare the same maps
-- for roles and for scopes (approlemap.go and permissionscopemap.go). `Grant` is what they differ
-- in, a client's section parameter; `AppRoles` and `PermissionScopes` fill it.
-- A loop over a Go map takes its order from `it`.
pub mod Laws
pub mod Update
use azurerator.Base.{
  String, Bool, true, false, ◌≡◌, Option, none, some, List, [], ◌∷◌, ◌++◌, ◌==◌, ◌||◌, string_eq,
  if◌then◌else◌,
}
use azurerator.Base.Dict.{Dict, values, lookup, has, insert, erase, Iteration}
use azurerator.Permissions.{Permission, Permissions}

pub record Grant : Type 1 where
  pub Carrier : Type 0
  pub value : Carrier → String
  pub id : Carrier → String
  pub is_enabled : Carrier → Bool
  pub set_enabled : Bool → Carrier → Carrier
  -- `New(id, name)`
  pub new : String → String → Carrier
  pub default_id : String
  pub default_value : String

-- A grant has the name and the identifier that it is made with, and is enabled; to enable or
-- disable it changes neither.
pub record IsLawful (g : Grant) : Type 0 where
  pub value-new : (i n : String) → g.value (g.new i n) ≡ n
  pub id-new : (i n : String) → g.id (g.new i n) ≡ i
  pub is_enabled-new : (i n : String) → g.is_enabled (g.new i n) ≡ true
  pub value-set_enabled : (b : Bool) (c : g.Carrier) → g.value (g.set_enabled b c) ≡ g.value c
  pub id-set_enabled : (b : Bool) (c : g.Carrier) → g.id (g.set_enabled b c) ≡ g.id c
  pub is_enabled-set_enabled : (b : Bool) (c : g.Carrier) → g.is_enabled (g.set_enabled b c) ≡ b

module _ (g : Grant) where
  abbrev pub GrantMap : Type 0
  GrantMap = Dict String g.Carrier

  unfoldable pub add : g.Carrier → GrantMap → GrantMap
  add c m = if has (g.value c) m then m else insert (g.value c) c m

  unfoldable pub add_all : List g.Carrier → GrantMap → GrantMap
  add_all [] seen = seen
  add_all (c ∷ cs) seen = add_all cs (add c seen)

  unfoldable pub to_map : List g.Carrier → GrantMap
  unfolding add_all add
  to_map cs = add_all cs []

  abbrev pub default_grant : g.Carrier
  default_grant = g.new g.default_id g.default_value

  abbrev pub from_permission : Permission → g.Carrier
  from_permission p = g.new p.id p.name

  unfoldable pub to_create_step : GrantMap → Permission → GrantMap → GrantMap
  to_create_step m p acc =
      if p.name == g.default_value
      then acc
      else if has p.name m
      then acc
      else insert p.name (from_permission p) acc

  unfoldable pub to_create_onto : GrantMap → Dict String Permission → GrantMap → GrantMap
  to_create_onto m [] acc = acc
  to_create_onto m ((_, p) ∷ ps) acc = to_create_onto m ps (to_create_step m p acc)

  unfoldable pub to_disable_step : Permissions → g.Carrier → GrantMap → GrantMap
  to_disable_step desired c acc =
      if has (g.value c) desired then acc else insert (g.value c) (g.set_enabled false c) acc

  unfoldable pub to_disable_onto : Permissions → Dict String g.Carrier → GrantMap → GrantMap
  to_disable_onto desired [] acc = acc
  to_disable_onto desired ((_, c) ∷ m) acc =
      to_disable_onto desired m (to_disable_step desired c acc)

  unfoldable pub unmodified_step : GrantMap → GrantMap → g.Carrier → GrantMap → GrantMap
  unmodified_step create disable c acc =
      if has (g.value c) create || has (g.value c) disable
      then acc
      else insert (g.value c) (g.new (g.id c) (g.value c)) acc

  unfoldable pub unmodified_onto : GrantMap → GrantMap → Dict String g.Carrier → GrantMap → GrantMap
  unmodified_onto create disable [] acc = acc
  unmodified_onto create disable ((_, c) ∷ m) acc =
      unmodified_onto create disable m (unmodified_step create disable c acc)

  -- `EnsureDefaultAppRoleIsEnabled`, `EnsureDefaultScopeIsEnabled`
  unfoldable pub ensure_default_is_enabled : List g.Carrier → List g.Carrier
  ensure_default_is_enabled [] = []
  ensure_default_is_enabled (c ∷ cs) =
      (if g.value c == g.default_value
        then (if g.is_enabled c then c else g.set_enabled true c)
        else c)
      ∷ ensure_default_is_enabled cs

  unfoldable pub remove_disabled : List g.Carrier → List g.Carrier
  remove_disabled [] = []
  remove_disabled (c ∷ cs) =
      let rest = remove_disabled cs in if g.is_enabled c then c ∷ rest else rest

  module _ (it : Iteration) where
    unfoldable pub to_slice : GrantMap → List g.Carrier
    to_slice m = values (it.range g.Carrier m)

    unfoldable pub to_create : GrantMap → Permissions → GrantMap
    unfolding to_create_onto to_create_step
    to_create m desired =
        to_create_onto m (it.range Permission desired)
          (if has g.default_value m then [] else insert g.default_value default_grant [])

    unfoldable pub to_disable : GrantMap → Permissions → GrantMap
    unfolding to_disable_onto to_disable_step
    to_disable m desired = erase g.default_value (to_disable_onto desired (it.range g.Carrier m) [])

    unfoldable pub unmodified : GrantMap → GrantMap → GrantMap → GrantMap
    unfolding unmodified_onto unmodified_step
    unmodified m create disable = unmodified_onto create disable (it.range g.Carrier m) []

    -- `DescribeCreate(desired).GetResult()`
    unfoldable pub describe_create : Permissions → List g.Carrier
    describe_create desired = to_slice (to_create [] desired)

    -- The slice that `DescribeUpdate` builds, before it is passed to the `Ensure` functions.
    unfoldable pub merged : Permissions → List g.Carrier → List g.Carrier
    merged desired existing =
        let m = to_map existing in
        let create = to_create m desired in
        let disable = to_disable m desired in
        to_slice (unmodified m create disable) ++ (to_slice create ++ to_slice disable)
