-- ===== src/Grants/Laws.antt =====
-- What each map of roles or scopes holds under each name.
use azurerator.Base.{
  String, ◌≡◌, refl, ◌∙◌, false, Option, none, some, List, [], ◌∷◌, arith, ◌==◌, ◌||◌, string_eq,
  if◌then◌else◌, Bool-cases, inl, inr,
}
use azurerator.Base.Dict.{
  Dict, lookup, has, insert, erase, NodupKeys, Iteration, lookup-insert, insert-NodupKeys,
  lookup-erase, erase-NodupKeys,
}
use azurerator.Base.Keyed.{IsKeyed, either, index, insert-IsKeyed, erase-IsKeyed, range-IsKeyed}
use azurerator.Permissions.{Permission, Permissions}
use azurerator.Permissions.Laws.{name_of, IsPermissionSet}
use azurerator.Grants.{
  Grant, IsLawful, GrantMap, add, add_all, to_map, default_grant, from_permission, to_create_step,
  to_create_onto, to_create, to_disable_step, to_disable_onto, to_disable, unmodified_step,
  unmodified_onto, unmodified,
}

module _ (g : Grant) where
  -- Every name is listed once, and a grant is listed under its own name.
  pub record IsGrantMap (m : GrantMap g) : Type 0 where
    pub unique : NodupKeys m
    pub named : IsKeyed g.value m

  IsGrantMap-nil : IsGrantMap []
  IsGrantMap-nil = record { unique = tt; named = tt }

  insert-IsGrantMap :
      (k : String) (c : g.Carrier) (m : GrantMap g)
      → g.value c ≡ k
      → IsGrantMap m
      → IsGrantMap (insert k c m)
  insert-IsGrantMap k c m e s = record {
    unique = insert-NodupKeys k c m s.unique;
    named = insert-IsKeyed g.value k c m e s.named;
  }

  erase-IsGrantMap : (k : String) (m : GrantMap g) → IsGrantMap m → IsGrantMap (erase k m)
  erase-IsGrantMap k m s = record {
    unique = erase-NodupKeys k m s.unique;
    named = erase-IsKeyed g.value k m s.named;
  }

  add-IsGrantMap : (c : g.Carrier) (m : GrantMap g) → IsGrantMap m → IsGrantMap (add g c m)
  unfolding add
  add-IsGrantMap c m s = elim (Bool-cases (has (g.value c) m)) [
    | inl e ↦ rw (e, add) s
    | inr e ↦ rw (e, add) (insert-IsGrantMap (g.value c) c m refl s)
  ]

  lookup-add :
      (k : String) (c : g.Carrier) (m : GrantMap g)
      → lookup k (add g c m) ≡ (if k == g.value c then either (lookup k m) (some c) else lookup k m)
  unfolding add
  lookup-add k c m = ground (arith, lookup-insert k (g.value c) c m)

  add_all-IsGrantMap :
      (cs : List g.Carrier) (m : GrantMap g) → IsGrantMap m → IsGrantMap (add_all g cs m)
  unfolding add_all
  add_all-IsGrantMap [] m s = s
  add_all-IsGrantMap (c ∷ cs) m s = add_all-IsGrantMap cs (add g c m) (add-IsGrantMap c m s)

  lookup-add_all :
      (k : String) (cs : List g.Carrier) (m : GrantMap g)
      → lookup k (add_all g cs m) ≡ either (lookup k m) (lookup k (index g.value cs))
  unfolding add_all lookup
  lookup-add_all k [] m = ground arith
  lookup-add_all k (c ∷ cs) m = lookup-add_all k cs (add g c m) ∙ rw lookup-add (ground arith)

  pub to_map-IsGrantMap : (cs : List g.Carrier) → IsGrantMap (to_map g cs)
  unfolding to_map
  to_map-IsGrantMap cs = add_all-IsGrantMap cs [] IsGrantMap-nil

  -- The map of a list holds the first grant of each name.
  pub lookup-to_map :
      (k : String) (cs : List g.Carrier) → lookup k (to_map g cs) ≡ lookup k (index g.value cs)
  unfolding to_map lookup
  lookup-to_map k cs = lookup-add_all k cs []

  module _ (L : IsLawful g) where
    to_create_step-IsGrantMap :
        (m : GrantMap g) (p : Permission) (acc : GrantMap g)
        → IsGrantMap acc
        → IsGrantMap (to_create_step g m p acc)
    unfolding to_create_step
    to_create_step-IsGrantMap m p acc s = elim (Bool-cases (p.name == g.default_value)) [
      | inl e ↦ rw (e, to_create_step) s
      | inr e ↦ elim (Bool-cases (has p.name m)) [
        | inl f ↦ rw (e, f, to_create_step) s
        | inr f ↦
            rw (e, f, to_create_step)
              (insert-IsGrantMap p.name (from_permission g p) acc (L.value-new p.id p.name) s)
      ]
    ]

    lookup-to_create_step :
        (k : String) (m : GrantMap g) (p : Permission) (acc : GrantMap g)
        → lookup k (to_create_step g m p acc) ≡ (
            if k == p.name
            then (if k == g.default_value
                then lookup k acc
                else if has k m
                then lookup k acc
                else some (from_permission g p))
            else lookup k acc)
    unfolding to_create_step
    lookup-to_create_step k m p acc =
        ground (arith, lookup-insert k p.name (from_permission g p) acc)

    to_create_onto-IsGrantMap :
        (m : GrantMap g) (d : Dict String Permission) (acc : GrantMap g)
        → IsGrantMap acc
        → IsGrantMap (to_create_onto g m d acc)
    unfolding to_create_onto
    to_create_onto-IsGrantMap m [] acc s = s
    to_create_onto-IsGrantMap m ((_, p) ∷ d) acc s =
        to_create_onto-IsGrantMap m d (to_create_step g m p acc)
          (to_create_step-IsGrantMap m p acc s)

    abbrev created : GrantMap g → String → Option Permission → Option g.Carrier → Option g.Carrier
    created m k none old = old
    created m k (some p) old =
        if k == g.default_value then old else if has k m then old else some (from_permission g p)

    lookup-to_create_onto :
        (k : String) (m : GrantMap g) (d : Dict String Permission) (acc : GrantMap g)
        → NodupKeys d
        → IsKeyed name_of d
        → lookup k (to_create_onto g m d acc) ≡ created m k (lookup k d) (lookup k acc)
    unfolding to_create_onto lookup
    lookup-to_create_onto k m [] acc _ _ = refl
    lookup-to_create_onto k m ((j, p) ∷ d) acc (fresh, u) (e, h) =
        lookup-to_create_onto k m d (to_create_step g m p acc) u h
        ∙ rw lookup-to_create_step (ground arith)

    to_disable_step-IsGrantMap :
        (desired : Permissions) (c : g.Carrier) (acc : GrantMap g)
        → IsGrantMap acc
        → IsGrantMap (to_disable_step g desired c acc)
    unfolding to_disable_step
    to_disable_step-IsGrantMap desired c acc s = elim (Bool-cases (has (g.value c) desired)) [
      | inl e ↦ rw (e, to_disable_step) s
      | inr e ↦
          rw (e, to_disable_step)
            (insert-IsGrantMap (g.value c) (g.set_enabled false c) acc (L.value-set_enabled false c)
              s)
    ]

    to_disable_onto-IsGrantMap :
        (desired : Permissions) (d : Dict String g.Carrier) (acc : GrantMap g)
        → IsGrantMap acc
        → IsGrantMap (to_disable_onto g desired d acc)
    unfolding to_disable_onto
    to_disable_onto-IsGrantMap desired [] acc s = s
    to_disable_onto-IsGrantMap desired ((_, c) ∷ d) acc s =
        to_disable_onto-IsGrantMap desired d (to_disable_step g desired c acc)
          (to_disable_step-IsGrantMap desired c acc s)

    abbrev disabled : Permissions → String → Option g.Carrier → Option g.Carrier → Option g.Carrier
    disabled desired k none old = old
    disabled desired k (some c) old = if has k desired then old else some (g.set_enabled false c)

    lookup-to_disable_onto :
        (k : String) (desired : Permissions) (d : Dict String g.Carrier) (acc : GrantMap g)
        → NodupKeys d
        → IsKeyed g.value d
        → lookup k (to_disable_onto g desired d acc)
          ≡ disabled desired k (lookup k d) (lookup k acc)
    unfolding to_disable_onto to_disable_step lookup
    lookup-to_disable_onto k desired [] acc _ _ = refl
    lookup-to_disable_onto k desired ((j, c) ∷ d) acc (fresh, u) (e, h) =
        lookup-to_disable_onto k desired d (to_disable_step g desired c acc) u h
        ∙ ground (arith, lookup-insert k (g.value c) (g.set_enabled false c) acc)

    unmodified_step-IsGrantMap :
        (create disable : GrantMap g) (c : g.Carrier) (acc : GrantMap g)
        → IsGrantMap acc
        → IsGrantMap (unmodified_step g create disable c acc)
    unfolding unmodified_step
    unmodified_step-IsGrantMap create disable c acc s =
        elim (Bool-cases (has (g.value c) create || has (g.value c) disable)) [
          | inl e ↦ rw (e, unmodified_step) s
          | inr e ↦
              rw (e, unmodified_step)
                (insert-IsGrantMap (g.value c) (g.new (g.id c) (g.value c)) acc
                  (L.value-new (g.id c) (g.value c)) s)
        ]

    unmodified_onto-IsGrantMap :
        (create disable : GrantMap g) (d : Dict String g.Carrier) (acc : GrantMap g)
        → IsGrantMap acc
        → IsGrantMap (unmodified_onto g create disable d acc)
    unfolding unmodified_onto
    unmodified_onto-IsGrantMap create disable [] acc s = s
    unmodified_onto-IsGrantMap create disable ((_, c) ∷ d) acc s =
        unmodified_onto-IsGrantMap create disable d (unmodified_step g create disable c acc)
          (unmodified_step-IsGrantMap create disable c acc s)

    abbrev kept :
        GrantMap g → GrantMap g → String → Option g.Carrier → Option g.Carrier → Option g.Carrier
    kept create disable k none old = old
    kept create disable k (some c) old =
        if has k create || has k disable then old else some (g.new (g.id c) k)

    lookup-unmodified_onto :
        (k : String) (create disable : GrantMap g) (d : Dict String g.Carrier) (acc : GrantMap g)
        → NodupKeys d
        → IsKeyed g.value d
        → lookup k (unmodified_onto g create disable d acc)
          ≡ kept create disable k (lookup k d) (lookup k acc)
    unfolding unmodified_onto unmodified_step lookup
    lookup-unmodified_onto k create disable [] acc _ _ = refl
    lookup-unmodified_onto k create disable ((j, c) ∷ d) acc (fresh, u) (e, h) =
        lookup-unmodified_onto k create disable d (unmodified_step g create disable c acc) u h
        ∙ ground (arith, lookup-insert k (g.value c) (g.new (g.id c) (g.value c)) acc)

    module _ (it : Iteration) where
      default_map : GrantMap g → GrantMap g
      default_map m =
          if has g.default_value m then [] else insert g.default_value (default_grant g) []

      default_map-IsGrantMap : (m : GrantMap g) → IsGrantMap (default_map m)
      unfolding default_map
      default_map-IsGrantMap m = elim (Bool-cases (has g.default_value m)) [
        | inl e ↦ rw (e, default_map) IsGrantMap-nil
        | inr e ↦
            rw (e, default_map)
              (insert-IsGrantMap g.default_value (default_grant g) []
                (L.value-new g.default_id g.default_value) IsGrantMap-nil)
      ]

      pub to_create-IsGrantMap :
          (m : GrantMap g) (desired : Permissions) → IsGrantMap (to_create g it m desired)
      unfolding to_create default_map
      to_create-IsGrantMap m desired =
          to_create_onto-IsGrantMap m (it.range Permission desired) (default_map m)
            (default_map-IsGrantMap m)

      -- A name is created if no grant exists under it and it is the default or desired. The default
      -- has its fixed identifier, any other name that of its permission.
      pub lookup-to_create :
          (k : String) (m : GrantMap g) (desired : Permissions)
          → IsPermissionSet desired
          → lookup k (to_create g it m desired) ≡ (
              if has k m
              then none
              else if k == g.default_value
              then some (default_grant g)
              else elim (lookup k desired) [ none ↦ none | some p ↦ some (from_permission g p) ])
      unfolding to_create lookup insert
      lookup-to_create k m desired s =
          lookup-to_create_onto k m (it.range Permission desired)
            (if has g.default_value m then [] else insert g.default_value (default_grant g) [])
            (it.range-NodupKeys Permission desired s.unique)
            (range-IsKeyed name_of it desired s.unique s.named)
          ∙ rw (it.lookup-range Permission desired k s.unique) (ground arith)

      pub to_disable-IsGrantMap :
          (m : GrantMap g) (desired : Permissions) → IsGrantMap (to_disable g it m desired)
      unfolding to_disable
      to_disable-IsGrantMap m desired =
          erase-IsGrantMap g.default_value _
            (to_disable_onto-IsGrantMap desired (it.range g.Carrier m) [] IsGrantMap-nil)

      -- An existing grant is disabled if it is neither the default nor desired.
      pub lookup-to_disable :
          (k : String) (m : GrantMap g) (desired : Permissions)
          → IsGrantMap m
          → lookup k (to_disable g it m desired) ≡ (
              if k == g.default_value || has k desired
              then none
              else elim (lookup k m) [ none ↦ none | some c ↦ some (g.set_enabled false c) ])
      unfolding to_disable lookup
      lookup-to_disable k m desired s =
          lookup-erase k g.default_value (to_disable_onto g desired (it.range g.Carrier m) [])
          ∙ rw
              (
                lookup-to_disable_onto k desired (it.range g.Carrier m) []
                    (it.range-NodupKeys g.Carrier m s.unique)
                    (range-IsKeyed g.value it m s.unique s.named),
                it.lookup-range g.Carrier m k s.unique,
              )
              (ground arith)

      pub unmodified-IsGrantMap :
          (m create disable : GrantMap g) → IsGrantMap (unmodified g it m create disable)
      unfolding unmodified
      unmodified-IsGrantMap m create disable =
          unmodified_onto-IsGrantMap create disable (it.range g.Carrier m) [] IsGrantMap-nil

      -- An existing grant that is neither created nor disabled is made anew with its identifier and
      -- name.
      pub lookup-unmodified :
          (k : String) (m create disable : GrantMap g)
          → IsGrantMap m
          → lookup k (unmodified g it m create disable) ≡ kept create disable k (lookup k m) none
      unfolding unmodified lookup
      lookup-unmodified k m create disable s =
          lookup-unmodified_onto k create disable (it.range g.Carrier m) []
            (it.range-NodupKeys g.Carrier m s.unique) (range-IsKeyed g.value it m s.unique s.named)
          ∙ rw (it.lookup-range g.Carrier m k s.unique)
