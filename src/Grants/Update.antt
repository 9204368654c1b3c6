-- ===== src/Grants/Update.antt =====
-- The slice that `DescribeUpdate` returns, name by name.
use azurerator.Base.{
  String, ◌≡◌, refl, ◌∙◌, true, false, Option, none, some, List, [], ◌∷◌, ◌++◌, arith, ◌==◌, ◌||◌,
  string_eq, if◌then◌else◌,
}
use azurerator.Base.Dict.{lookup, has, NodupKeys, Iteration}
use azurerator.Base.Keyed.{
  index, index-append, index-values, lookup-append, append-NodupKeys, Disjoint, Disjoint-of_lookup,
  range-IsKeyed,
}
use azurerator.Permissions.{Permissions}
use azurerator.Permissions.Laws.{IsPermissionSet}
use azurerator.Grants.{
  Grant, IsLawful, GrantMap, to_map, default_grant, from_permission, to_create, to_disable,
  unmodified, to_slice, merged, describe_create, ensure_default_is_enabled,
}
use azurerator.Grants.Laws.{
  IsGrantMap, to_map-IsGrantMap, lookup-to_map, to_create-IsGrantMap, lookup-to_create,
  to_disable-IsGrantMap, lookup-to_disable, unmodified-IsGrantMap, lookup-unmodified,
}

module _ (g : Grant) where
  -- The grant of a name that the code should ask for, from the desired permissions and the first
  -- existing grant of the name.
  abbrev pub wanted : Permissions → String → Option g.Carrier → Option g.Carrier
  wanted desired k none =
      if k == g.default_value
      then some (default_grant g)
      else elim (lookup k desired) [ none ↦ none | some p ↦ some (from_permission g p) ]
  wanted desired k (some c) =
      if k == g.default_value || has k desired
      then some (g.new (g.id c) k)
      else some (g.set_enabled false c)

  module _ (L : IsLawful g) where
    -- What `ensure_default_is_enabled` does to the grant of a name.
    abbrev pub ensured : String → Option g.Carrier → Option g.Carrier
    ensured k none = none
    ensured k (some c) =
        if k == g.default_value
        then some (if g.is_enabled c then c else g.set_enabled true c)
        else some c

    pub lookup-ensure :
        (k : String) (cs : List g.Carrier)
        → lookup k (index g.value (ensure_default_is_enabled g cs))
          ≡ ensured k (lookup k (index g.value cs))
    unfolding ensure_default_is_enabled lookup
    lookup-ensure k [] = refl
    lookup-ensure k (c ∷ cs) = ground (arith, lookup-ensure k cs, L.value-set_enabled true c)

    pub ensure-NodupKeys :
        (cs : List g.Carrier)
        → NodupKeys (index g.value cs)
        → NodupKeys (index g.value (ensure_default_is_enabled g cs))
    unfolding ensure_default_is_enabled
    ensure-NodupKeys [] _ = tt
    ensure-NodupKeys (c ∷ cs) (fresh, u) = ground (
      arith,
      ensure-NodupKeys cs u,
      L.value-set_enabled true c,
      lookup-ensure (g.value c) cs,
      lookup-ensure (g.value (g.set_enabled true c)) cs,
    )

    ensured-wanted :
        (k : String) (desired : Permissions) (o : Option g.Carrier)
        → ensured k (wanted desired k o) ≡ wanted desired k o
    ensured-wanted k desired none = ground (arith, L.is_enabled-new g.default_id g.default_value)
    ensured-wanted k desired (some c) = ground (arith, L.is_enabled-new (g.id c) k)

    module _ (it : Iteration) where
      index-to_slice :
          (m : GrantMap g) → IsGrantMap g m → index g.value (to_slice g it m) ≡ it.range g.Carrier m
      unfolding to_slice
      index-to_slice m s =
          index-values g.value (it.range g.Carrier m) (range-IsKeyed g.value it m s.unique s.named)

      lookup-index-to_slice :
          (k : String) (m : GrantMap g)
          → IsGrantMap g m
          → lookup k (index g.value (to_slice g it m)) ≡ lookup k m
      lookup-index-to_slice k m s = rw index-to_slice (it.lookup-range g.Carrier m k s.unique)

      module _ (desired : Permissions) (s : IsPermissionSet desired) where
        -- A name is created for a new application if it is the default or desired.
        pub lookup-describe_create :
            (k : String)
            → lookup k (index g.value (describe_create g it desired)) ≡ wanted desired k none
        unfolding describe_create lookup
        lookup-describe_create k =
            lookup-index-to_slice k (to_create g it [] desired)
              (to_create-IsGrantMap g L it [] desired)
            ∙ lookup-to_create g L it k [] desired s

        pub describe_create-NodupKeys : NodupKeys (index g.value (describe_create g it desired))
        unfolding describe_create
        describe_create-NodupKeys =
            let m = to_create-IsGrantMap g L it [] desired in
            rw (index-to_slice (to_create g it [] desired) m)
              (it.range-NodupKeys g.Carrier (to_create g it [] desired) m.unique)

        module _ (existing : List g.Carrier) where
          abbrev seen : GrantMap g
          seen = to_map g existing

          abbrev create : GrantMap g
          create = to_create g it seen desired

          abbrev disable : GrantMap g
          disable = to_disable g it seen desired

          abbrev keep : GrantMap g
          keep = unmodified g it seen create disable

          index-merged :
              index g.value (merged g it desired existing)
              ≡ it.range g.Carrier keep ++ (it.range g.Carrier create ++ it.range g.Carrier disable)
          unfolding merged
          index-merged = rw (
            index-append,
            index-append,
            index-to_slice keep (unmodified-IsGrantMap g L it seen create disable),
            index-to_slice create (to_create-IsGrantMap g L it seen desired),
            index-to_slice disable (to_disable-IsGrantMap g L it seen desired),
          )

          lookup-create :
              (k : String) → lookup k create ≡ (if has k seen then none else wanted desired k none)
          lookup-create k = lookup-to_create g L it k seen desired s

          lookup-disable :
              (k : String)
              → lookup k disable ≡ (
                  if k == g.default_value || has k desired
                  then none
                  else elim (lookup k seen) [ none ↦ none | some c ↦ some (g.set_enabled false c) ])
          lookup-disable k = lookup-to_disable g L it k seen desired (to_map-IsGrantMap g existing)

          lookup-keep :
              (k : String)
              → lookup k keep ≡ elim (lookup k seen) [
                | none ↦ none
                | some c ↦
                    if k == g.default_value || has k desired then some (g.new (g.id c) k) else none
              ]
          lookup-keep k =
              lookup-unmodified g L it k seen create disable (to_map-IsGrantMap g existing)
              ∙ ground (arith, lookup-create k, lookup-disable k)

          in_range :
              (k : String) (m : GrantMap g)
              → IsGrantMap g m
              → lookup k (it.range g.Carrier m) ≡ lookup k m
          in_range k m w = it.lookup-range g.Carrier m k w.unique

          pub lookup-merged :
              (k : String)
              → lookup k (index g.value (merged g it desired existing))
                ≡ wanted desired k (lookup k (index g.value existing))
          lookup-merged k =
              rw
                (
                  index-merged,
                  lookup-append,
                  lookup-append,
                  in_range k keep (unmodified-IsGrantMap g L it seen create disable),
                  in_range k create (to_create-IsGrantMap g L it seen desired),
                  in_range k disable (to_disable-IsGrantMap g L it seen desired),
                  lookup-keep,
                  lookup-create,
                  lookup-disable,
                  lookup-to_map,
                )
                (ground arith)

          create_or_disable-Disjoint :
              Disjoint (it.range g.Carrier create) (it.range g.Carrier disable)
          create_or_disable-Disjoint =
              let wc = to_create-IsGrantMap g L it seen desired in
              let wd = to_disable-IsGrantMap g L it seen desired in
              Disjoint-of_lookup (it.range g.Carrier create) (it.range g.Carrier disable)
                (it.range-NodupKeys g.Carrier create wc.unique)
                λ k v e.
                  in_range k disable wd
                  ∙ ground (arith, lookup-create k, lookup-disable k, in_range k create wc)

          keep_or_change-Disjoint :
              Disjoint
                (it.range g.Carrier keep)
                (it.range g.Carrier create ++ it.range g.Carrier disable)
          keep_or_change-Disjoint =
              let wk = unmodified-IsGrantMap g L it seen create disable in
              let wc = to_create-IsGrantMap g L it seen desired in
              let wd = to_disable-IsGrantMap g L it seen desired in
              Disjoint-of_lookup (it.range g.Carrier keep)
                (it.range g.Carrier create ++ it.range g.Carrier disable)
                (it.range-NodupKeys g.Carrier keep wk.unique)
                λ k v e.
                  lookup-append k (it.range g.Carrier create) (it.range g.Carrier disable)
                  ∙ ground (
                    arith,
                    lookup-create k,
                    lookup-disable k,
                    lookup-keep k,
                    in_range k keep wk,
                    in_range k create wc,
                    in_range k disable wd,
                  )

          pub merged-NodupKeys : NodupKeys (index g.value (merged g it desired existing))
          merged-NodupKeys =
              let wk = unmodified-IsGrantMap g L it seen create disable in
              let wc = to_create-IsGrantMap g L it seen desired in
              let wd = to_disable-IsGrantMap g L it seen desired in
              rw index-merged (
                append-NodupKeys _ _ (it.range-NodupKeys g.Carrier keep wk.unique)
                  (append-NodupKeys _ _ (it.range-NodupKeys g.Carrier create wc.unique)
                    (it.range-NodupKeys g.Carrier disable wd.unique) create_or_disable-Disjoint)
                  keep_or_change-Disjoint)

          -- After an update the slice asks, for each name, for what is wanted of it.
          pub lookup-ensure-merged :
              (k : String)
              → lookup k
                  (index g.value (ensure_default_is_enabled g (merged g it desired existing)))
                ≡ wanted desired k (lookup k (index g.value existing))
          lookup-ensure-merged k =
              lookup-ensure k (merged g it desired existing)
              ∙ rw lookup-merged (ensured-wanted k desired (lookup k (index g.value existing)))

          pub ensure-merged-NodupKeys :
              NodupKeys (index g.value (ensure_default_is_enabled g (merged g it desired existing)))
          ensure-merged-NodupKeys = ensure-NodupKeys (merged g it desired existing) merged-NodupKeys
