-- ===== src/Base/Keyed.antt =====
-- Maps whose entries are stored under a name that they hold themselves, as every map of
-- permissions, roles and scopes is, and lists of such entries read as maps.
use Prim.Native.String.{String}
use mathlib.Core.Path.{◌≡◌, refl, sym, ap, ◌∙◌}
use mathlib.Core.Option.{Option, none, some}
use mathlib.Core.List.{List, [], ◌∷◌, ◌++◌}
use native.Mathlib.Omega.{arith}
use azurerator.Base.Equality.{string_eq}
use azurerator.Base.Dict.{Dict, values, lookup, insert, erase, NodupKeys, Iteration}

-- The entries of `c` hide those of `d`.
abbrev pub either {ℓ} : {A : Type ℓ} → Option A → Option A → Option A
either none o = o
either (some a) _ = some a

module _ {V : Type 0} where
  pub lookup-append :
      (k : String) (c d : Dict String V) → lookup k (c ++ d) ≡ either (lookup k c) (lookup k d)
  unfolding lookup
  lookup-append k [] d = refl
  lookup-append k ((j, v) ∷ c) d = ground (arith, lookup-append k c d)

  -- No key of the one is a key of the other.
  abbrev pub Disjoint : Dict String V → Dict String V → Type 0
  Disjoint [] d = Unit
  Disjoint ((k, _) ∷ c) d = (lookup k d ≡ none) × Disjoint c d

  pub append-NodupKeys :
      (c d : Dict String V) → NodupKeys c → NodupKeys d → Disjoint c d → NodupKeys (c ++ d)
  append-NodupKeys [] d _ u _ = u
  append-NodupKeys ((k, v) ∷ c) d (fresh, w) u (apart, x) =
      (rw (lookup-append, fresh) apart, append-NodupKeys c d w u x)

  pub Disjoint-of_lookup :
      (c d : Dict String V)
      → NodupKeys c
      → ((k : String) (v : V) → lookup k c ≡ some v → lookup k d ≡ none)
      → Disjoint c d
  unfolding lookup
  Disjoint-of_lookup [] d _ h = tt
  Disjoint-of_lookup ((k, v) ∷ c) d (fresh, u) h =
      (h k v (ground arith), Disjoint-of_lookup c d u (λ j w e. h j w (ground arith)))

module _ {V : Type 0} (key : V → String) where
  abbrev pub IsKeyed : Dict String V → Type 0
  IsKeyed [] = Unit
  IsKeyed ((k, v) ∷ d) = (key v ≡ k) × IsKeyed d

  -- A list of entries, read as a map.
  abbrev pub index : List V → Dict String V
  index [] = []
  index (v ∷ vs) = (key v, v) ∷ index vs

  pub index-append : (vs ws : List V) → index (vs ++ ws) ≡ index vs ++ index ws
  index-append [] ws = refl
  index-append (v ∷ vs) ws = ap (λ (d : Dict String V). (key v, v) ∷ d) (index-append vs ws)

  pub index-values : (d : Dict String V) → IsKeyed d → index (values d) ≡ d
  unfolding values
  index-values [] _ = refl
  index-values ((k, v) ∷ d) (e, h) = cc (index-values d h)

  pub key_of_lookup :
      (d : Dict String V) (k : String) (v : V) → IsKeyed d → lookup k d ≡ some v → key v ≡ k
  unfolding lookup
  key_of_lookup [] k v _ h = cc
  key_of_lookup ((j, w) ∷ d) k v (e, u) h = ground (arith, key_of_lookup d k v u)

  pub IsKeyed-of_lookup :
      (d : Dict String V)
      → NodupKeys d
      → ((k : String) (v : V) → lookup k d ≡ some v → key v ≡ k)
      → IsKeyed d
  unfolding lookup
  IsKeyed-of_lookup [] _ h = tt
  IsKeyed-of_lookup ((k, v) ∷ d) (fresh, u) h =
      (h k v (ground arith), IsKeyed-of_lookup d u (λ j w e. h j w (ground arith)))

  pub insert-IsKeyed :
      (k : String) (v : V) (d : Dict String V) → key v ≡ k → IsKeyed d → IsKeyed (insert k v d)
  unfolding insert
  insert-IsKeyed k v [] e _ = (e, tt)
  insert-IsKeyed k v ((j, w) ∷ d) e (f, u) = ground (arith, insert-IsKeyed k v d e u)

  pub erase-IsKeyed : (k : String) (d : Dict String V) → IsKeyed d → IsKeyed (erase k d)
  unfolding erase
  erase-IsKeyed k [] _ = tt
  erase-IsKeyed k ((j, w) ∷ d) (f, u) = ground (arith, erase-IsKeyed k d u)

  pub range-IsKeyed :
      (it : Iteration) (d : Dict String V) → NodupKeys d → IsKeyed d → IsKeyed (it.range V d)
  range-IsKeyed it d u h =
      IsKeyed-of_lookup (it.range V d) (it.range-NodupKeys V d u)
        λ k v e. key_of_lookup d k v h (sym (it.lookup-range V d k u) ∙ e)
