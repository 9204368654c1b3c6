-- ===== src/Annotations.antt =====
-- pkg/annotations/annotations.go. The functions mutate the annotations of an object; here they
-- return them. `none` is the nil map.
pub mod Laws
pub mod Queue
use azurerator.Base.{
  String, ◌<>◌, Bool, Option, none, some, List, [], ◌∷◌, ◌==◌, string_eq, if◌then◌else◌,
}
use azurerator.Base.Dict.{Dict, lookup, insert, erase}
use azurerator.Base.Text.{split, join, after_last_comma}

abbrev pub preserve_key : String
preserve_key = "azure.nais.io/preserve"

abbrev pub resynchronize_key : String
resynchronize_key = "azure.nais.io/resync"

abbrev pub rotate_key : String
rotate_key = "azure.nais.io/rotate"

abbrev pub stakater_reloader_key : String
stakater_reloader_key = "reloader.stakater.com/match"

abbrev pub Annotations : Type 0
Annotations = Option (Dict String String)

unfoldable pub set_annotation : Annotations → String → String → Annotations
set_annotation none key value = some (insert key value [])
set_annotation (some a) key value = some (insert key value a)

unfoldable pub last_entry : String → String
last_entry s = elim (after_last_comma s) [ none ↦ s | some t ↦ t ]

unfoldable pub has_annotation : Annotations → String → Option String
has_annotation none key = none
has_annotation (some a) key = lookup key a

unfoldable pub add_to_annotation : Annotations → String → String → Annotations
unfolding set_annotation last_entry
add_to_annotation none key value = set_annotation none key value
add_to_annotation (some a) key value = elim (lookup key a) [
  | none ↦ some (insert key value a)
  | some existing ↦
      if last_entry existing == value
      then some a
      else some (insert key (join (existing ∷ value ∷ [])) a)
]

unfoldable pub remove_annotation : Annotations → String → Annotations
remove_annotation none key = none
remove_annotation (some a) key = elim (lookup key a) [ none ↦ some a | some _ ↦ some (erase key a) ]

-- The value without its first entry; `none` if it has no other.
unfoldable pub without_first : List String → Option String
without_first [] = none
without_first (_ ∷ []) = none
without_first (_ ∷ s ∷ more) = some (join (s ∷ more))

unfoldable pub remove_from_annotation : Annotations → String → Annotations
unfolding without_first
remove_from_annotation none key = none
remove_from_annotation (some a) key = elim (lookup key a) [
  | none ↦ some a
  | some existing ↦ elim (without_first (split existing)) [
    | none ↦ some (erase key a)
    | some rest ↦ some (insert key rest a)
  ]
]
