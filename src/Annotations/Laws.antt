-- ===== src/Annotations/Laws.antt =====
-- An annotation as a queue of entries: what is added goes to the end, and the first entry is taken.
use azurerator.Base.{
  String, ◌≡◌, ◌≢◌, refl, ◌∙◌, Option, none, some, List, [], ◌∷◌, ◌++◌, arith, ◌==◌, string_eq,
  if◌then◌else◌, Bool-cases, Option-cases, inl, inr,
}
use azurerator.Base.Dict.{lookup, lookup-insert, lookup-erase, lookup-nil}
use azurerator.Base.Text.{
  split, join, last_or, last_or-split, split-join₂, split-join, split-IsEntry, IsEntry, AreEntries,
  split-ne-nil, split-AreEntries,
}
use azurerator.Annotations.{
  Annotations, has_annotation, last_entry, add_to_annotation, remove_from_annotation, without_first,
}

-- The entries under a key.
abbrev pub entries_of : Option String → List String
entries_of none = []
entries_of (some v) = split v

abbrev pub entries : Annotations → String → List String
entries a key = entries_of (has_annotation a key)

-- What adding an entry to a list of them should give: it goes to the end, unless it is the last
-- one already.
abbrev pub enqueue : List String → String → List String
enqueue [] value = value ∷ []
enqueue (s ∷ more) value =
    if last_or "" (s ∷ more) == value then s ∷ more else (s ∷ more) ++ value ∷ []

abbrev pub dequeue : List String → List String
dequeue [] = []
dequeue (_ ∷ more) = more

enqueue-ne-nil :
    (xs : List String) (value : String)
    → xs ≢ []
    → enqueue xs value ≡ (if last_or "" xs == value then xs else xs ++ value ∷ [])
enqueue-ne-nil [] value h = absurd (h refl)
enqueue-ne-nil (s ∷ more) value h = refl

-- What `AddToAnnotation` makes of an existing value.
abbrev extended : String → String → String
extended v value = if last_entry v == value then v else join (v ∷ value ∷ [])

split-extended :
    (v value : String) → IsEntry value → split (extended v value) ≡ enqueue (split v) value
unfolding last_entry join
split-extended v value h =
    rw (enqueue-ne-nil (split v) value (split-ne-nil v), last_or-split "" v)
      (elim (Bool-cases (last_entry v == value)) [
        | inl e ↦ rw e
        | inr e ↦ rw e (split-join₂ v value ∙ rw (split-IsEntry value h))
      ])

module _ (key value : String) (h : IsEntry value) where
  -- `AddToAnnotation` puts an entry that holds no comma at the end of the entries of its key, unless
  -- it is their last already; the entries of every other key stay.
  pub entries-add_to_annotation :
      (a : Annotations) (other : String)
      → entries (add_to_annotation a key value) other
        ≡ (if other == key then enqueue (entries a key) value else entries a other)
  unfolding has_annotation add_to_annotation
  entries-add_to_annotation none other = ground (
    arith,
    lookup-insert other key value [],
    lookup-nil {V = String} other,
    split-IsEntry value h,
  )
  entries-add_to_annotation (some a) other = elim (Option-cases (lookup key a)) [
    | inl e ↦ ground (arith, lookup-insert other key value a, split-IsEntry value h)
    | inr (v, e) ↦
        ground (arith, lookup-insert other key (join (v ∷ value ∷ [])) a, split-extended v value h)
  ]

-- What `RemoveFromAnnotation` leaves of a value.
entries-without_first :
    (parts : List String) → AreEntries parts → entries_of (without_first parts) ≡ dequeue parts
unfolding without_first
entries-without_first [] _ = refl
entries-without_first (s ∷ []) _ = refl
entries-without_first (s ∷ t ∷ more) (_, es) = split-join (t ∷ more) (λ p. cc) es

-- `RemoveFromAnnotation` takes the first entry of its key away, and leaves those of every other key.
pub entries-remove_from_annotation :
    (a : Annotations) (key other : String)
    → entries (remove_from_annotation a key) other
      ≡ (if other == key then dequeue (entries a key) else entries a other)
unfolding has_annotation remove_from_annotation
entries-remove_from_annotation none key other = ground arith
entries-remove_from_annotation (some a) key other = elim (Option-cases (lookup key a)) [
  | inl e ↦ ground arith
  | inr (v, e) ↦ elim (Option-cases (without_first (split v))) [
    | inl f ↦
        ground
          (arith, lookup-erase other key a, entries-without_first (split v) (split-AreEntries v))
    | inr (rest, f) ↦ ground (
      arith,
      lookup-insert other key rest a,
      entries-without_first (split v) (split-AreEntries v),
    )
  ]
]
