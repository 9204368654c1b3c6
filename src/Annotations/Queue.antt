-- ===== src/Annotations/Queue.antt =====
-- The annotations as a queue for each key, which all operations of pkg/annotations keep.
use azurerator.Base.{
  String, ◌≡◌, refl, ap, ◌∙◌, none, some, List, [], ◌∷◌, ◌==◌, string_eq, if◌then◌else◌, arith,
  Option-cases, inl, inr,
}
use azurerator.Base.Dict.{lookup, lookup-insert, lookup-erase, lookup-nil}
use azurerator.Base.Text.{IsEntry, split, split-IsEntry, split-ne-nil}
use azurerator.Annotations.{
  Annotations, set_annotation, has_annotation, add_to_annotation, remove_annotation,
  remove_from_annotation,
}
use azurerator.Annotations.Laws.{
  entries, enqueue, dequeue, entries-add_to_annotation, entries-remove_from_annotation,
}

-- A call of one of the operations that write.
pub data Operation : Type 0 where
  set_to add_entry : String → String → Operation
  clear take_first : String → Operation

abbrev pub perform : Operation → Annotations → Annotations
perform (set_to key value) a = set_annotation a key value
perform (add_entry key value) a = add_to_annotation a key value
perform (clear key) a = remove_annotation a key
perform (take_first key) a = remove_from_annotation a key

abbrev pub perform_all : List Operation → Annotations → Annotations
perform_all [] a = a
perform_all (o ∷ os) a = perform_all os (perform o a)

-- The same on queues.
abbrev pub Queues : Type 0
Queues = String → List String

abbrev pub put : Queues → String → List String → Queues
put q key xs other = if other == key then xs else q other

abbrev pub specified : Operation → Queues → Queues
specified (set_to key value) q = put q key (value ∷ [])
specified (add_entry key value) q = put q key (enqueue (q key) value)
specified (clear key) q = put q key []
specified (take_first key) q = put q key (dequeue (q key))

abbrev pub specified_all : List Operation → Queues → Queues
specified_all [] q = q
specified_all (o ∷ os) q = specified_all os (specified o q)

-- The values that are written are entries.
abbrev pub WritesEntries : List Operation → Type 0
WritesEntries [] = Unit
WritesEntries (set_to key value ∷ os) = IsEntry value × WritesEntries os
WritesEntries (add_entry key value ∷ os) = IsEntry value × WritesEntries os
WritesEntries (clear key ∷ os) = WritesEntries os
WritesEntries (take_first key ∷ os) = WritesEntries os

entries-set_annotation :
    (key value : String) (a : Annotations) (other : String)
    → IsEntry value
    → entries (set_annotation a key value) other ≡ put (entries a) key (value ∷ []) other
unfolding set_annotation has_annotation
entries-set_annotation key value none other h =
    ground (
      arith,
      lookup-insert other key value [],
      lookup-nil {V = String} other,
      split-IsEntry value h,
    )
entries-set_annotation key value (some a) other h =
    ground (arith, lookup-insert other key value a, split-IsEntry value h)

pub entries-remove_annotation :
    (key : String) (a : Annotations) (other : String)
    → entries (remove_annotation a key) other ≡ put (entries a) key [] other
unfolding remove_annotation has_annotation
entries-remove_annotation key none other = ground arith
entries-remove_annotation key (some a) other = elim (Option-cases (lookup key a)) [
  | inl e ↦ ground arith
  | inr (v, e) ↦ ground (arith, lookup-erase other key a)
]

entries-perform :
    (o : Operation) (os : List Operation) (a : Annotations) (other : String)
    → WritesEntries (o ∷ os)
    → entries (perform o a) other ≡ specified o (entries a) other
entries-perform (set_to key value) os a other (w, _) = entries-set_annotation key value a other w
entries-perform (add_entry key value) os a other (w, _) =
    entries-add_to_annotation key value w a other
entries-perform (clear key) os a other _ = entries-remove_annotation key a other
entries-perform (take_first key) os a other _ = entries-remove_from_annotation a key other

rest_writes : (o : Operation) (os : List Operation) → WritesEntries (o ∷ os) → WritesEntries os
rest_writes (set_to key value) os (_, w) = w
rest_writes (add_entry key value) os (_, w) = w
rest_writes (clear key) os w = w
rest_writes (take_first key) os w = w

-- Any sequence of the operations on annotations does to the entries of each key what it does to a
-- queue for each key, if the values that it writes hold no comma: setting makes one entry, adding
-- puts one at the end unless it is there, clearing leaves none and removing takes the first.
pub entries-perform_all :
    (os : List Operation) (a : Annotations) (key : String)
    → WritesEntries os
    → entries (perform_all os a) key ≡ specified_all os (entries a) key
entries-perform_all [] a key w = refl
entries-perform_all (o ∷ os) a key w =
    let one : entries (perform o a) ≡ specified o (entries a) =
      λ i other. entries-perform o os a other w i in
    entries-perform_all os (perform o a) key (rest_writes o os w)
    ∙ ap (λ (q : Queues). specified_all os q key) one

-- A key without entries has no annotation.
pub has_annotation_of_entries :
    (a : Annotations) (key : String) → entries a key ≡ [] → has_annotation a key ≡ none
has_annotation_of_entries a key h = elim (Option-cases (has_annotation a key)) [
  | inl e ↦ e
  | inr (v, e) ↦ let none_left : split v ≡ [] = rw (e) at h in absurd (split-ne-nil v none_left)
]
