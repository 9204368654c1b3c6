-- ===== src/Controller/Processed.antt =====
-- What a completed synchronization leaves of the annotations that asked for it.
use azurerator.Base.{
  String, ◌≡◌, ◌≢◌, refl, ap, ◌∙◌, true, false, Option, none, some, List, [], ◌∷◌, ◌==◌, string_eq,
  arith, Bool-cases, Option-cases, inl, inr, eq_self,
}
use azurerator.Base.Dict.{
  Dict, lookup, lookup-insert, insert, insert-NodupKeys, erase-NodupKeys, NodupKeys,
}
use azurerator.Base.Keyed.{either}
use azurerator.Base.Text.{split, split-ne-nil}
use azurerator.Base.Exec.{ok}
use azurerator.Crd.{AzureAdApplication}
use azurerator.Annotations.{
  Annotations, has_annotation, remove_annotation, remove_from_annotation, without_first,
  resynchronize_key, rotate_key,
}
use azurerator.Annotations.Laws.{entries, entries_of, dequeue, entries-remove_from_annotation}
use azurerator.Annotations.Queue.{entries-remove_annotation}
use azurerator.Options.{has_resynchronize_annotation, has_rotate_annotation}
use azurerator.Controller.{copy, copy_onto, without_processed}

lookup-copy_onto :
    (k : String) (target source : Dict String String)
    → NodupKeys source
    → lookup k (copy_onto target source) ≡ either (lookup k source) (lookup k target)
unfolding copy_onto lookup
lookup-copy_onto k target [] u = refl
lookup-copy_onto k target ((j, v) ∷ source) (fresh, u) =
    ground
      (arith, lookup-copy_onto k (insert j v target) source u, lookup-insert k j v target, fresh)

pub copy_onto-NodupKeys :
    (target source : Dict String String) → NodupKeys target → NodupKeys (copy_onto target source)
unfolding copy_onto
copy_onto-NodupKeys target [] u = u
copy_onto-NodupKeys target ((j, v) ∷ source) u =
    copy_onto-NodupKeys (insert j v target) source (insert-NodupKeys j v target u)

-- No key is annotated twice, and there is a map.
abbrev pub IsMap : Annotations → Type 0
IsMap none = Unit
IsMap (some d) = NodupKeys d

remove_annotation-IsMap :
    (a : Annotations) (key : String) → IsMap a → IsMap (remove_annotation a key)
unfolding remove_annotation
remove_annotation-IsMap none key u = u
remove_annotation-IsMap (some d) key u = elim (Option-cases (lookup key d)) [
  | inl e ↦ rw (IsMap, e) u
  | inr (v, e) ↦ rw (IsMap, e) (erase-NodupKeys key d u)
]

remove_from_annotation-IsMap :
    (a : Annotations) (key : String) → IsMap a → IsMap (remove_from_annotation a key)
unfolding remove_from_annotation
remove_from_annotation-IsMap none key u = u
remove_from_annotation-IsMap (some d) key u = elim (Option-cases (lookup key d)) [
  | inl e ↦ rw (IsMap, e) u
  | inr (v, e) ↦ elim (Option-cases (without_first (split v))) [
    | inl f ↦ rw (IsMap, e, f) (erase-NodupKeys key d u)
    | inr (rest, f) ↦ rw (IsMap, e, f) (insert-NodupKeys key rest d u)
  ]
]

pub without_processed-IsMap :
    (app : AzureAdApplication) (a : Annotations) → IsMap a → IsMap (without_processed app a)
unfolding without_processed
without_processed-IsMap app a u = elim (Bool-cases (has_resynchronize_annotation app)) [
  | inl e ↦ elim (Bool-cases (has_rotate_annotation app)) [
    | inl f ↦
        rw (e, f)
          (remove_annotation-IsMap _ rotate_key
            (remove_from_annotation-IsMap a resynchronize_key u))
    | inr f ↦ rw (e, f) (remove_from_annotation-IsMap a resynchronize_key u)
  ]
  | inr e ↦ elim (Bool-cases (has_rotate_annotation app)) [
    | inl f ↦ rw (e, f) (remove_annotation-IsMap a rotate_key u)
    | inr f ↦ rw (e, f) u
  ]
]

pub other_key : (resynchronize_key == rotate_key) ≡ false
unfolding string_eq
other_key = refl

-- The requests for a synchronization that are left.
pub entries-without_processed :
    (app : AzureAdApplication) (a : Annotations)
    → has_resynchronize_annotation app ≡ true
    → entries (without_processed app a) resynchronize_key ≡ dequeue (entries a resynchronize_key)
unfolding without_processed
entries-without_processed app a h = elim (Bool-cases (has_rotate_annotation app)) [
  | inl e ↦
      rw (h, e)
        (entries-remove_annotation rotate_key (remove_from_annotation a resynchronize_key)
            resynchronize_key
          ∙ rw (other_key, entries-remove_from_annotation, eq_self resynchronize_key))
  | inr e ↦
      rw (h, e)
        (entries-remove_from_annotation a resynchronize_key resynchronize_key
          ∙ rw (eq_self resynchronize_key))
]

-- A copy has what its source has, and else what its target has.
pub has_annotation-copy :
    (target source merged : Annotations) (key : String)
    → IsMap source
    → copy target source ≡ ok merged
    → has_annotation merged key ≡ either (has_annotation source key) (has_annotation target key)
unfolding copy has_annotation lookup
has_annotation-copy none none merged key u h = let e : none ≡ merged = cc h in rw (← e)
has_annotation-copy none (some []) merged key u h = let e : none ≡ merged = cc h in rw (← e)
has_annotation-copy none (some (_ ∷ _)) merged key u h = cc h
has_annotation-copy (some d) none merged key u h = let e : some d ≡ merged = cc h in rw (← e)
has_annotation-copy (some d) (some source) merged key u h =
    let e : some (copy_onto d source) ≡ merged = cc h in rw (← e) (lookup-copy_onto key d source u)

-- The entries of the first, if it has any, and else those of the second.
abbrev pub first_of : List String → List String → List String
first_of [] ys = ys
first_of (x ∷ xs) ys = x ∷ xs

first_of-ne-nil : (xs ys : List String) → xs ≢ [] → xs ≡ first_of xs ys
first_of-ne-nil [] ys h = absurd (h refl)
first_of-ne-nil (x ∷ xs) ys h = refl

first_of-split : (v : String) (ys : List String) → split v ≡ first_of (split v) ys
first_of-split v ys = first_of-ne-nil (split v) ys (split-ne-nil v)

pub entries_of-either :
    (o p : Option String) → entries_of (either o p) ≡ first_of (entries_of o) (entries_of p)
entries_of-either none p = refl
entries_of-either (some v) p = first_of-split v (entries_of p)

-- Suppose that no key is annotated twice, and that the copy of the annotations succeeds. Once a
-- synchronization that an annotation asked for has completed, the requests that the reconciler read
-- are left but for the first; if it read just one, those of the current annotations are left but for
-- the first. So a request that was added meanwhile stays only in the second case.
pub entries-copy :
    (app : AzureAdApplication) (existing merged : Annotations)
    → IsMap app.annotations
    → has_resynchronize_annotation app ≡ true
    → copy (without_processed app existing) (without_processed app app.annotations) ≡ ok merged
    → entries merged resynchronize_key
      ≡ first_of
          (dequeue (entries app.annotations resynchronize_key))
          (dequeue (entries existing resynchronize_key))
entries-copy app existing merged u h e =
    ap entries_of (
      has_annotation-copy (without_processed app existing) (without_processed app app.annotations)
        merged resynchronize_key (without_processed-IsMap app app.annotations u) e)
    ∙ entries_of-either (has_annotation (without_processed app app.annotations) resynchronize_key)
        (has_annotation (without_processed app existing) resynchronize_key)
    ∙ rw (entries-without_processed app app.annotations h, entries-without_processed app existing h)
