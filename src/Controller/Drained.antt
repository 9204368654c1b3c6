-- ===== src/Controller/Drained.antt =====
-- How completed synchronizations use up the requests in the annotations.
use azurerator.Base.{
  ℕ, zero, suc, ◌≤◌, String, ◌≡◌, refl, ap, ◌∙◌, true, false, none, some, List, [], ◌∷◌, string_eq,
  arith, Bool-cases, Option-cases, inl, inr, length,
}
use azurerator.Base.Exec.{Result, ok, err}
use azurerator.Crd.{AzureAdApplication}
use azurerator.Annotations.{Annotations, has_annotation, resynchronize_key, rotate_key}
use azurerator.Annotations.Laws.{entries, entries_of, dequeue}
use azurerator.Annotations.Queue.{entries-remove_annotation, has_annotation_of_entries}
use azurerator.Options.{has_resynchronize_annotation, has_rotate_annotation}
use azurerator.Controller.{copy, copy_onto, without_processed}
use azurerator.Controller.Processed.{
  IsMap, without_processed-IsMap, has_annotation-copy, entries_of-either, first_of, entries-copy,
  copy_onto-NodupKeys, other_key,
}

-- The same application with other annotations.
abbrev annotated : AzureAdApplication → Annotations → AzureAdApplication
annotated app a = record app { annotations = a }

-- What completed synchronizations make of the annotations, one after the other, if nothing else
-- writes to them.
unfoldable pub rounds : AzureAdApplication → ℕ → Annotations → Result Annotations
rounds app zero a = ok a
rounds app (suc n) a =
    elim (copy (without_processed (annotated app a) a) (without_processed (annotated app a) a)) [
      | ok b ↦ rounds app n b
      | err e ↦ err e
    ]

copy_same : (a : Annotations) → (b : Annotations) × ((copy a a ≡ ok b) × (IsMap a → IsMap b))
unfolding copy
copy_same none = (none, (refl, λ u. u))
copy_same (some d) = (some (copy_onto d d), (refl, copy_onto-NodupKeys d d))

first_of-same : (xs : List String) → first_of xs xs ≡ xs
first_of-same [] = refl
first_of-same (x ∷ xs) = refl

length-dequeue : (xs : List String) (n : ℕ) → length xs ≤ suc n → length (dequeue xs) ≤ n
length-dequeue [] n h = omega arith
length-dequeue (x ∷ xs) n h = omega arith

not_empty : (n : ℕ) → ¬ (suc n ≤ 0)
not_empty n = omega arith

no_entries : (xs : List String) → length xs ≤ 0 → xs ≡ []
no_entries [] h = refl
no_entries (x ∷ xs) h = absurd (not_empty (length xs) h)

entries-unasked :
    (app : AzureAdApplication) (a : Annotations)
    → has_resynchronize_annotation app ≡ false
    → entries (without_processed app a) resynchronize_key ≡ entries a resynchronize_key
unfolding without_processed
entries-unasked app a h = elim (Bool-cases (has_rotate_annotation app)) [
  | inl e ↦ rw (h, e) (entries-remove_annotation rotate_key a resynchronize_key ∙ rw (other_key))
  | inr e ↦ rw (h, e)
]

no_request :
    (app : AzureAdApplication) (a : Annotations)
    → has_resynchronize_annotation (annotated app a) ≡ false
    → entries a resynchronize_key ≡ []
unfolding has_resynchronize_annotation
no_request app a h = elim (Option-cases (has_annotation a resynchronize_key)) [
  | inl e ↦ rw (e)
  | inr (v, e) ↦ let found : true ≡ false = rw (e) at h in cc found
]

-- A round takes the first request, if there is one.
entries-round :
    (app : AzureAdApplication) (a b : Annotations)
    → IsMap a
    → copy (without_processed (annotated app a) a) (without_processed (annotated app a) a) ≡ ok b
    → entries b resynchronize_key ≡ dequeue (entries a resynchronize_key)
entries-round app a b u e = elim (Bool-cases (has_resynchronize_annotation (annotated app a))) [
  | inl h ↦
      entries-copy (annotated app a) a b u h e
      ∙ first_of-same (dequeue (entries a resynchronize_key))
  | inr h ↦
      let none_left = no_request app a h in
      ap entries_of (
        has_annotation-copy (without_processed (annotated app a) a)
          (without_processed (annotated app a) a) b resynchronize_key
          (without_processed-IsMap (annotated app a) a u) e)
      ∙ entries_of-either (has_annotation (without_processed (annotated app a) a) resynchronize_key)
          (has_annotation (without_processed (annotated app a) a) resynchronize_key)
      ∙ first_of-same (entries (without_processed (annotated app a) a) resynchronize_key)
      ∙ entries-unasked (annotated app a) a h
      ∙ rw (none_left) refl
]

rounds_next :
    (app : AzureAdApplication) (n : ℕ) (a b c : Annotations)
    → copy (without_processed (annotated app a) a) (without_processed (annotated app a) a) ≡ ok b
    → rounds app n b ≡ ok c
    → rounds app (suc n) a ≡ ok c
unfolding rounds copy without_processed has_annotation
rounds_next app n a b c e f = rw (e) f

-- Completed synchronizations drain the requests: if no key is annotated twice and nothing else writes
-- to the annotations, then after as many of them as there are requests, or more, no annotation asks
-- for one.
pub rounds_drain :
    (app : AzureAdApplication) (n : ℕ) (a : Annotations)
    → IsMap a
    → length (entries a resynchronize_key) ≤ n
    → (b : Annotations) × ((rounds app n a ≡ ok b) × (has_annotation b resynchronize_key ≡ none))
unfolding rounds
rounds_drain app zero a u h = (
  a,
  (
    refl,
    has_annotation_of_entries a resynchronize_key (no_entries (entries a resynchronize_key) h),
  ),
)
rounds_drain app (suc n) a u h =
    let (b, (e, keeps)) = copy_same (without_processed (annotated app a) a) in
    let fewer = length-dequeue (entries a resynchronize_key) n h in
    let (c, (f, drained)) =
      rounds_drain app n b (keeps (without_processed-IsMap (annotated app a) a u))
        (rw (entries-round app a b u e) fewer) in
    (c, (rounds_next app n a b c e f, drained))
