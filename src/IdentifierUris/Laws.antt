-- ===== src/IdentifierUris/Laws.antt =====
-- What an update makes of the existing URIs.
use azurerator.Base.{
  String, ◌≡◌, refl, ◌∙◌, true, List, [], ◌∷◌, ◌++◌, ◌||◌, contains, string_eq, arith, Bool-cases,
  inl, inr, eq_self,
}
use azurerator.Crd.{AzureAdApplication}
use azurerator.IdentifierUris.{default_uris, add_unseen, describe_update}

contains-append :
    (xs ys : List String) (k : String) → contains (xs ++ ys) k ≡ (contains xs k || contains ys k)
contains-append [] ys k = refl
contains-append (x ∷ xs) ys k = ground (arith, contains-append xs ys k)

contains-add_unseen :
    (existing uris result : List String) (k : String)
    → (contains existing k ≡ true → contains result k ≡ true)
    → contains (add_unseen existing uris result) k ≡ (contains result k || contains uris k)
unfolding add_unseen
contains-add_unseen existing [] result k h = ground arith
contains-add_unseen existing (uri ∷ uris) result k h = elim (Bool-cases (contains existing uri)) [
  | inl e ↦ rw (e, add_unseen) (ground (arith, contains-add_unseen existing uris result k h))
  | inr e ↦
      rw (e, add_unseen)
        (contains-add_unseen existing uris (result ++ uri ∷ []) k
            (λ p. contains-append result (uri ∷ []) k ∙ rw (h p))
          ∙ rw contains-append (ground arith))
]

-- Every URI of the list is among the existing ones.
abbrev AllSeen : List String → List String → Type 0
AllSeen existing [] = Unit
AllSeen existing (uri ∷ uris) = (contains existing uri ≡ true) × AllSeen existing uris

add_unseen-AllSeen :
    (existing uris result : List String)
    → AllSeen existing uris
    → add_unseen existing uris result ≡ result
unfolding add_unseen
add_unseen-AllSeen existing [] result _ = refl
add_unseen-AllSeen existing (uri ∷ uris) result (h, hs) =
    rw (h, add_unseen) (add_unseen-AllSeen existing uris result hs)

AllSeen-of_contains :
    (existing uris : List String)
    → ((k : String) → contains uris k ≡ true → contains existing k ≡ true)
    → AllSeen existing uris
AllSeen-of_contains existing [] h = tt
AllSeen-of_contains existing (uri ∷ uris) h = (
  h uri (ground (arith, eq_self uri)),
  AllSeen-of_contains existing uris (λ k p. h k (ground arith)),
)

-- An update has the existing URIs and the default ones, and an update of what it has changes
-- nothing more.
pub describe_update-settles :
    (app : AzureAdApplication) (existing : List String) (cluster : String)
    → ((k : String)
        → contains (describe_update app existing cluster) k
          ≡ (contains existing k || contains (default_uris app cluster) k))
      × (describe_update app (describe_update app existing cluster) cluster
          ≡ describe_update app existing cluster)
unfolding describe_update
describe_update-settles app existing cluster =
    let holds =
      λ (k : String). contains-add_unseen existing (default_uris app cluster) existing k (λ p. p) in
    let once = add_unseen existing (default_uris app cluster) existing in
    (
      holds,
      add_unseen-AllSeen once (default_uris app cluster) once (
          AllSeen-of_contains once (default_uris app cluster)
            (λ k p. holds k ∙ rw p (ground arith))),
    )
