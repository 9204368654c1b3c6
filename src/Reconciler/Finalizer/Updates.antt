-- ===== src/Reconciler/Finalizer/Updates.antt =====
-- What an update of an application's finalizers leaves.
use azurerator.Base.{
  String, ◌≡◌, refl, ◌∙◌, Bool, true, false, not, List, [], ◌∷◌, ◌++◌, ◌&&◌, ◌==◌, ◌⊎◌, contains,
  string_eq, arith, if◌then◌else◌, inl, inr, eq_self,
}
use azurerator.Base.Dict.{is_some}
use azurerator.Base.Exec.{Exec, Failure, ok, err, Result-cases}
use azurerator.Crd.{AzureAdApplication}
use azurerator.Annotations.{has_annotation, preserve_key}
use azurerator.Registered.Laws.{contains-append}
use azurerator.Reconciler.{Transaction, AzureClient}
use azurerator.Reconciler.Finalizer.{
  Cluster, finalizer_name, old_finalizer_name, without, update_application,
}

contains-without :
    (name other : String) (fs : List String)
    → contains (without name fs) other ≡ (contains fs other && not (other == name))
contains-without name other [] = refl
contains-without name other (f ∷ fs) = ground (arith, contains-without name other fs)

-- The finalizers with one more, unless they have it.
abbrev pub with_finalizer : String → List String → List String
with_finalizer name fs = if contains fs name then fs else fs ++ name ∷ []

pub contains-with_finalizer :
    (name other : String) (fs : List String)
    → contains fs other ≡ true
    → contains (with_finalizer name fs) other ≡ true
contains-with_finalizer name other fs h = ground (arith, contains-append fs (name ∷ []) other)

-- The finalizers without the two of the controller.
abbrev pub remove_both : List String → List String
remove_both fs = without old_finalizer_name (without finalizer_name fs)

pub contains-remove_both :
    (fs : List String)
    → (contains (remove_both fs) finalizer_name ≡ false)
      × (contains (remove_both fs) old_finalizer_name ≡ false)
contains-remove_both fs = (
  rw (contains-without, contains-without, eq_self finalizer_name) (ground arith),
  rw (contains-without, eq_self old_finalizer_name) (ground arith),
)

-- Whether an application's registration in Azure is to be preserved when the application is deleted.
abbrev pub to_preserve : AzureAdApplication → Bool
to_preserve app = is_some (has_annotation app.annotations preserve_key)

-- What the requests of a transaction do. `stored` is the finalizers of the application that the
-- cluster stores, none if it stores no application, and `Cleaned` says of a state of Azure that the
-- credentials are purged (`true`) or that the application is deleted (`false`). Requests to Azure
-- leave the cluster alone and the other way round, and those that succeed do what they are for; an
-- update that fails may have been made.
pub record Effects {S C : Type 0} (client : AzureClient S C) (cluster : Cluster S)
    (tx : Transaction C) (stored : S → List String) (Cleaned : Bool → S → Type 0) : Type 0 where
  pub delete_keeps : (s : S) → stored (client.delete tx s).1 ≡ stored s
  pub purge_keeps : (s : S) → stored (client.purge tx s).1 ≡ stored s
  pub deletes : (s : S) → (client.delete tx s).0 ≡ ok tt → Cleaned false (client.delete tx s).1
  pub purges : (s : S) → (client.purge tx s).0 ≡ ok tt → Cleaned true (client.purge tx s).1
  pub reads :
      (s : S) (a : AzureAdApplication)
      → (cluster.get tx.instance_.namespace tx.instance_.name s).0 ≡ ok a
      → (a.namespace ≡ tx.instance_.namespace)
        × (a.name ≡ tx.instance_.name)
        × (a.finalizers ≡ stored s)
  pub misses :
      (s : S)
      → (cluster.get tx.instance_.namespace tx.instance_.name s).0 ≡ err Failure.not_found
      → stored s ≡ []
  pub reading_keeps :
      (s : S) → stored (cluster.get tx.instance_.namespace tx.instance_.name s).1 ≡ stored s
  pub reading_cleaned :
      (b : Bool) (s : S)
      → Cleaned b s
      → Cleaned b (cluster.get tx.instance_.namespace tx.instance_.name s).1
  pub updates :
      (a : AzureAdApplication) (s : S)
      → a.namespace ≡ tx.instance_.namespace
      → a.name ≡ tx.instance_.name
      → (cluster.update a s).0 ≡ ok tt
      → stored (cluster.update a s).1 ≡ a.finalizers
  pub updates_or_not :
      (a : AzureAdApplication) (s : S)
      → a.namespace ≡ tx.instance_.namespace
      → a.name ≡ tx.instance_.name
      → (stored (cluster.update a s).1 ≡ a.finalizers) ⊎ (stored (cluster.update a s).1 ≡ stored s)
  pub updating_cleaned :
      (b : Bool) (a : AzureAdApplication) (s : S) → Cleaned b s → Cleaned b (cluster.update a s).1

module _ {S C : Type 0} (cluster : Cluster S) (tx : Transaction C) where
  -- What is read of the application.
  abbrev pub read : Exec S AzureAdApplication
  read = cluster.get tx.instance_.namespace tx.instance_.name

  -- An update of the application with a change of its finalizers.
  abbrev pub updated : (List String → List String) → Exec S (Unit {0})
  updated g =
      update_application cluster tx.instance_
        λ existing. cluster.update (record existing { finalizers = g existing.finalizers })

module _ {S C : Type 0} (client : AzureClient S C) (cluster : Cluster S) (tx : Transaction C)
    (stored : S → List String) (Cleaned : Bool → S → Type 0)
    (effects : Effects client cluster tx stored Cleaned) where
  missed :
      (g : List String → List String) (s : S) (x : Failure)
      → (read cluster tx s).0 ≡ err x
      → (((read cluster tx s).0 ≡ err Failure.not_found)
          × (updated cluster tx g s ≡ (ok tt, (read cluster tx s).1)))
        ⊎ (updated cluster tx g s ≡ (err Failure.other, (read cluster tx s).1))
  unfolding update_application
  missed g s x e =
      elim x
          as (λ x.
            (read cluster tx s).0 ≡ err x
            → (((read cluster tx s).0 ≡ err Failure.not_found)
                × (updated cluster tx g s ≡ (ok tt, (read cluster tx s).1)))
              ⊎ (updated cluster tx g s ≡ (err Failure.other, (read cluster tx s).1))) [
                | Failure.not_found ↦ λ e. inl (e, rw (update_application, e) refl)
                | _ ↦ λ e. inr (rw (update_application, e) refl)
              ]
        e

  updated-cases :
      (g : List String → List String) (s : S)
      → ((a : AzureAdApplication) × ((read cluster tx s).0 ≡ ok a)
          × (updated cluster tx g s
              ≡ cluster.update (record a { finalizers = g a.finalizers }) (read cluster tx s).1))
        ⊎ (((read cluster tx s).0 ≡ err Failure.not_found)
            × (updated cluster tx g s ≡ (ok tt, (read cluster tx s).1)))
        ⊎ (updated cluster tx g s ≡ (err Failure.other, (read cluster tx s).1))
  unfolding update_application
  updated-cases g s = elim (Result-cases (read cluster tx s).0) [
    | inl (a, e) ↦ inl (a, e, rw (update_application, e) refl)
    | inr (x, e) ↦ inr (missed g s x e)
  ]

  pub updated-cleaned :
      (b : Bool) (g : List String → List String) (s : S)
      → Cleaned b s
      → Cleaned b (updated cluster tx g s).1
  updated-cleaned b g s c = elim (updated-cases g s) [
    | inl (a, e, f) ↦ rw (f) (effects.updating_cleaned b _ _ (effects.reading_cleaned b s c))
    | inr (inl (e, f)) ↦ rw (f) (effects.reading_cleaned b s c)
    | inr (inr f) ↦ rw (f) (effects.reading_cleaned b s c)
  ]

  pub updated-stored :
      (g : List String → List String) (s : S)
      → (stored (updated cluster tx g s).1 ≡ g (stored s))
        ⊎ (stored (updated cluster tx g s).1 ≡ stored s)
  updated-stored g s = elim (updated-cases g s) [
    | inl (a, e, f) ↦
        let (namespace, name, same) = effects.reads s a e in
        elim (effects.updates_or_not (record a { finalizers = g a.finalizers })
          (read cluster tx s).1 namespace name) [
            | inl u ↦ inl (rw (f, u, same) refl)
            | inr u ↦ inr (rw (f, u) (effects.reading_keeps s))
          ]
    | inr (inl (e, f)) ↦ inr (rw (f) (effects.reading_keeps s))
    | inr (inr f) ↦ inr (rw (f) (effects.reading_keeps s))
  ]

  pub updated-done :
      (g : List String → List String) (s : S)
      → (updated cluster tx g s).0 ≡ ok tt
      → (stored (updated cluster tx g s).1 ≡ g (stored s))
        ⊎ (stored (updated cluster tx g s).1 ≡ [])
  updated-done g s h = elim (updated-cases g s) [
    | inl (a, e, f) ↦
        let (namespace, name, same) = effects.reads s a e in
        let u =
          effects.updates (record a { finalizers = g a.finalizers }) (read cluster tx s).1 namespace
            name (rw (f) at h) in
        inl (rw (f, u, same) refl)
    | inr (inl (e, f)) ↦ inr (rw (f) (effects.reading_keeps s ∙ effects.misses s e))
    | inr (inr f) ↦ let absurd : err Failure.other ≡ ok tt = rw (f) at h in cc absurd
  ]
