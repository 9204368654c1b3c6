-- ===== src/Reconciler/Finalizer.antt =====
-- pkg/reconciler/finalizer/finalizer.go, with `UpdateApplication` of
-- controllers/azureadapplication/azureadapplication_controller.go. The lock of the latter is left
-- out: it orders the updates of one process, and a step here is one update.
pub mod Updates
pub mod Laws
use azurerator.Base.{
  ℕ, String, ◌≡◌, ◌≢◌, refl, ◌∙◌, Bool, true, false, not, Option, none, some, List, [], ◌∷◌, ◌++◌,
  ◌&&◌, ◌||◌, ◌==◌, contains, string_eq, if◌then◌else◌, arith, Bool-cases, inl, inr,
}
use azurerator.Base.Dict.{is_some}
use azurerator.Base.Exec.{
  Exec, Result, Failure, ok, err, pure, raise, then_do, ◌>>=◌, ◌>>◌, Result-cases,
}
use azurerator.Crd.{AzureAdApplication}
use azurerator.Annotations.{has_annotation, preserve_key}
use azurerator.Reconciler.{Transaction, AzureClient, purge_credentials, delete}

abbrev pub finalizer_name : String
finalizer_name = "azure.nais.io/finalizer"

abbrev pub old_finalizer_name : String
old_finalizer_name = "finalizer.azurerator.nais.io"

-- The requests to the cluster: the reader's `Get`, `Update`, and `Status().Update`.
pub record Cluster (S : Type 0) : Type 0 where
  pub get : String → String → Exec S AzureAdApplication
  pub update : AzureAdApplication → Exec S (Unit {0})
  pub update_status : AzureAdApplication → Exec S (Unit {0})

-- `controllerutil.AddFinalizer`
abbrev pub add_finalizer : String → AzureAdApplication → AzureAdApplication
add_finalizer name app = record app {
  finalizers = if contains app.finalizers name then app.finalizers else app.finalizers ++ name ∷ [];
}

abbrev pub without : String → List String → List String
without name [] = []
without name (f ∷ fs) = let rest = without name fs in if f == name then rest else f ∷ rest

-- `controllerutil.RemoveFinalizer`
abbrev pub remove_finalizer : String → AzureAdApplication → AzureAdApplication
remove_finalizer name app = record app { finalizers = without name app.finalizers }

-- The application that is gone is no error, nor is it updated; any other error of `Get` loses its
-- kind, since it is wrapped by `%s`.
unfoldable pub update_application :
    {S : Type 0}
    → Cluster S
    → AzureAdApplication
    → (AzureAdApplication → Exec S (Unit {0}))
    → Exec S (Unit {0})
update_application cluster app f s = elim (cluster.get app.namespace app.name s).0 [
  | ok existing ↦ f existing (cluster.get app.namespace app.name s).1
  | err Failure.not_found ↦ (ok tt, (cluster.get app.namespace app.name s).1)
  | err _ ↦ (err Failure.other, (cluster.get app.namespace app.name s).1)
]

module _ {S C : Type 0} (client : AzureClient S C) (cluster : Cluster S) where
  unfoldable pub register : Transaction C → Exec S (Unit {0})
  unfolding update_application
  register tx =
      update_application cluster tx.instance_
        λ existing. cluster.update (add_finalizer finalizer_name existing)

  -- What is done in Azure before the finalizer goes.
  unfoldable pub clean_up : Transaction C → Exec S (Unit {0})
  unfolding purge_credentials delete
  clean_up tx =
      if is_some (has_annotation tx.instance_.annotations preserve_key)
      then purge_credentials client tx
      else delete client tx

  unfoldable pub finalize : Transaction C → Exec S (Unit {0})
  unfolding clean_up update_application
  finalize tx =
      clean_up tx
      >> update_application cluster tx.instance_ λ existing.
        cluster.update
          (remove_finalizer old_finalizer_name (remove_finalizer finalizer_name existing))

  unfoldable pub process : Transaction C → Exec S Bool
  unfolding finalize register
  process tx =
      let has_finalizer = contains tx.instance_.finalizers finalizer_name in
      let has_old_finalizer = contains tx.instance_.finalizers old_finalizer_name in
      let should_finalize = is_some tx.instance_.deletion_timestamp in
      if (has_finalizer || has_old_finalizer) && should_finalize
      then (finalize tx >> pure true)
      else if not has_finalizer
      then (register tx >> pure true)
      else pure false
