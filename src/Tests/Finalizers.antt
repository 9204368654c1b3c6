-- ===== src/Tests/Finalizers.antt =====
-- Runs of the theorems on finalizers, of an application that is deleted in Azure and then released.
use azurerator.Base.{
  String, ◌≡◌, refl, Bool, true, false, some, List, [], ◌∷◌, contains, string_eq, inl, ◌||◌,
}
use azurerator.Base.Exec.{Failure, ok, err, ok_inj}
use azurerator.Annotations.{has_annotation}
use azurerator.Reconciler.{AzureClient, delete}
use azurerator.Reconciler.Finalizer.{
  Cluster, finalizer_name, old_finalizer_name, update_application, process,
}
use azurerator.Reconciler.Finalizer.Updates.{Effects}
use azurerator.Reconciler.Finalizer.Laws.{process-releases}
use azurerator.Tests.Controller.{app, result, transaction}

-- The finalizers that are stored, and what was done in Azure.
record Systems : Type 0 where
  finalizers : List String
  purged : Bool
  deleted : Bool

abbrev cleaned : Bool → Systems → Bool
cleaned true s = s.purged
cleaned false s = s.deleted

abbrev azure : AzureClient Systems String
azure = record {
  exists = λ a s. (ok (some ("client", "object")), s);
  get_service_principal = λ a s. (ok "principal", s);
  create = λ tx s. (ok result, s);
  update = λ tx s. (ok result, s);
  get_pre_authorized_apps = λ tx s. (ok (record { valid = []; invalid = [] }), s);
  delete = λ tx s. (ok tt, record s { deleted = true });
  add_credentials = λ tx s. (ok ("set", "k", "p"), s);
  rotate_credentials = λ tx s. (ok ("set", "k", "p"), s);
  delete_expired = λ tx s. (ok tt, s);
  delete_unused = λ tx s. (ok tt, s);
  purge = λ tx s. (ok tt, record s { purged = true });
  validate = λ tx set s. (ok true, s);
  event_created_in_azure = "created";
  event_updated_in_azure = "updated";
}

-- It stores one application, with finalizers that change.
abbrev cluster : Cluster Systems
cluster = record {
  get = λ namespace name s. (ok (record app { finalizers = s.finalizers }), s);
  update = λ a s. (ok tt, record s { finalizers = a.finalizers });
  update_status = λ a s. (err Failure.bad_request, s);
}

cleaned-update :
    (b : Bool) (fs : List String) (s : Systems)
    → cleaned b s ≡ true
    → cleaned b (record s { finalizers = fs }) ≡ true
cleaned-update true fs s c = c
cleaned-update false fs s c = c

effects : Effects azure cluster transaction (λ s. s.finalizers) (λ b s. cleaned b s ≡ true)
effects = record {
  delete_keeps = λ s. refl;
  purge_keeps = λ s. refl;
  deletes = λ s e. refl;
  purges = λ s e. refl;
  reads = λ s a e.
      let it : record app { finalizers = s.finalizers } ≡ a = ok_inj _ _ e in
      (rw (← it) refl, rw (← it) refl, rw (← it) refl);
  misses = λ s e. cc e;
  reading_keeps = λ s. refl;
  reading_cleaned = λ b s c. c;
  updates = λ a s namespace name e. refl;
  updates_or_not = λ a s namespace name. inl refl;
  updating_cleaned = λ b a s c. cleaned-update b a.finalizers s c;
}

abbrev start : Systems
start = record {
  finalizers = "other" ∷ old_finalizer_name ∷ finalizer_name ∷ [];
  purged = false;
  deleted = false;
}

has_finalizer :
    (contains transaction.instance_.finalizers finalizer_name
      || contains transaction.instance_.finalizers old_finalizer_name)
    ≡ true
unfolding string_eq
has_finalizer = refl

succeeds : (process azure cluster transaction start).0 ≡ ok true
unfolding process delete update_application string_eq has_annotation
succeeds = refl

process-releases_example :
    (contains (process azure cluster transaction start).1.finalizers finalizer_name ≡ false)
    × (contains (process azure cluster transaction start).1.finalizers old_finalizer_name ≡ false)
process-releases_example =
    process-releases azure cluster transaction (λ s. s.finalizers) (λ b s. cleaned b s ≡ true)
      effects start true has_finalizer refl succeeds
