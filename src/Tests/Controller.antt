-- ===== src/Tests/Controller.antt =====
-- Runs of the theorems on the synchronizer and the reconciliation. The state counts the requests.
use azurerator.Base.{
  ℕ, suc, String, ◌≡◌, refl, ap, true, false, not, none, some, [], ◌∷◌, ◌&&◌, ◌==◌, string_eq,
  if◌then◌else◌,
}
use azurerator.Base.Exec.{Failure, ok, err, then_do}
use azurerator.Crd.{AzureAdApplication, Spec, Status}
use azurerator.Annotations.{has_annotation}
use azurerator.Options
use azurerator.Options.{
  Config, TransactionOptions, has_expired_secrets, has_resynchronize_annotation,
  has_rotate_annotation,
}
use azurerator.Synchronizer
use azurerator.Synchronizer.{Event, new_event, updated, needs_resync, synchronize}
use azurerator.Synchronizer.Laws.{
  is_self, any_match, any_current, assigned_of, is_relevant, candidates, resync_each,
  needs_resync_lem, synchronize_lem,
}
use azurerator.Reconciler.{
  Transaction, AzureClient, ApplicationResult, Operation, operation_updated, produced_event, delete,
}
use azurerator.Reconciler.Laws.{produced_event-relevant}
use azurerator.Reconciler.Finalizer
use azurerator.Reconciler.Finalizer.{Cluster, finalizer_name, old_finalizer_name}
use azurerator.Controller.{Environment, completed, reconcile_prepared}
use azurerator.Controller.Laws.{CompleteFails, completed-settled, reconcile_prepared-errors}

abbrev spec : Spec
spec = record {
  pre_authorized_applications =
      record {
        rule = record { application = "b"; namespace = ""; cluster = "" };
        permissions = none;
      }
      ∷ [];
  secret_name = "secret";
  secret_key_prefix = "";
  tenant = "";
  reply_urls = [];
  single_page_application = none;
  group_membership_claims = none;
  logout_url = "";
  claims_groups = none;
  allow_all_users = none;
}

abbrev status : Status
status = record {
  client_id = "client";
  object_id = "object";
  service_principal_id = "principal";
  certificate_key_ids = [];
  password_key_ids = [];
  correlation_id = "";
  pre_authorized_apps = none;
  synchronization_hash = "old";
  synchronization_secret_name = "";
  synchronization_secret_rotation_time = some 100;
  synchronization_state = "";
  synchronization_tenant = "";
  synchronization_tenant_name = "";
  synchronization_time = none;
}

-- It is being deleted, and has the finalizer.
abbrev pub app : AzureAdApplication
app = record {
  name = "a";
  namespace = "team";
  annotations = none;
  finalizers = finalizer_name ∷ [];
  deletion_timestamp = some 50;
  spec = spec;
  status = status;
}

abbrev event : Event
event = new_event "1" updated "b" "team" "dev" "client-b"

needs_resync_example : needs_resync app "dev" event ≡ (
    not (is_self app "dev" event)
    && any_match app "dev" event app.spec.pre_authorized_applications
    && not
        (not (event.application.client_id == "") && any_current app "dev" event (assigned_of app)))
needs_resync_example = needs_resync_lem app "dev" event

abbrev api_server : Synchronizer.Client ℕ
api_server = record {
  list = λ n. (ok (app ∷ []), suc n);
  get = λ namespace name n. (ok app, suc n);
  update = λ a n. (ok tt, suc n);
  retry_on_conflict = λ m. m;
  deployment_correlation_id = "correlation";
}

synchronize_example : synchronize api_server "dev" event 0 ≡ (
    if is_relevant event
    then then_do
        (api_server.list 0).0
        (λ apps. resync_each api_server event (candidates "dev" event apps))
        (api_server.list 0).1
    else (ok tt, 0))
synchronize_example = synchronize_lem api_server "dev" event 0

abbrev options : TransactionOptions
options = record {
  tenant = record { ignore = false };
  process = record {
    synchronize = true;
    azure = record { synchronize = true; cleanup_orphans = false };
    secret = record { rotate = false; valid = true; cleanup = true };
  };
}

abbrev pub transaction : Transaction String
transaction = record {
  instance_ = app;
  exists_in_azure = true;
  options = options;
  used = record { certificate = []; password = [] };
  latest_set = some "set";
  cluster_name = "dev";
  id = "1";
}

abbrev pub result : ApplicationResult
result = record {
  client_id = "client";
  object_id = "object";
  service_principal_id = "principal";
  pre_authorized_apps = record { valid = []; invalid = [] };
  tenant = "tenant";
  result = operation_updated;
}

abbrev own : Event
own = new_event "1" updated "a" "team" "dev" "client"

produced : produced_event transaction result ≡ some own
unfolding produced_event Synchronizer.validate Synchronizer.missing string_eq
produced = refl

produced_event-relevant_example :
    (is_relevant own ≡ true)
    × (needs_resync transaction.instance_ transaction.cluster_name own ≡ false)
produced_event-relevant_example = produced_event-relevant transaction result own produced

-- Graph, which fails to delete.
abbrev azure : AzureClient ℕ String
azure = record {
  exists = λ a n. (ok (some ("client", "object")), suc n);
  get_service_principal = λ a n. (ok "principal", suc n);
  create = λ tx n. (ok result, suc n);
  update = λ tx n. (ok result, suc n);
  get_pre_authorized_apps = λ tx n. (ok (record { valid = []; invalid = [] }), suc n);
  delete = λ tx n. (err Failure.other, suc n);
  add_credentials = λ tx n. (ok ("set", "k", "p"), suc n);
  rotate_credentials = λ tx n. (ok ("set", "k", "p"), suc n);
  delete_expired = λ tx n. (ok tt, suc n);
  delete_unused = λ tx n. (ok tt, suc n);
  purge = λ tx n. (ok tt, suc n);
  validate = λ tx set n. (ok true, suc n);
  event_created_in_azure = "created";
  event_updated_in_azure = "updated";
}

-- The cluster, which refuses a status.
abbrev cluster : Cluster ℕ
cluster = record {
  get = λ namespace name n. (ok app, suc n);
  update = λ a n. (ok tt, suc n);
  update_status = λ a n. (err Failure.bad_request, suc n);
}

abbrev config : Config
config = record {
  cluster_name = "dev";
  tenant_id = "tenant";
  tenant_name = "name";
  tenant_required = false;
  cleanup_orphans = false;
  max_age = 10000;
  cleanup = true;
}

-- The hash is the name of the secret.
abbrev environment : Environment ℕ String
environment = record {
  azure = azure;
  cluster = cluster;
  prepare_secrets = λ a n. (
    ok (record { used = transaction.used; latest_set = some "set"; latest_valid = true }),
    suc n,
  );
  delete_unused_secrets = λ tx n. (ok tt, suc n);
  write_secret = λ tx r set n. (ok tt, suc n);
  new_uuid = λ n. (ok "id", suc n);
  hash = λ a. ok a.spec.secret_name;
  deployment_correlation_id = "correlation";
  event_synchronized = "synchronized";
}

abbrev next : AzureAdApplication
next = record (completed config environment 200 "secret" app) {
  annotations = none;
  finalizers = [];
  deletion_timestamp = none;
}

no_resync : has_resynchronize_annotation next ≡ false
unfolding has_resynchronize_annotation has_annotation completed
no_resync = refl

no_rotate : has_rotate_annotation next ≡ false
unfolding has_rotate_annotation has_annotation completed
no_rotate = refl

not_expired : has_expired_secrets 300 next config.max_age ≡ false
unfolding has_expired_secrets completed
not_expired = refl

completed-settled_example :
    Options.process environment.hash config 300 next true true
    ≡ ok record {
      synchronize = false;
      azure = record { synchronize = false; cleanup_orphans = false };
      secret = record { rotate = false; valid = true; cleanup = true };
    }
unfolding completed
completed-settled_example =
    completed-settled config environment (λ a b e. ap (λ (s : Spec). ok s.secret_name) e) 200
      "secret" "old" app next 300 true true refl refl refl no_resync no_rotate not_expired

-- The same application, when it is not being deleted.
abbrev living : Transaction String
living = record transaction { instance_ = record app { deletion_timestamp = none } }

refused : (reconcile_prepared config environment 200 living 0).0 ≡ err Failure.bad_request
unfolding reconcile_prepared Finalizer.process string_eq
    azurerator.Reconciler.delete_expired_credentials azurerator.Reconciler.validate_credentials
    azurerator.Reconciler.process_azure azurerator.Reconciler.process_secrets
refused = refl

reconcile_prepared-errors_example : CompleteFails config environment 200 Failure.bad_request
reconcile_prepared-errors_example =
    reconcile_prepared-errors config environment 200 living 0 Failure.bad_request refused
