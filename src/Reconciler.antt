-- ===== src/Reconciler.antt =====
-- pkg/reconciler/azure/azure.go, the `Process` of pkg/reconciler/secrets/secrets.go, and the
-- transaction and results that they work on (pkg/transaction/transaction.go,
-- pkg/transaction/secrets/secrets.go, pkg/azure/result). The code writes on the instance of its
-- transaction; here a step returns the instance that it leaves. `C` is the type of a set of
-- credentials. Events to the cluster, metrics and logging are left out.
pub mod Laws
pub mod Finalizer
use azurerator.Base.{
  ℕ, String, Bool, true, false, not, Option, none, some, List, [], ◌∷◌, ◌++◌, ◌&&◌, ◌||◌, ◌==◌,
  string_eq, if◌then◌else◌,
}
use azurerator.Base.Exec.{Exec, Result, Failure, ok, err, pure, raise, then_do, ◌>>=◌, ◌>>◌}
use azurerator.Crd.{
  AzureAdApplication, Status, PreAuthorizedAppStatus, PreAuthorizedAppsStatus,
  AccessPolicyInboundRule,
}
use azurerator.Options.{TransactionOptions}
use azurerator.Resources.{Resource}
use azurerator.Synchronizer
use azurerator.Synchronizer.{Event, new_event, created, updated}

pub data Operation : Type 0 where
  operation_created operation_updated operation_not_modified : Operation

pub record PreAuthorizedApps : Type 0 where
  pub valid : List Resource
  pub invalid : List Resource

pub record ApplicationResult : Type 0 where
  pub client_id : String
  pub object_id : String
  pub service_principal_id : String
  pub pre_authorized_apps : PreAuthorizedApps
  pub tenant : String
  pub result : Operation

unfoldable pub is_not_modified : ApplicationResult → Bool
is_not_modified r = elim r.result [ operation_not_modified ↦ true | _ ↦ false ]

unfoldable pub is_modified : ApplicationResult → Bool
is_modified r = elim r.result [
  | operation_created ↦ true
  | operation_updated ↦ true
  | operation_not_modified ↦ false
]

pub record KeyId : Type 0 where
  pub certificate : List String
  pub password : List String

pub record Transaction (C : Type 0) : Type 0 where
  pub instance_ : AzureAdApplication
  pub exists_in_azure : Bool
  pub options : TransactionOptions
  pub used : KeyId
  pub latest_set : Option C
  pub cluster_name : String
  pub id : String

-- The calls of the Azure client; `exists` returns the client ID and the object ID, and the calls
-- that make credentials return them with the key IDs of their current certificate and password.
pub record AzureClient (S C : Type 0) : Type 0 where
  pub exists : AzureAdApplication → Exec S (Option (String × String))
  pub get_service_principal : AzureAdApplication → Exec S String
  pub create : Transaction C → Exec S ApplicationResult
  pub update : Transaction C → Exec S ApplicationResult
  pub get_pre_authorized_apps : Transaction C → Exec S PreAuthorizedApps
  pub delete : Transaction C → Exec S (Unit {0})
  pub add_credentials : Transaction C → Exec S (C × String × String)
  pub rotate_credentials : Transaction C → Exec S (C × String × String)
  pub delete_expired : Transaction C → Exec S (Unit {0})
  pub delete_unused : Transaction C → Exec S (Unit {0})
  pub purge : Transaction C → Exec S (Unit {0})
  pub validate : Transaction C → C → Exec S Bool
  -- Constants of `liberator`.
  pub event_created_in_azure : String
  pub event_updated_in_azure : String

unfoldable pub to_status : List Resource → List PreAuthorizedAppStatus
to_status [] = []
to_status (app ∷ apps) =
    record {
      access_policy_rule = some app.inbound_rule.rule;
      client_id = app.client_id;
      service_principal_object_id = app.object_id;
    }
    ∷ to_status apps

unfoldable pub report_pre_authorized_application_status :
    AzureAdApplication → PreAuthorizedApps → AzureAdApplication
unfolding to_status
report_pre_authorized_application_status app apps = record app {
  status = record app.status {
    pre_authorized_apps =
        some record { assigned = to_status apps.valid; unassigned = to_status apps.invalid };
  };
}

-- What `ReportEvent` leaves on the instance.
abbrev pub report_event : String → AzureAdApplication → AzureAdApplication
report_event event app = record app { status = record app.status { synchronization_state = event } }

unfoldable pub with_ids : String → String → String → AzureAdApplication → AzureAdApplication
with_ids client_id object_id principal_id app = record app {
  status = record app.status {
    client_id = client_id;
    object_id = object_id;
    service_principal_id = principal_id;
  };
}

unfoldable pub used_with : KeyId → String × String → KeyId
used_with used (certificate, password) = record {
  certificate = used.certificate ++ certificate ∷ [];
  password = used.password ++ password ∷ [];
}

-- The event that `produceEvent` hands to the synchronizer.
unfoldable pub produced_event : {C : Type 0} → Transaction C → ApplicationResult → Option Event
unfolding Synchronizer.validate new_event
produced_event tx r =
    let event = λ (name : String).
      new_event tx.id name tx.instance_.name tx.instance_.namespace tx.cluster_name r.client_id in
    let valid_only = λ (e : Event). if Synchronizer.validate e then some e else none in
    elim r.result [
      | operation_created ↦ valid_only (event created)
      | operation_updated ↦ valid_only (event updated)
      | operation_not_modified ↦ none
    ]

module _ {S C : Type 0} (client : AzureClient S C) where
  unfoldable pub create : Transaction C → Exec S (ApplicationResult × AzureAdApplication)
  unfolding with_ids
  create tx = do
    r ← client.create tx
    pure (
      r,
      with_ids r.client_id r.object_id r.service_principal_id
          (report_event client.event_created_in_azure tx.instance_),
    )

  unfoldable pub update : Transaction C → Exec S (ApplicationResult × AzureAdApplication)
  update tx = do
    r ← client.update tx
    pure (r, report_event client.event_updated_in_azure tx.instance_)

  unfoldable pub not_modified :
      String → Transaction C → Exec S (ApplicationResult × AzureAdApplication)
  not_modified tenant_id tx = do
    apps ← client.get_pre_authorized_apps tx
    pure (
      record {
        client_id = tx.instance_.status.client_id;
        object_id = tx.instance_.status.object_id;
        service_principal_id = tx.instance_.status.service_principal_id;
        pre_authorized_apps = apps;
        tenant = tenant_id;
        result = operation_not_modified;
      },
      tx.instance_,
    )

  unfoldable pub process_azure :
      String → Transaction C → Exec S (ApplicationResult × AzureAdApplication)
  unfolding create update not_modified is_modified report_pre_authorized_application_status
  process_azure tenant_id tx = do
    (r, app) ←
        if not tx.exists_in_azure
        then create tx
        else if tx.options.process.azure.synchronize
        then update tx
        else not_modified tenant_id tx
    pure (
      r,
      if is_modified r
          then report_pre_authorized_application_status app r.pre_authorized_apps
          else app,
    )

  unfoldable pub add_credentials : Transaction C → Exec S (C × KeyId)
  unfolding used_with
  add_credentials tx = do
    (set, certificate, password) ← client.add_credentials tx
    pure (set, used_with tx.used (certificate, password))

  unfoldable pub rotate_credentials : Transaction C → Exec S (C × KeyId)
  unfolding used_with
  rotate_credentials tx = do
    (set, certificate, password) ← client.rotate_credentials tx
    pure (set, used_with tx.used (certificate, password))

  unfoldable pub delete_expired_credentials : Transaction C → Exec S (Unit {0})
  delete_expired_credentials tx =
      if not tx.exists_in_azure then pure tt else client.delete_expired tx

  unfoldable pub purge_credentials : Transaction C → Exec S (Unit {0})
  purge_credentials tx = if not tx.exists_in_azure then pure tt else client.purge tx

  unfoldable pub validate_credentials : Transaction C → Exec S Bool
  validate_credentials tx =
      if not tx.exists_in_azure || not tx.options.process.secret.valid
      then pure false
      else elim tx.latest_set [
        | none ↦ raise Failure.nil_pointer
        | some set ↦ client.validate tx set
      ]

  unfoldable pub delete : Transaction C → Exec S (Unit {0})
  delete tx = if not tx.exists_in_azure then pure tt else client.delete tx

  unfoldable pub exists : AzureAdApplication → Exec S (Bool × AzureAdApplication)
  unfolding with_ids
  exists app = do
    found ← client.exists app
    (elim found [
      | none ↦ pure (false, app)
      | some (client_id, object_id) ↦ do
        principal ←
            client.get_service_principal
              (with_ids client_id object_id app.status.service_principal_id app)
        pure (true, with_ids client_id object_id principal app)
    ])

  unfoldable pub process_orphaned : Transaction C → Exec S (Unit {0})
  unfolding delete
  process_orphaned tx =
      if not tx.exists_in_azure
      then pure tt
      else if tx.options.process.azure.cleanup_orphans
      then delete tx
      else pure tt

  -- The credentials of `Secrets.Process`, with the key IDs in use.
  unfoldable pub credentials_for : Transaction C → Exec S (C × KeyId)
  unfolding add_credentials rotate_credentials
  credentials_for tx =
      if not tx.options.process.secret.valid
      then add_credentials tx
      else if tx.options.process.secret.rotate
      then rotate_credentials tx
      else elim tx.latest_set [ none ↦ raise Failure.nil_pointer | some set ↦ pure (set, tx.used) ]

  -- `write_secret` is `createOrUpdate` for the transaction, and `now` the time of the clock.
  unfoldable pub process_secrets :
      (ApplicationResult → C → Exec S (Unit {0}))
      → ℕ
      → Transaction C
      → ApplicationResult
      → Exec S AzureAdApplication
  unfolding credentials_for is_not_modified
  process_secrets write_secret now tx r =
      let secret = tx.options.process.secret in
      if secret.valid && not secret.rotate && is_not_modified r then pure tx.instance_ else do
        (set, used) ← credentials_for tx
        write_secret r set
        pure (
            if not secret.valid || secret.rotate
            then record tx.instance_ {
              status = record tx.instance_.status {
                certificate_key_ids = used.certificate;
                password_key_ids = used.password;
                synchronization_secret_rotation_time = some now;
              };
            }
            else tx.instance_)
