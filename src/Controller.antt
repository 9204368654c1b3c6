-- ===== src/Controller.antt =====
-- controllers/azureadapplication/azureadapplication_controller.go. `Environment` has the calls that
-- the modules above do not. The deadline of a reconciliation, events to the cluster, metrics and
-- logging are left out; `now` is what the clock reads.
pub mod Laws
pub mod Processed
pub mod Drained
use azurerator.Base.{
  ℕ, ◌-◌, String, Bool, true, false, not, Option, none, some, List, [], ◌∷◌, ◌&&◌, ◌||◌, ◌==◌, leb,
  string_eq, if◌then◌else◌,
}
use azurerator.Base.Dict.{Dict, insert, is_some}
use azurerator.Base.Exec.{Exec, Result, Failure, ok, err, pure, raise, then_do, ◌>>=◌, ◌>>◌}
use azurerator.Crd.{AzureAdApplication, Status}
use azurerator.Annotations.{
  Annotations, has_annotation, remove_annotation, remove_from_annotation, resynchronize_key,
  rotate_key,
}
use azurerator.Options
use azurerator.Options.{
  Config, TransactionOptions, ProcessOptions, SecretOptions, has_resynchronize_annotation,
  has_rotate_annotation, new_options,
}
use azurerator.Reconciler
use azurerator.Reconciler.{Transaction, AzureClient, ApplicationResult, KeyId, report_event}
use azurerator.Reconciler.Finalizer
use azurerator.Reconciler.Finalizer.{Cluster, update_application}

-- `ctrl.Result`, in seconds.
pub record Outcome : Type 0 where
  pub requeue : Bool
  pub requeue_after : ℕ

abbrev pub done : Outcome
done = record { requeue = false; requeue_after = 0 }

abbrev pub orphaned_secret_cleanup_grace_period : ℕ
orphaned_secret_cleanup_grace_period = 300

-- What `Secrets().Prepare` finds.
pub record Secrets (C : Type 0) : Type 0 where
  pub used : KeyId
  pub latest_set : Option C
  pub latest_valid : Bool

pub record Environment (S C : Type 0) : Type 0 where
  pub azure : AzureClient S C
  pub cluster : Cluster S
  pub prepare_secrets : AzureAdApplication → Exec S (Secrets C)
  pub delete_unused_secrets : Transaction C → Exec S (Unit {0})
  -- `createOrUpdate` of the secrets' reconciler
  pub write_secret : Transaction C → ApplicationResult → C → Exec S (Unit {0})
  pub new_uuid : Exec S String
  pub hash : AzureAdApplication → Result String
  -- Constants of `liberator`.
  pub deployment_correlation_id : String
  pub event_synchronized : String

unfoldable pub is_unrecoverable_error : Failure → Bool
is_unrecoverable_error Failure.already_owned = true
is_unrecoverable_error _ = false

unfoldable pub handle_error : Failure → Outcome
unfolding is_unrecoverable_error
handle_error Failure.namespace_terminating = done
handle_error e = record { requeue = not (is_unrecoverable_error e); requeue_after = 0 }

-- A step of `Reconcile`, whose error goes to `HandleError`.
abbrev pub handled : {S A : Type 0} → Exec S A → (A → Exec S Outcome) → Exec S Outcome
handled m f s = elim (m s).0 [ ok a ↦ f a (m s).1 | err e ↦ (ok (handle_error e), (m s).1) ]

-- `maps.Copy`
unfoldable pub copy_onto : Dict String String → Dict String String → Dict String String
copy_onto target [] = target
copy_onto target ((k, v) ∷ source) = copy_onto (insert k v target) source

unfoldable pub copy : Annotations → Annotations → Result Annotations
unfolding copy_onto
copy none none = ok none
copy none (some []) = ok none
copy none (some (_ ∷ _)) = err Failure.nil_pointer
copy (some target) none = ok (some target)
copy (some target) (some source) = ok (some (copy_onto target source))

-- The annotations that are processed, removed as in `updateAnnotations`.
unfoldable pub without_processed : AzureAdApplication → Annotations → Annotations
unfolding has_resynchronize_annotation has_rotate_annotation
without_processed app a =
    let b =
      if has_resynchronize_annotation app then remove_from_annotation a resynchronize_key else a in
    if has_rotate_annotation app then remove_annotation b rotate_key else b

module _ {S C : Type 0} (config : Config) (env : Environment S C) where
  unfoldable pub correlation_id : AzureAdApplication → Exec S String
  correlation_id app = elim (has_annotation app.annotations env.deployment_correlation_id) [
    | none ↦ env.new_uuid
    | some value ↦ pure value
  ]

  abbrev pub lifted : {A : Type 0} → Result A → Exec S A
  lifted r s = (r, s)

  unfoldable pub prepare : ℕ → String → String → Exec S (Transaction C)
  unfolding correlation_id
  prepare now namespace name = do
    found ← env.cluster.get namespace name
    id ← correlation_id found
    secrets ←
        env.prepare_secrets (record found { status = record found.status { correlation_id = id } })
    let app = record found {
      status = record found.status {
        correlation_id = id;
        certificate_key_ids = secrets.used.certificate;
        password_key_ids = secrets.used.password;
      };
    }
    options ←
        lifted
          (new_options env.hash config now app secrets.latest_valid (is_some secrets.latest_set))
    (in_azure, known) ← Reconciler.exists env.azure app
    pure record {
      instance_ = known;
      exists_in_azure = in_azure;
      options = options;
      used = secrets.used;
      latest_set = secrets.latest_set;
      cluster_name = config.cluster_name;
      id = id;
    }

  unfoldable pub process : ℕ → Transaction C → Exec S AzureAdApplication
  process now tx = do
    (r, app) ← Reconciler.process_azure env.azure config.tenant_id tx
    let after = record tx { instance_ = app }
    Reconciler.process_secrets env.azure (env.write_secret after) now after r

  -- The status that `Complete` writes, for the new hash.
  unfoldable pub completed : ℕ → String → AzureAdApplication → AzureAdApplication
  completed now new_hash app = record app {
    status = record app.status {
      synchronization_state = env.event_synchronized;
      synchronization_secret_name = app.spec.secret_name;
      synchronization_time = some now;
      synchronization_tenant = config.tenant_id;
      synchronization_tenant_name = config.tenant_name;
      synchronization_hash = new_hash;
    };
  }

  unfoldable pub update_status : AzureAdApplication → Exec S (Unit {0})
  update_status app =
      update_application env.cluster app
        λ existing. env.cluster.update_status (record existing { status = app.status })

  unfoldable pub update_annotations : AzureAdApplication → Exec S (Unit {0})
  unfolding copy without_processed
  update_annotations app = update_application env.cluster app λ existing. do
    merged ←
        lifted (
          copy (without_processed app existing.annotations) (without_processed app app.annotations))
    env.cluster.update (record existing { annotations = merged })

  -- `Hash` is taken of the instance whose status is written but for the hash.
  unfoldable pub complete : ℕ → AzureAdApplication → Exec S Outcome
  unfolding completed update_status update_annotations
  complete now app = do
    new_hash ← lifted (env.hash (completed now app.status.synchronization_hash app))
    let after = completed now new_hash app
    update_status after
    update_annotations after
    pure record { requeue = false; requeue_after = orphaned_secret_cleanup_grace_period }

  -- What a failed validation sets in the options.
  unfoldable pub demand_synchronization : Transaction C → Transaction C
  demand_synchronization tx = record tx {
    options = record tx.options {
      process = record tx.options.process {
        synchronize = true;
        secret = record tx.options.process.secret { valid = false };
      };
    };
  }

  -- The requeue of an application that needs no synchronization.
  abbrev pub evaluate_rotation_later : Outcome
  evaluate_rotation_later = record {
    requeue = false;
    requeue_after =
        if leb config.max_age orphaned_secret_cleanup_grace_period
        then config.max_age
        else config.max_age - orphaned_secret_cleanup_grace_period;
  }

  -- `Reconcile` from the validated credentials on.
  unfoldable pub reconcile_validated : ℕ → Transaction C → Exec S Outcome
  unfolding process complete
  reconcile_validated now tx =
      let p = tx.options.process in
      handled (env.delete_unused_secrets tx) λ _.
        handled (if p.secret.cleanup && p.secret.valid then env.azure.delete_unused tx else pure tt)
          λ _.
            if not p.synchronize
            then pure evaluate_rotation_later
            else handled (process now tx) (complete now)

  unfoldable pub reconcile_prepared : ℕ → Transaction C → Exec S Outcome
  unfolding reconcile_validated demand_synchronization
  reconcile_prepared now tx =
      if tx.options.tenant.ignore
      then handled (Reconciler.process_orphaned env.azure tx) (λ _. pure done)
      else handled (Finalizer.process env.azure env.cluster tx) λ finalizer_processed.
        if finalizer_processed
        then pure done
        else handled (Reconciler.delete_expired_credentials env.azure tx) λ _.
          handled (Reconciler.validate_credentials env.azure tx)
            λ valid. reconcile_validated now (if valid then tx else demand_synchronization tx)

  unfoldable pub reconcile : ℕ → String → String → Exec S Outcome
  unfolding prepare reconcile_prepared
  reconcile now namespace name s = elim (prepare now namespace name s).0 [
    | ok tx ↦ reconcile_prepared now tx (prepare now namespace name s).1
    | err Failure.not_found ↦ (ok done, (prepare now namespace name s).1)
    | err e ↦ (err e, (prepare now namespace name s).1)
  ]
