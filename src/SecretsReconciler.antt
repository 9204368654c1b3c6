-- ===== src/SecretsReconciler.antt =====
-- pkg/reconciler/secrets/secrets.go but for `Process`, which `Reconciler` has, with pkg/labels and
-- pkg/transaction/secrets. `Cluster` has the calls to Kubernetes; the reference to the owner that
-- `SetControllerReference` puts on a secret is that of the application, `owner`.
pub mod Laws
use azurerator.Base.{
  String, Bool, true, false, Option, none, some, List, [], ◌∷◌, ◌==◌, string_eq, if◌then◌else◌,
}
use azurerator.Base.Dict.{Dict, is_some}
use azurerator.Base.Exec.{Exec, Result, Failure, ok, err, pure, then_do, ◌>>=◌, ◌>>◌}
use azurerator.Crd.{AzureAdApplication, Spec, Status}
use azurerator.Annotations.{stakater_reloader_key}
use azurerator.Reconciler.{ApplicationResult}
use azurerator.SecretData.{
  SecretDataKeys, Set, AzureOpenIdConfig, Json, new_secret_data_keys, secret_data,
}
use azurerator.SecretData.Extractors.{
  Secret, SecretLists, KeyIds, get_key_ids, get_previous_credentials_set,
}

unfoldable pub labels : AzureAdApplication → Dict String String
labels app = ("app", app.name) ∷ ("type", "azurerator.nais.io") ∷ []

-- What `CreateOrUpdate` is asked for; `string_data` is written over the data that exists.
pub record SecretRequest : Type 0 where
  pub name : String
  pub namespace : String
  pub secret_labels : Dict String String
  pub secret_annotations : Dict String String
  pub string_data : Dict String String
  pub owner : String

pub record Cluster (S : Type 0) : Type 0 where
  -- `ListSecretsForApplication`, for a name, a namespace and labels
  pub list_secrets : String → String → Dict String String → Exec S SecretLists
  pub create_or_update : SecretRequest → Exec S (Unit {0})
  pub delete : Secret → Exec S (Unit {0})

pub record TransactionSecrets (Jwk : Type 0) : Type 0 where
  pub data_keys : SecretDataKeys
  pub key_ids : KeyIds
  pub latest_set : Option (Set Jwk)
  pub latest_valid : Bool
  pub managed_secrets : SecretLists

module _ {S Jwk : Type 0} (cluster : Cluster S) (json : Json Jwk) (to_upper : String → String) where
  unfoldable pub get_managed : AzureAdApplication → Exec S SecretLists
  unfolding labels
  get_managed app = cluster.list_secrets app.name app.namespace (labels app)

  -- What `Prepare` makes of the secrets that it finds, with the instance that it leaves.
  unfoldable pub prepared :
      AzureAdApplication → SecretLists → Result (TransactionSecrets Jwk × AzureAdApplication)
  prepared app managed =
      let keys = new_secret_data_keys to_upper (app.spec.secret_key_prefix ∷ []) in
      let key_ids = get_key_ids keys managed in
      elim (get_previous_credentials_set json keys managed app.status.synchronization_secret_name) [
        | err e ↦ err e
        | ok set ↦ ok (
          record {
            data_keys = keys;
            key_ids = key_ids;
            latest_set = set;
            latest_valid = is_some set;
            managed_secrets = managed;
          },
          record app {
            status = record app.status {
              certificate_key_ids = key_ids.used.certificate;
              password_key_ids = key_ids.used.password;
            };
          },
        )
      ]

  unfoldable pub prepare : AzureAdApplication → Exec S (TransactionSecrets Jwk × AzureAdApplication)
  unfolding get_managed prepared
  prepare app = do managed ← get_managed app; λ s. (prepared app managed, s)

  unfoldable pub create_or_update :
      AzureOpenIdConfig
      → SecretDataKeys
      → AzureAdApplication
      → ApplicationResult
      → Set Jwk
      → Exec S (Unit {0})
  unfolding labels
  create_or_update config keys app result set = do
    string_data ← (λ s. (secret_data json result set config keys, s))
    cluster.create_or_update record {
      name = app.spec.secret_name;
      namespace = app.namespace;
      secret_labels = labels app;
      secret_annotations = (stakater_reloader_key, "true") ∷ [];
      string_data = string_data;
      owner = app.name;
    }

  -- The loop of `DeleteUnused`.
  unfoldable pub delete_but : String → List Secret → Exec S (Unit {0})
  delete_but name [] = pure tt
  delete_but name (old ∷ secrets) =
      if old.name == name
      then delete_but name secrets
      else (cluster.delete old >> delete_but name secrets)

  unfoldable pub delete_unused : AzureAdApplication → TransactionSecrets Jwk → Exec S (Unit {0})
  unfolding delete_but
  delete_unused app secrets = delete_but app.spec.secret_name secrets.managed_secrets.unused
