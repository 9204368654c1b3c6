-- ===== src/Options.antt =====
-- pkg/transaction/options/process.go, tenant.go and options.go, with
-- pkg/customresources/azureadapplication.go and the settings of pkg/config/config.go that these
-- read: what a reconciliation is to do. `hash` is the method `Hash` of `liberator`, and `now` what
-- `time.Since` reads; a nanosecond of difference in the ages is not modelled, a second is.
pub mod Laws
use azurerator.Base.{
  ℕ, ◌+◌, String, Bool, true, false, not, Option, none, some, ◌&&◌, ◌||◌, ◌==◌, string_eq, leb,
  if◌then◌else◌,
}
use azurerator.Base.Dict.{is_some}
use azurerator.Base.Exec.{Result, Failure, ok, err}
use azurerator.Base.Text.{contains_text}
use azurerator.Crd.{AzureAdApplication}
use azurerator.Annotations.{Annotations, has_annotation, resynchronize_key, rotate_key}

pub record Config : Type 0 where
  pub cluster_name : String
  pub tenant_id : String
  pub tenant_name : String
  pub tenant_required : Bool
  pub cleanup_orphans : Bool
  pub max_age : ℕ
  pub cleanup : Bool

pub record AzureOptions : Type 0 where
  pub synchronize : Bool
  pub cleanup_orphans : Bool

pub record SecretOptions : Type 0 where
  pub rotate : Bool
  pub valid : Bool
  pub cleanup : Bool

pub record ProcessOptions : Type 0 where
  pub synchronize : Bool
  pub azure : AzureOptions
  pub secret : SecretOptions

pub record TenantOptions : Type 0 where
  pub ignore : Bool

pub record TransactionOptions : Type 0 where
  pub tenant : TenantOptions
  pub process : ProcessOptions

unfoldable pub secret_name_changed : AzureAdApplication → Bool
secret_name_changed app = not (app.status.synchronization_secret_name == app.spec.secret_name)

-- `diff >= maxSecretAge`, where the difference is negative for a time to come.
unfoldable pub has_expired_secrets : ℕ → AzureAdApplication → ℕ → Bool
has_expired_secrets now app max_age = elim app.status.synchronization_secret_rotation_time [
  | none ↦ false
  | some last ↦ leb (last + max_age) now
]

unfoldable pub has_resynchronize_annotation : AzureAdApplication → Bool
has_resynchronize_annotation app = is_some (has_annotation app.annotations resynchronize_key)

unfoldable pub has_rotate_annotation : AzureAdApplication → Bool
has_rotate_annotation app = is_some (has_annotation app.annotations rotate_key)

unfoldable pub is_not_addressed_to_tenant : AzureAdApplication → String → Bool → Bool
is_not_addressed_to_tenant app configured required =
    if app.spec.tenant == "" then required else not (app.spec.tenant == configured)

unfoldable pub tenant : Config → AzureAdApplication → TenantOptions
unfolding is_not_addressed_to_tenant
tenant config app = record {
  ignore = is_not_addressed_to_tenant app config.tenant_name config.tenant_required;
}

module _ (hash : AzureAdApplication → Result String) where
  unfoldable pub is_hash_changed : AzureAdApplication → Result Bool
  is_hash_changed app = elim (hash app) [
    | err e ↦ err e
    | ok new_hash ↦ ok (not (app.status.synchronization_hash == new_hash))
  ]

  -- `latest_valid` and `has_latest_set` are what the transaction's secrets say of the latest
  -- credentials.
  unfoldable pub process : Config → ℕ → AzureAdApplication → Bool → Bool → Result ProcessOptions
  unfolding is_hash_changed secret_name_changed has_expired_secrets has_resynchronize_annotation
      has_rotate_annotation
  process config now app latest_valid has_latest_set = elim (is_hash_changed app) [
    | err e ↦ err e
    | ok hash_changed ↦
        let name_changed = secret_name_changed app in
        let resync = has_resynchronize_annotation app in
        let rotate = has_rotate_annotation app in
        let expired = has_expired_secrets now app config.max_age in
        let tenant_unchanged = contains_text app.status.synchronization_tenant config.tenant_id in
        ok record {
          synchronize = hash_changed || name_changed || expired || resync || rotate;
          azure = record {
            synchronize = hash_changed || resync;
            cleanup_orphans = config.cleanup_orphans;
          };
          secret = record {
            rotate = name_changed || rotate;
            valid = not expired && tenant_unchanged && latest_valid && has_latest_set;
            cleanup = not (name_changed || rotate) && config.cleanup;
          };
        }
  ]

  unfoldable pub new_options :
      Config → ℕ → AzureAdApplication → Bool → Bool → Result TransactionOptions
  unfolding process tenant
  new_options config now app latest_valid has_latest_set =
      elim (process config now app latest_valid has_latest_set) [
        | err e ↦ err e
        | ok p ↦ ok record { tenant = tenant config app; process = p }
      ]
