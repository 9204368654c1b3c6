-- ===== src/Options/Laws.antt =====
-- What is asked for when nothing has changed.
use azurerator.Base.{ℕ, String, ◌≡◌, Bool, true, false, ◌&&◌, string_eq, eq_self}
use azurerator.Base.Exec.{Result, ok}
use azurerator.Base.Text.{contains_text, contains_text_self}
use azurerator.Crd.{AzureAdApplication}
use azurerator.Options.{
  Config, secret_name_changed, has_expired_secrets, has_resynchronize_annotation,
  has_rotate_annotation, is_hash_changed, process,
}

-- The status is that of a completed synchronization of this specification for this tenant, there is
-- nothing left to process among the annotations, and the secrets are not older than allowed.
pub record IsSettled (hash : AzureAdApplication → Result String) (config : Config) (now : ℕ)
    (app : AzureAdApplication) : Type 0 where
  pub same_hash : hash app ≡ ok app.status.synchronization_hash
  pub same_secret_name : app.status.synchronization_secret_name ≡ app.spec.secret_name
  pub same_tenant : app.status.synchronization_tenant ≡ config.tenant_id
  pub no_resync : has_resynchronize_annotation app ≡ false
  pub no_rotate : has_rotate_annotation app ≡ false
  pub not_expired : has_expired_secrets now app config.max_age ≡ false

module _ (hash : AzureAdApplication → Result String) (config : Config) (now : ℕ)
    (app : AzureAdApplication) (P : IsSettled hash config now app) where
  hash_unchanged : is_hash_changed hash app ≡ ok false
  unfolding is_hash_changed
  hash_unchanged = rw (is_hash_changed, P.same_hash, eq_self)

  name_unchanged : secret_name_changed app ≡ false
  unfolding secret_name_changed
  name_unchanged = rw (secret_name_changed, P.same_secret_name, eq_self)

  tenant_unchanged : contains_text app.status.synchronization_tenant config.tenant_id ≡ true
  tenant_unchanged = rw (P.same_tenant, contains_text_self)

  -- A settled application asks for no synchronization and no rotation, and its latest credentials
  -- count as valid if they were found and complete.
  pub settled-process :
      (valid has_set : Bool)
      → process hash config now app valid has_set
        ≡ ok record {
          synchronize = false;
          azure = record { synchronize = false; cleanup_orphans = config.cleanup_orphans };
          secret = record { rotate = false; valid = valid && has_set; cleanup = config.cleanup };
        }
  unfolding process
  settled-process valid has_set = rw (
    hash_unchanged, name_unchanged, tenant_unchanged, P.no_resync, P.no_rotate, P.not_expired,
    process,
  )
