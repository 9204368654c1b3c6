-- ===== src/Controller/Laws.antt =====
-- What a reconciliation leaves, and which errors it returns.
use azurerator.Base.{
  ℕ, String, ◌≡◌, refl, ◌∙◌, Bool, true, false, not, ◌&&◌, string_eq, if◌then◌else◌, inl, inr,
}
use azurerator.Base.Exec.{Exec, Failure, ok, err, pure, Result-cases}
use azurerator.Crd.{AzureAdApplication}
use azurerator.Options.{
  Config, ProcessOptions, has_expired_secrets, has_resynchronize_annotation, has_rotate_annotation,
}
use azurerator.Options
use azurerator.Options.Laws.{settled-process}
use azurerator.Reconciler
use azurerator.Reconciler.{
  Transaction, AzureClient, validate_credentials, delete_expired_credentials,
}
use azurerator.Reconciler.Finalizer
use azurerator.Controller.{
  Environment, Outcome, handled, done, process, completed, complete, demand_synchronization,
  evaluate_rotation_later, reconcile_validated, reconcile_prepared,
}

module _ {S C : Type 0} (config : Config) (env : Environment S C) where
  -- Suppose that the hash of an application is that of its specification alone. Once `Complete`
  -- has written a status with the hash, any later version with that status and the same specification
  -- asks for no synchronization and no rotation, if none of its annotations asks for one and the
  -- secrets are not too old. Its name, annotations, finalizers and deletion time may have changed.
  pub completed-settled :
      ((a b : AzureAdApplication) → a.spec ≡ b.spec → env.hash a ≡ env.hash b)
      → (now : ℕ) (new_hash old_hash : String) (app next : AzureAdApplication) (later : ℕ)
        (valid has_set : Bool)
      → env.hash (completed config env now old_hash app) ≡ ok new_hash
      → next.spec ≡ app.spec
      → next.status ≡ (completed config env now new_hash app).status
      → has_resynchronize_annotation next ≡ false
      → has_rotate_annotation next ≡ false
      → has_expired_secrets later next config.max_age ≡ false
      → Options.process env.hash config later next valid has_set
        ≡ ok record {
          synchronize = false;
          azure = record { synchronize = false; cleanup_orphans = config.cleanup_orphans };
          secret = record { rotate = false; valid = valid && has_set; cleanup = config.cleanup };
        }
  unfolding completed
  completed-settled by_spec now new_hash old_hash app next later valid has_set h sp st r t x =
      settled-process env.hash config later next
        record {
          same_hash = by_spec next (completed config env now old_hash app) sp ∙ h ∙ rw (st) refl;
          same_secret_name = rw (st, sp) refl;
          same_tenant = rw (st) refl;
          no_resync = r;
          no_rotate = t;
          not_expired = x;
        }
        valid has_set

  -- `Complete` failed on some application in some state, with this error.
  abbrev pub CompleteFails : ℕ → Failure → Type 0
  CompleteFails now e =
      (app : AzureAdApplication) × (s : S) × ((complete config env now app s).0 ≡ err e)

  -- A step returns an error only if `Complete` does.
  abbrev pub OnlyComplete : ℕ → Exec S Outcome → Type 0
  OnlyComplete now m = (s : S) (e : Failure) → (m s).0 ≡ err e → CompleteFails now e

  handled_only :
      {A : Type 0} (now : ℕ) (m : Exec S A) (f : A → Exec S Outcome)
      → ((a : A) → OnlyComplete now (f a))
      → OnlyComplete now (handled m f)
  handled_only now m f h s e = elim (Result-cases (m s).0) [
    | inl (a, p) ↦ rw (handled, p) (h a (m s).1 e)
    | inr (x, p) ↦ rw (handled, p) (λ q. cc q)
  ]

  pure_only : (now : ℕ) (o : Outcome) → OnlyComplete now (pure o)
  pure_only now o s e q = cc q

  if_only :
      (now : ℕ) (b : Bool) (m n : Exec S Outcome)
      → OnlyComplete now m
      → OnlyComplete now n
      → OnlyComplete now (if b then m else n)
  if_only now true m n h k = h
  if_only now false m n h k = k

  synchronized_only :
      (now : ℕ) (tx : Transaction C)
      → OnlyComplete now (
          if not tx.options.process.synchronize
          then pure (evaluate_rotation_later config env)
          else handled (process config env now tx) (complete config env now))
  synchronized_only now tx =
      if_only now (not tx.options.process.synchronize) (pure (evaluate_rotation_later config env))
        (handled (process config env now tx) (complete config env now))
        (pure_only now (evaluate_rotation_later config env))
        (handled_only now (process config env now tx) (complete config env now)
          (λ app s e q. (app, s, q)))

  validated_only :
      (now : ℕ) (tx : Transaction C) → OnlyComplete now (reconcile_validated config env now tx)
  unfolding reconcile_validated
  validated_only now tx =
      let p = tx.options.process.secret in
      let synchronized = λ (_ : Unit {0}).
        if not tx.options.process.synchronize
        then pure (evaluate_rotation_later config env)
        else handled (process config env now tx) (complete config env now) in
      let unused = if p.cleanup && p.valid then env.azure.delete_unused tx else pure tt in
      handled_only now (env.delete_unused_secrets tx) (λ _. handled unused synchronized)
        λ _. handled_only now unused synchronized (λ _. synchronized_only now tx)

  abbrev after_finalizer : ℕ → Transaction C → Bool → Exec S Outcome
  after_finalizer now tx finalizer_processed =
      if finalizer_processed
      then pure done
      else handled (delete_expired_credentials env.azure tx) λ _.
        handled (validate_credentials env.azure tx) λ valid.
          reconcile_validated config env now
            (if valid then tx else demand_synchronization config env tx)

  after_finalizer_only :
      (now : ℕ) (tx : Transaction C) (processed : Bool)
      → OnlyComplete now (after_finalizer now tx processed)
  after_finalizer_only now tx true = pure_only now done
  after_finalizer_only now tx false =
      handled_only now (delete_expired_credentials env.azure tx)
        (λ _. handled (validate_credentials env.azure tx) λ valid.
          reconcile_validated config env now
            (if valid then tx else demand_synchronization config env tx))
        (λ _.
          handled_only now (validate_credentials env.azure tx)
            (λ valid.
              reconcile_validated config env now
                (if valid then tx else demand_synchronization config env tx))
            (λ valid.
              validated_only now (if valid then tx else demand_synchronization config env tx)))

  -- Once the transaction is prepared, an error is returned to the queue only if the completion of
  -- a synchronization failed with it, on some application in some state.
  pub reconcile_prepared-errors :
      (now : ℕ) (tx : Transaction C) (s : S) (e : Failure)
      → (reconcile_prepared config env now tx s).0 ≡ err e
      → CompleteFails now e
  unfolding reconcile_prepared
  reconcile_prepared-errors now tx =
      if_only now tx.options.tenant.ignore
        (handled (Reconciler.process_orphaned env.azure tx) (λ _. pure done))
        (handled (Finalizer.process env.azure env.cluster tx) (after_finalizer now tx))
        (handled_only now (Reconciler.process_orphaned env.azure tx) (λ _. pure done)
          (λ _. pure_only now done))
        (handled_only now (Finalizer.process env.azure env.cluster tx) (after_finalizer now tx)
          (after_finalizer_only now tx))
