-- ===== src/Reconciler/Finalizer/Laws.antt =====
-- When the finalizers of an application go.
use azurerator.Base.{
  String, ◌≡◌, refl, Bool, true, false, List, ◌&&◌, ◌||◌, contains, string_eq, inl, inr,
}
use azurerator.Base.Dict.{is_some}
use azurerator.Base.Exec.{Exec, Failure, ok, err, Result-cases, pure, ◌>>◌}
use azurerator.Reconciler.{Transaction, AzureClient}
use azurerator.Reconciler.Finalizer.{
  Cluster, finalizer_name, old_finalizer_name, clean_up, finalize, process,
}
use azurerator.Reconciler.Finalizer.Updates.{
  remove_both, contains-remove_both, Effects, updated, updated-done,
}

module _ {S C : Type 0} (client : AzureClient S C) (cluster : Cluster S) (tx : Transaction C)
    (stored : S → List String) (Cleaned : Bool → S → Type 0)
    (effects : Effects client cluster tx stored Cleaned) where
  -- The condition on which an application is finalized.
  abbrev is_finalized : Bool
  is_finalized =
      (contains tx.instance_.finalizers finalizer_name
        || contains tx.instance_.finalizers old_finalizer_name)
      && is_some tx.instance_.deletion_timestamp

  -- What follows a step without a request leaves its state.
  then-pure : (m : Exec S (Unit {0})) (b : Bool) (s : S) → ((m >> pure b) s).1 ≡ (m s).1
  then-pure m b s = elim (Result-cases (m s).0) [
    | inl (u, e) ↦ rw (e) refl
    | inr (x, e) ↦ rw (e) refl
  ]

  process-finalized :
      (s : S)
      → is_finalized ≡ true
      → (process client cluster tx s).1 ≡ (finalize client cluster tx s).1
  unfolding process
  process-finalized s f = rw (process, f) (then-pure (finalize client cluster tx) true s)

  finalize-cleaned :
      (s : S) {u : Unit {0}}
      → (clean_up client cluster tx s).0 ≡ ok u
      → finalize client cluster tx s
        ≡ updated cluster tx remove_both (clean_up client cluster tx s).1
  unfolding finalize
  finalize-cleaned s h = rw (finalize, h) refl

  finalize-refused :
      (s : S) {x : Failure}
      → (clean_up client cluster tx s).0 ≡ err x
      → finalize client cluster tx s ≡ (err x, (clean_up client cluster tx s).1)
  unfolding finalize
  finalize-refused s h = rw (finalize, h) refl

  process-succeeds :
      (s : S) (b : Bool)
      → is_finalized ≡ true
      → (process client cluster tx s).0 ≡ ok b
      → (finalize client cluster tx s).0 ≡ ok tt
  unfolding process
  process-succeeds s b f h = elim (Result-cases (finalize client cluster tx s).0) [
    | inl (_, e) ↦ e
    | inr (x, e) ↦ let absurd : err x ≡ ok b = rw (process, f, e) at h in cc absurd
  ]

  finalize-releases :
      (s : S)
      → (finalize client cluster tx s).0 ≡ ok tt
      → (contains (stored (finalize client cluster tx s).1) finalizer_name ≡ false)
        × (contains (stored (finalize client cluster tx s).1) old_finalizer_name ≡ false)
  finalize-releases s h = elim (Result-cases (clean_up client cluster tx s).0) [
    | inr (x, e) ↦ let absurd : err x ≡ ok tt = rw (finalize-refused s e) at h in cc absurd
    | inl (_, e) ↦
        rw (finalize-cleaned s e)
          (elim (updated-done client cluster tx stored Cleaned effects remove_both
            (clean_up client cluster tx s).1 (rw (finalize-cleaned s e) at h)) [
              | inl u ↦ rw (u) (contains-remove_both _)
              | inr u ↦ rw (u) (refl, refl)
            ])
  ]

  -- If requests have the effects of `Effects`, then an application that is being deleted and has one of the
  -- controller's two finalizers stores neither of them after a processing that succeeds.
  pub process-releases :
      (s : S) (b : Bool)
      → (contains tx.instance_.finalizers finalizer_name
          || contains tx.instance_.finalizers old_finalizer_name)
        ≡ true
      → is_some tx.instance_.deletion_timestamp ≡ true
      → (process client cluster tx s).0 ≡ ok b
      → (contains (stored (process client cluster tx s).1) finalizer_name ≡ false)
        × (contains (stored (process client cluster tx s).1) old_finalizer_name ≡ false)
  process-releases s b has deleted h =
      let f : is_finalized ≡ true = rw (has, deleted) refl in
      rw (process-finalized s f) (finalize-releases s (process-succeeds s b f h))
