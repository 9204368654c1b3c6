-- ===== src/Reconciler/Laws.antt =====
-- The events that a reconciliation produces, and the credentials that it goes on with.
use azurerator.Base.{
  String, ◌≡◌, refl, ◌∙◌, Bool, true, false, none, some, ◌||◌, ◌==◌, string_eq, if◌then◌else◌,
  arith, eq_self,
}
use mathlib.Core.Path.{subst}
use azurerator.Crd.{AzureAdApplication}
use azurerator.Synchronizer
use azurerator.Synchronizer.{Event, new_event, needs_resync, created, updated}
use azurerator.Synchronizer.Laws.{needs_resync_lem, is_relevant, validate_complete}
use azurerator.Reconciler.{
  Transaction, ApplicationResult, Operation, produced_event, operation_created, operation_updated,
  operation_not_modified,
}

choose_some :
    {A : Type 0} (b : Bool) (x y : A) → (if b then some x else none) ≡ some y → (b ≡ true) × (x ≡ y)
choose_some true x y h = (refl, cc h)
choose_some false x y h = cc h

new_event-relevant :
    (id kind name namespace cluster client_id : String)
    → (kind == created || kind == updated) ≡ true
    → Synchronizer.validate (new_event id kind name namespace cluster client_id) ≡ true
    → is_relevant (new_event id kind name namespace cluster client_id) ≡ true
unfolding new_event
new_event-relevant id kind name namespace cluster client_id k p =
    ground (arith, k, p, validate_complete (new_event id kind name namespace cluster client_id))

own_event :
    (app : AzureAdApplication) (id kind cluster client_id : String)
    → needs_resync app cluster (new_event id kind app.name app.namespace cluster client_id) ≡ false
unfolding new_event
own_event app id kind cluster client_id =
    needs_resync_lem app cluster (new_event id kind app.name app.namespace cluster client_id)
    ∙ rw (eq_self app.name, eq_self app.namespace, eq_self cluster)

valid_event :
    {C : Type 0} (tx : Transaction C) (r : ApplicationResult) (kind : String) (e : Event)
    → (kind == created || kind == updated) ≡ true
    → (let new =
          new_event tx.id kind tx.instance_.name tx.instance_.namespace tx.cluster_name
            r.client_id in
        if Synchronizer.validate new then some new else none)
      ≡ some e
    → (is_relevant e ≡ true) × (needs_resync tx.instance_ tx.cluster_name e ≡ false)
valid_event tx r kind e k h =
    let new =
      new_event tx.id kind tx.instance_.name tx.instance_.namespace tx.cluster_name r.client_id in
    let (p, q) = choose_some (Synchronizer.validate new) new e h in
    subst
      (λ (x : Event).
        (is_relevant x ≡ true) × (needs_resync tx.instance_ tx.cluster_name x ≡ false))
      q
      (
        new_event-relevant tx.id kind tx.instance_.name tx.instance_.namespace tx.cluster_name
            r.client_id k p,
        own_event tx.instance_ tx.id kind tx.cluster_name r.client_id,
      )

produced_by :
    {C : Type 0} (tx : Transaction C) (r : ApplicationResult) (e : Event) (o : Operation)
    → r.result ≡ o
    → produced_event tx r ≡ some e
    → (is_relevant e ≡ true) × (needs_resync tx.instance_ tx.cluster_name e ≡ false)
unfolding produced_event
produced_by tx r e operation_created p h =
    valid_event tx r created e (ground arith) (rw (p, produced_event) at h)
produced_by tx r e operation_updated p h =
    valid_event tx r updated e (ground arith) (rw (p, produced_event) at h)
produced_by tx r e operation_not_modified p h =
    let never : none ≡ some e = rw (p, produced_event) at h in cc never

-- Every event that a reconciliation hands to the synchronizer is one that the synchronizer acts on,
-- and it never marks the application that the event is about, be that in its own list or not.
pub produced_event-relevant :
    {C : Type 0} (tx : Transaction C) (r : ApplicationResult) (e : Event)
    → produced_event tx r ≡ some e
    → (is_relevant e ≡ true) × (needs_resync tx.instance_ tx.cluster_name e ≡ false)
produced_event-relevant tx r e h = produced_by tx r e r.result refl h
