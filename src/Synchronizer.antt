-- ===== src/Synchronizer.antt =====
-- pkg/synchronizer/event.go and synchronizer.go: events from other clusters, and which applications
-- are marked for a new synchronization on them. Logging and metrics are left out.
pub mod Laws
use azurerator.Base.{
  String, ◌<>◌, Bool, true, false, not, Option, none, some, List, [], ◌∷◌, ◌++◌, ◌&&◌, ◌||◌, ◌==◌,
  string_eq, if◌then◌else◌,
}
use azurerator.Base.Exec.{Exec, Result, Failure, ok, err, pure, raise, then_do, ◌>>=◌, ◌>>◌}
use azurerator.Crd.{
  AccessPolicyRule, AccessPolicyInboundRule, PreAuthorizedAppStatus, PreAuthorizedAppsStatus,
  AzureAdApplication,
}
use azurerator.Annotations.{resynchronize_key, set_annotation, add_to_annotation}

pub record EventApplication : Type 0 where
  pub name : String
  pub namespace : String
  pub cluster : String
  pub client_id : String

pub record Event : Type 0 where
  pub id : String
  pub name : String
  pub application : EventApplication

abbrev pub created : String
created = "Created"

abbrev pub updated : String
updated = "Updated"

-- `Application.String`
unfoldable pub show_application : EventApplication → String
show_application a = a.cluster <> (":" <> (a.namespace <> (":" <> a.name)))

unfoldable pub new_event : String → String → String → String → String → String → Event
new_event id event_name name namespace cluster client_id = record {
  id = id;
  name = event_name;
  application = record {
    name = name;
    namespace = namespace;
    cluster = cluster;
    client_id = client_id;
  };
}

abbrev missing_if_empty : String → String → List String
missing_if_empty value field = if value == "" then field ∷ [] else []

-- The fields that `Validate` reports as missing.
unfoldable pub missing : Event → List String
missing e =
    missing_if_empty e.application.name "name"
    ++ missing_if_empty e.application.namespace "namespace"
    ++ missing_if_empty e.application.cluster "cluster"
    ++ missing_if_empty e.application.client_id "clientID"

unfoldable pub validate : Event → Bool
unfolding missing
validate e = elim (missing e) [ [] ↦ true | _ ∷ _ ↦ false ]

unfoldable pub is_created : Event → Bool
is_created e = e.name == created

unfoldable pub is_updated : Event → Bool
is_updated e = e.name == updated

-- The closure `normalize`, for an application in a namespace.
unfoldable pub normalize : String → String → AccessPolicyRule → AccessPolicyRule
normalize namespace cluster rule = record {
  application = rule.application;
  namespace = if rule.namespace == "" then namespace else rule.namespace;
  cluster = if rule.cluster == "" then cluster else rule.cluster;
}

unfoldable pub matches : String → String → Event → AccessPolicyRule → Bool
unfolding normalize
matches namespace cluster e rule =
    let r = normalize namespace cluster rule in
    r.application == e.application.name
    && r.namespace == e.application.namespace
    && r.cluster == e.application.cluster

unfoldable pub assigned_with : String → String → Event → List PreAuthorizedAppStatus → Bool
unfolding matches
assigned_with namespace cluster e [] = false
assigned_with namespace cluster e (assigned ∷ more) = elim assigned.access_policy_rule [
  | none ↦ assigned_with namespace cluster e more
  | some rule ↦
      if matches namespace cluster e rule && assigned.client_id == e.application.client_id
      then true
      else assigned_with namespace cluster e more
]

unfoldable pub already_assigned_with_current_client_id : AzureAdApplication → String → Event → Bool
unfolding assigned_with
already_assigned_with_current_client_id app cluster e =
    if e.application.client_id == "" then false else elim app.status.pre_authorized_apps [
      | none ↦ false
      | some status ↦ assigned_with app.namespace cluster e status.assigned
    ]

-- The last loop of `needsResync`.
unfoldable pub needs_from :
    AzureAdApplication → String → Event → List AccessPolicyInboundRule → Bool
unfolding matches already_assigned_with_current_client_id
needs_from app cluster e [] = false
needs_from app cluster e (pre_auth_app ∷ more) =
    if matches app.namespace cluster e pre_auth_app.rule
    then not (already_assigned_with_current_client_id app cluster e)
    else needs_from app cluster e more

unfoldable pub needs_resync : AzureAdApplication → String → Event → Bool
unfolding needs_from
needs_resync app cluster e =
    if app.name == e.application.name
      && app.namespace == e.application.namespace
      && cluster == e.application.cluster
    then false
    else needs_from app cluster e app.spec.pre_authorized_applications

-- The requests to the cluster; `deployment_correlation_id` is a constant of `liberator`.
pub record Client (S : Type 0) : Type 0 where
  pub list : Exec S (List AzureAdApplication)
  pub get : String → String → Exec S AzureAdApplication
  pub update : AzureAdApplication → Exec S (Unit {0})
  -- `retry.RetryOnConflict` with the default backoff
  pub retry_on_conflict : Exec S (Unit {0}) → Exec S (Unit {0})
  pub deployment_correlation_id : String

module _ {S : Type 0} (client : Client S) where
  -- What the resync writes on an application.
  unfoldable pub marked : Event → AzureAdApplication → AzureAdApplication
  unfolding show_application
  marked e existing = record existing {
    annotations =
        set_annotation
          (add_to_annotation existing.annotations resynchronize_key
            (show_application e.application))
          client.deployment_correlation_id e.id;
  }

  unfoldable pub resync : AzureAdApplication → Event → Exec S (Unit {0})
  unfolding marked
  resync app e =
      client.retry_on_conflict
        do existing ← client.get app.namespace app.name; client.update (marked e existing)

  -- The loop of `Synchronize` over the applications.
  unfoldable pub resync_candidates : String → Event → List AzureAdApplication → Exec S (Unit {0})
  unfolding resync needs_resync
  resync_candidates cluster e [] = pure tt
  resync_candidates cluster e (app ∷ apps) =
      if needs_resync app cluster e
      then resync app e >> resync_candidates cluster e apps
      else resync_candidates cluster e apps

  unfoldable pub synchronize : String → Event → Exec S (Unit {0})
  unfolding resync_candidates is_created is_updated validate
  synchronize cluster e =
      if not (is_created e) && not (is_updated e)
      then pure tt
      else if not (validate e)
      then pure tt
      else do apps ← client.list; resync_candidates cluster e apps
