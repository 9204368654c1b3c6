-- ===== src/Synchronizer/Laws.antt =====
-- Which applications are marked.
use azurerator.Base.{
  String, ◌≡◌, refl, Bool, false, not, none, some, List, [], ◌∷◌, ◌&&◌, ◌||◌, ◌==◌, string_eq,
  if◌then◌else◌, arith, Bool-cases, Option-cases, inl, inr,
}
use azurerator.Base.Exec.{Exec, ok, pure, then_do, ◌>>◌, Result-cases}
use azurerator.Crd.{
  AccessPolicyRule, AccessPolicyInboundRule, PreAuthorizedAppStatus, AzureAdApplication,
}
use azurerator.Synchronizer.{
  Event, created, updated, missing, validate, is_created, is_updated, matches, normalize,
  assigned_with, already_assigned_with_current_client_id, needs_from, needs_resync, Client, resync,
  resync_candidates, synchronize,
}

-- The event is about the application itself.
abbrev pub is_self : AzureAdApplication → String → Event → Bool
is_self app cluster e =
    app.name == e.application.name
    && app.namespace == e.application.namespace
    && cluster == e.application.cluster

-- A field of a rule denotes a value: it is that value, or it is empty and the default is.
abbrev pub denotes : String → String → String → Bool
denotes field default value = if field == "" then default == value else field == value

-- A rule names the application of the event, where its namespace and its cluster default to those
-- of the application that has the rule.
abbrev pub names : AzureAdApplication → String → Event → AccessPolicyRule → Bool
names app cluster e rule =
    rule.application == e.application.name
    && denotes rule.namespace app.namespace e.application.namespace
    && denotes rule.cluster cluster e.application.cluster

-- A rule of the list names the application of the event.
abbrev pub any_match : AzureAdApplication → String → Event → List AccessPolicyInboundRule → Bool
any_match app cluster e [] = false
any_match app cluster e (r ∷ rs) = names app cluster e r.rule || any_match app cluster e rs

-- An entry of the list names it together with the client ID of the event.
abbrev pub any_current : AzureAdApplication → String → Event → List PreAuthorizedAppStatus → Bool
any_current app cluster e [] = false
any_current app cluster e (a ∷ more) =
    elim a.access_policy_rule [
      | none ↦ false
      | some rule ↦ names app cluster e rule && a.client_id == e.application.client_id
    ]
    || any_current app cluster e more

abbrev pub assigned_of : AzureAdApplication → List PreAuthorizedAppStatus
assigned_of app = elim app.status.pre_authorized_apps [ none ↦ [] | some status ↦ status.assigned ]

matches_lem :
    (app : AzureAdApplication) (cluster : String) (e : Event) (rule : AccessPolicyRule)
    → matches app.namespace cluster e rule ≡ names app cluster e rule
unfolding matches normalize
matches_lem app cluster e rule = ground arith

assigned_with_lem :
    (app : AzureAdApplication) (cluster : String) (e : Event) (l : List PreAuthorizedAppStatus)
    → assigned_with app.namespace cluster e l ≡ any_current app cluster e l
unfolding assigned_with
assigned_with_lem app cluster e [] = refl
assigned_with_lem app cluster e (a ∷ more) = elim (Option-cases a.access_policy_rule) [
  | inl h ↦ ground (arith, assigned_with_lem app cluster e more)
  | inr (rule, h) ↦
      ground (arith, matches_lem app cluster e rule, assigned_with_lem app cluster e more)
]

needs_from_lem :
    (app : AzureAdApplication) (cluster : String) (e : Event) (rs : List AccessPolicyInboundRule)
    → needs_from app cluster e rs
      ≡ (any_match app cluster e rs && not (already_assigned_with_current_client_id app cluster e))
unfolding needs_from
needs_from_lem app cluster e [] = refl
needs_from_lem app cluster e (r ∷ rs) =
    ground (arith, matches_lem app cluster e r.rule, needs_from_lem app cluster e rs)

already_lem :
    (app : AzureAdApplication) (cluster : String) (e : Event)
    → already_assigned_with_current_client_id app cluster e
      ≡ (not (e.application.client_id == "") && any_current app cluster e (assigned_of app))
unfolding already_assigned_with_current_client_id
already_lem app cluster e = ground (arith, assigned_with_lem app cluster e (assigned_of app))

-- An application needs a resync exactly if the event is not about itself, one of its rules names the
-- event's application, and either the event has no client ID or no entry that its status has as
-- assigned names that application with the event's client ID.
pub needs_resync_lem :
    (app : AzureAdApplication) (cluster : String) (e : Event)
    → needs_resync app cluster e ≡ (
        not (is_self app cluster e)
        && any_match app cluster e app.spec.pre_authorized_applications
        && not (not (e.application.client_id == "") && any_current app cluster e (assigned_of app)))
unfolding needs_resync
needs_resync_lem app cluster e = ground (
  arith,
  needs_from_lem app cluster e app.spec.pre_authorized_applications,
  already_lem app cluster e,
)

-- The candidates among the applications, in order.
abbrev pub candidates : String → Event → List AzureAdApplication → List AzureAdApplication
candidates cluster e [] = []
candidates cluster e (app ∷ apps) =
    let rest = candidates cluster e apps in if needs_resync app cluster e then app ∷ rest else rest

-- A created or updated event that has the name, the namespace, the cluster and the client ID.
abbrev pub is_relevant : Event → Bool
is_relevant e =
    (e.name == created || e.name == updated)
    && not (e.application.name == "")
    && not (e.application.namespace == "")
    && not (e.application.cluster == "")
    && not (e.application.client_id == "")

pub validate_complete :
    (e : Event)
    → validate e ≡ (
        not (e.application.name == "")
        && not (e.application.namespace == "")
        && not (e.application.cluster == "")
        && not (e.application.client_id == ""))
unfolding validate missing
validate_complete e = ground arith

module _ {S : Type 0} (client : Client S) where
  abbrev pub resync_each : Event → List AzureAdApplication → Exec S (Unit {0})
  resync_each e [] = pure tt
  resync_each e (app ∷ apps) = resync client app e >> resync_each e apps

  resync_candidates_lem :
      (cluster : String) (e : Event) (apps : List AzureAdApplication) (s : S)
      → resync_candidates client cluster e apps s ≡ resync_each e (candidates cluster e apps) s
  unfolding resync_candidates
  resync_candidates_lem cluster e [] s = refl
  resync_candidates_lem cluster e (app ∷ apps) s = elim (Bool-cases (needs_resync app cluster e)) [
    | inl p ↦ elim (Result-cases (resync client app e s).0) [
      | inl (u, q) ↦ rw (p, q, resync_candidates) (resync_candidates_lem cluster e apps _)
      | inr (x, q) ↦ rw (p, q, resync_candidates)
    ]
    | inr p ↦ rw (p, resync_candidates) (resync_candidates_lem cluster e apps s)
  ]

  -- An event that is not relevant does nothing and is no error. On any other, the applications are
  -- listed and exactly the candidates among them are resynced, in the order of the list up to the
  -- first error.
  pub synchronize_lem :
      (cluster : String) (e : Event) (s : S)
      → synchronize client cluster e s ≡ (
          if is_relevant e
          then then_do
              (client.list s).0
              (λ apps. resync_each e (candidates cluster e apps))
              (client.list s).1
          else (ok tt, s))
  unfolding synchronize is_created is_updated
  synchronize_lem cluster e s = elim (Result-cases (client.list s).0) [
    | inl (apps, p) ↦ rw p (
        ground
          (arith, p, validate_complete e, resync_candidates_lem cluster e apps (client.list s).1))
    | inr (x, p) ↦ rw p (ground (arith, p, validate_complete e))
  ]
