-- ===== src/Sweeper.antt =====
-- pkg/synchronizer/sweeper.go: the periodic sweep. `Client` has the requests and the cache; an
-- expired entry of the cache is one that is not found. The ticker, logging and metrics are left out.
pub mod Laws
use azurerator.Base.{
  String, Bool, true, false, not, Option, none, some, List, [], ◌∷◌, ◌&&◌, ◌||◌, ◌==◌, string_eq,
  if◌then◌else◌,
}
use azurerator.Base.Dict.{is_some}
use azurerator.Base.Exec.{Exec, Result, Failure, ok, err, pure, then_do, ◌>>=◌, ◌>>◌}
use azurerator.Crd.{
  AccessPolicyRule, PreAuthorizedAppStatus, PreAuthorizedAppsStatus, AzureAdApplication,
}
use azurerator.Annotations.{resynchronize_key, has_annotation, set_annotation}

abbrev pub source_sweeper : String
source_sweeper = "sweeper"

pub record Resolved : Type 0 where
  pub client_id : String
  pub assignable : Bool

pub record Client (S : Type 0) : Type 0 where
  pub list : Exec S (List AzureAdApplication)
  pub get : String → String → Exec S AzureAdApplication
  pub update : AzureAdApplication → Exec S (Unit {0})
  -- `retry.RetryOnConflict`, for a function that says whether it marked the application
  pub retry_on_conflict : Exec S Bool → Exec S Bool
  pub pre_authorized_app_client_id : AccessPolicyRule → Exec S (String × Bool)
  -- The cache, under the unique name of a rule.
  pub cache_get : AccessPolicyRule → S → Option Resolved
  pub cache_set : AccessPolicyRule → Resolved → S → S

module _ {S : Type 0} (client : Client S) where
  unfoldable pub resolve : AccessPolicyRule → S → Option Resolved × S
  resolve rule s = elim (client.cache_get rule s) [
    | some r ↦ (some r, s)
    | none ↦
        let answer = client.pre_authorized_app_client_id rule s in
        elim answer.0 [
          | err e ↦ (none, answer.1)
          | ok (client_id, assignable) ↦
              let r : Resolved = record { client_id = client_id; assignable = assignable } in
              (some r, client.cache_set rule r answer.1)
        ]
  ]

  abbrev pub or_else : Bool × S → (S → Bool × S) → Bool × S
  or_else (true, s) f = (true, s)
  or_else (false, s) f = f s

  -- A round of the first loop of `hasResyncablePreAuthApp`, and one of the second.
  unfoldable pub became_assignable : PreAuthorizedAppStatus → S → Bool × S
  unfolding resolve
  became_assignable entry s = elim entry.access_policy_rule [
    | none ↦ (false, s)
    | some rule ↦ let r = resolve rule s in (elim r.0 [ none ↦ false | some v ↦ v.assignable ], r.1)
  ]

  unfoldable pub was_recreated : String → PreAuthorizedAppStatus → S → Bool × S
  unfolding resolve
  was_recreated cluster entry s = elim entry.access_policy_rule [
    | none ↦ (false, s)
    | some rule ↦
        if rule.cluster == cluster
        then (false, s)
        else let r = resolve rule s in
          (
            elim r.0 [
              | none ↦ false
              | some v ↦ v.assignable && not (v.client_id == entry.client_id)
            ],
            r.1,
          )
  ]

  unfoldable pub any_entry :
      (PreAuthorizedAppStatus → S → Bool × S) → List PreAuthorizedAppStatus → S → Bool × S
  any_entry test [] s = (false, s)
  any_entry test (entry ∷ entries) s = or_else (test entry s) (any_entry test entries)

  unfoldable pub has_resyncable_pre_auth_app : String → PreAuthorizedAppsStatus → S → Bool × S
  unfolding any_entry became_assignable was_recreated
  has_resyncable_pre_auth_app cluster apps s =
      or_else (any_entry became_assignable apps.unassigned s)
        (any_entry (was_recreated cluster) apps.assigned)

  unfoldable pub should_resync : String → String → AzureAdApplication → S → Bool × S
  unfolding has_resyncable_pre_auth_app
  should_resync cluster tenant app s = elim app.status.pre_authorized_apps [
    | none ↦ (false, s)
    | some apps ↦
        if not (app.status.synchronization_tenant == tenant)
        then (false, s)
        else if is_some (has_annotation app.annotations resynchronize_key)
        then (false, s)
        else has_resyncable_pre_auth_app cluster apps s
  ]

  -- What the sweep writes on an application.
  unfoldable pub marked : AzureAdApplication → AzureAdApplication
  marked existing = record existing {
    annotations = set_annotation existing.annotations resynchronize_key source_sweeper;
  }

  unfoldable pub resync : AzureAdApplication → Exec S Bool
  unfolding marked
  resync app = client.retry_on_conflict do
    existing ← client.get app.namespace app.name
    (if is_some (has_annotation existing.annotations resynchronize_key)
        then pure false
        else (client.update (marked existing) >> pure true))

  -- An error of one application is logged, and the loop goes on.
  unfoldable pub sweep_each : String → String → List AzureAdApplication → S → S
  unfolding should_resync resync
  sweep_each cluster tenant [] s = s
  sweep_each cluster tenant (app ∷ apps) s =
      let (wanted, t) = should_resync cluster tenant app s in
      sweep_each cluster tenant apps (if wanted then (resync app t).1 else t)

  unfoldable pub sweep : String → String → S → S
  unfolding sweep_each
  sweep cluster tenant s = elim (client.list s).0 [
    | err e ↦ (client.list s).1
    | ok apps ↦ sweep_each cluster tenant apps (client.list s).1
  ]
