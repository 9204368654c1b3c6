-- ===== src/Sweeper/Laws.antt =====
-- Which applications a sweep marks.
use azurerator.Base.{
  String, ◌≡◌, refl, ◌∙◌, Bool, true, false, not, Option, none, some, List, [], ◌∷◌, ◌&&◌, ◌||◌,
  ◌==◌, string_eq, arith, Bool-cases, Option-cases, inl, inr,
}
use azurerator.Base.Dict.{is_some}
use azurerator.Base.Exec.{Failure, ok, err, Result-cases}
use azurerator.Crd.{AccessPolicyRule, PreAuthorizedAppStatus, AzureAdApplication}
use azurerator.Annotations.{resynchronize_key, has_annotation}
use azurerator.Sweeper.{
  Resolved, Client, resolve, or_else, became_assignable, was_recreated, any_entry,
  has_resyncable_pre_auth_app, should_resync,
}

-- What is `live` in Azure while the sweep looks: an answer of Azure is that, an error is where
-- there is no answer, and the cache holds nothing else.
pub record Answers {S : Type 0} (client : Client S) (live : AccessPolicyRule → Option Resolved)
    : Type 0 where
  pub cached :
      (rule : AccessPolicyRule) (s : S) (r : Resolved)
      → client.cache_get rule s ≡ some r
      → live rule ≡ some r
  pub answered :
      (rule : AccessPolicyRule) (s : S) (client_id : String) (assignable : Bool)
      → (client.pre_authorized_app_client_id rule s).0 ≡ ok (client_id, assignable)
      → live rule ≡ some (record { client_id = client_id; assignable = assignable })
  pub failed :
      (rule : AccessPolicyRule) (s : S) (e : Failure)
      → (client.pre_authorized_app_client_id rule s).0 ≡ err e
      → live rule ≡ none

module _ (live : AccessPolicyRule → Option Resolved) where
  -- The entry's application can be assigned by now.
  abbrev pub assignable_now : PreAuthorizedAppStatus → Bool
  assignable_now entry = elim entry.access_policy_rule [
    | none ↦ false
    | some rule ↦ elim (live rule) [ none ↦ false | some r ↦ r.assignable ]
  ]

  -- The entry's application is of another cluster, and has another client ID by now.
  abbrev pub recreated_now : String → PreAuthorizedAppStatus → Bool
  recreated_now cluster entry = elim entry.access_policy_rule [
    | none ↦ false
    | some rule ↦ not (rule.cluster == cluster) && elim (live rule) [
      | none ↦ false
      | some r ↦ r.assignable && not (r.client_id == entry.client_id)
    ]
  ]

abbrev pub any_of : (PreAuthorizedAppStatus → Bool) → List PreAuthorizedAppStatus → Bool
any_of test [] = false
any_of test (entry ∷ entries) = test entry || any_of test entries

module _ {S : Type 0} (client : Client S) (live : AccessPolicyRule → Option Resolved)
    (answers : Answers client live) where
  resolve-live : (rule : AccessPolicyRule) (s : S) → (resolve client rule s).0 ≡ live rule
  unfolding resolve
  resolve-live rule s = elim (Option-cases (client.cache_get rule s)) [
    | inr (r, e) ↦ rw (e, resolve, answers.cached rule s r e)
    | inl e ↦ elim (Result-cases (client.pre_authorized_app_client_id rule s).0) [
      | inl ((c, a), p) ↦ rw (e, p, resolve, answers.answered rule s c a p)
      | inr (x, p) ↦ rw (e, p, resolve, answers.failed rule s x p)
    ]
  ]

  or_else-first :
      (m : Bool × S) (f : S → Bool × S) (b c : Bool)
      → m.0 ≡ b
      → ((s : S) → (f s).0 ≡ c)
      → (or_else client m f).0 ≡ (b || c)
  or_else-first (true, s) f b c h k = ground arith
  or_else-first (false, s) f b c h k = k s ∙ ground arith

  any_entry-any_of :
      (test : PreAuthorizedAppStatus → S → Bool × S) (holds : PreAuthorizedAppStatus → Bool)
      → ((entry : PreAuthorizedAppStatus) (s : S) → (test entry s).0 ≡ holds entry)
      → (entries : List PreAuthorizedAppStatus) (s : S)
      → (any_entry client test entries s).0 ≡ any_of holds entries
  unfolding any_entry
  any_entry-any_of test holds h [] s = refl
  any_entry-any_of test holds h (entry ∷ entries) s =
      or_else-first (test entry s) (any_entry client test entries) (holds entry)
        (any_of holds entries) (h entry s) (any_entry-any_of test holds h entries)

  became_assignable-now :
      (entry : PreAuthorizedAppStatus) (s : S)
      → (became_assignable client entry s).0 ≡ assignable_now live entry
  unfolding became_assignable
  became_assignable-now entry s = elim (Option-cases entry.access_policy_rule) [
    | inl e ↦ rw (e, became_assignable)
    | inr (rule, e) ↦ rw (e, became_assignable, resolve-live rule s)
  ]

  was_recreated-now :
      (cluster : String) (entry : PreAuthorizedAppStatus) (s : S)
      → (was_recreated client cluster entry s).0 ≡ recreated_now live cluster entry
  unfolding was_recreated
  was_recreated-now cluster entry s = elim (Option-cases entry.access_policy_rule) [
    | inl e ↦ rw (e, was_recreated)
    | inr (rule, e) ↦ elim (Bool-cases (rule.cluster == cluster)) [
      | inl f ↦ rw (e, f, was_recreated)
      | inr f ↦ rw (e, f, was_recreated, resolve-live rule s)
    ]
  ]

  -- If the answers of Azure and of the cache are what is live during the sweep, an application is
  -- found to need a resync exactly if it has been synchronized for this tenant, no resync is
  -- pending, and an unassigned application can be assigned by now or an assigned one of another
  -- cluster was recreated.
  pub should_resync_lem :
      (cluster tenant : String) (app : AzureAdApplication) (s : S)
      → (should_resync client cluster tenant app s).0 ≡ elim app.status.pre_authorized_apps [
        | none ↦ false
        | some apps ↦
            app.status.synchronization_tenant == tenant
            && not (is_some (has_annotation app.annotations resynchronize_key))
            && (any_of (assignable_now live) apps.unassigned
                || any_of (recreated_now live cluster) apps.assigned)
      ]
  unfolding should_resync has_resyncable_pre_auth_app
  should_resync_lem cluster tenant app s = elim (Option-cases app.status.pre_authorized_apps) [
    | inl e ↦ rw (e, should_resync)
    | inr (apps, e) ↦
        let found =
          or_else-first (any_entry client (became_assignable client) apps.unassigned s)
            (any_entry client (was_recreated client cluster) apps.assigned)
            (any_of (assignable_now live) apps.unassigned)
            (any_of (recreated_now live cluster) apps.assigned)
            (any_entry-any_of (became_assignable client) (assignable_now live) became_assignable-now
              apps.unassigned s)
            (any_entry-any_of (was_recreated client cluster) (recreated_now live cluster)
              (was_recreated-now cluster) apps.assigned) in
        elim (Bool-cases (app.status.synchronization_tenant == tenant)) [
          | inr f ↦ rw (e, f, should_resync)
          | inl f ↦ elim (Bool-cases (is_some (has_annotation app.annotations resynchronize_key))) [
            | inl g ↦ rw (e, f, g, should_resync)
            | inr g ↦ rw (e, f, g, should_resync) found
          ]
        ]
  ]
