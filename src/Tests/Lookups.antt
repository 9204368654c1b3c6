-- ===== src/Tests/Lookups.antt =====
-- Runs of the theorems on pre-authorized applications and groups. The state of the first is whether
-- no request was made yet; the first one finds the application itself.
use azurerator.Base.{
  String, ◌<>◌, ◌≡◌, refl, Bool, true, false, Option, some, none, [], ◌∷◌, ◌++◌, ◌==◌, string_eq,
  if◌then◌else◌, arith, Bool-cases, inl, inr,
}
use text.Mathlib.TextLemmas.{append_cancel_left, append_cancel_right}
use azurerator.Base.Exec.{Result, ok, err}
use azurerator.Base.Text.{nat_eq}
use azurerator.Graph.{Application, PreAuthorizedApplication, ServicePrincipal}
use azurerator.Reconciler.{PreAuthorizedApps}
use azurerator.ApplicationClient.{
  filter_by_app_id, get_by_name, get_single_by_filter_or_error, get_all, exists_by_filter, remember,
  is_managed, patch_pre_authorized_applications,
}
use azurerator.ServicePrincipals
use azurerator.Assignments
use azurerator.PreAuthorizedAppClient
use azurerator.PreAuthorizedAppClient.{
  patch_pre_authorized, map_each, map_to_resource, ensure_fields_are_set,
  map_desired_pre_authorized_apps, to_apps, added_ids,
}
use azurerator.PreAuthorizedAppClient.Patches.{IsLive, listed, foreign, patch_pre_authorized_lem}
use azurerator.PreAuthorizedAppClient.Laws.{HasSelf, map_desired-HasSelf}
use azurerator.Tests.Permissions.{in_order, application, api}
use azurerator.Tests.Controller.{app}
use azurerator.Tests.Credentials.{resource}

abbrev unique_name : String → String → String → String
unique_name name namespace cluster = cluster <> (":" <> (namespace <> (":" <> name)))

abbrev pre_authorized : String → PreAuthorizedApplication
pre_authorized id = record { app_id = id; delegated_permission_ids = [] }

abbrev pre_authorizing : Application
pre_authorizing = record application {
  api =
      some (record api {
        pre_authorized_applications = pre_authorized "c1" ∷ pre_authorized "c2" ∷ [];
      });
}

abbrev outsider : Application
outsider = record application { app_id = "c1" }

abbrev by_filter : String → Option Application
by_filter filter = if filter == filter_by_app_id "c1" then some outsider else none

abbrev directory : String → Option Application
directory id = by_filter (filter_by_app_id id)

abbrev assignments_of_none : String → Assignments.Client Bool
assignments_of_none target = record {
  get_all = λ s. (ok [], s);
  add = λ a s. (ok tt, s);
  delete = λ o s. (ok tt, s);
  client_id_of = λ p s. (ok p, s);
  is_managed_cached = λ p s. (ok none, s);
  is_managed = λ p s. (ok true, s);
}

abbrev a_principal : ServicePrincipal
a_principal = record {
  id = "sp";
  app_id = "client";
  app_role_assignment_required = none;
  tags = [];
}

abbrev apps_client : PreAuthorizedAppClient.Client Bool
apps_client = record {
  applications = record {
    list_applications = λ filter first.
        (ok (if first then pre_authorizing ∷ [] else listed (by_filter filter)), false);
    add_application = λ r s. (ok pre_authorizing, s);
    delete_application = λ id s. (ok tt, s);
    patch = λ id p s. (ok tt, s);
    owners = λ id s. (ok [], s);
    add_owner = λ id o s. (ok tt, s);
    is_managed_cached = λ id s. none;
    set_managed = λ id b s. s;
  };
  principals = record {
    get_principal = λ id s. (ok a_principal, s);
    list_principals = λ filter s. (ok (a_principal ∷ []), s);
    add_principal = λ r s. (ok a_principal, s);
    update_principal = λ id r s. (ok tt, s);
    patch_security_attributes = λ id a s. (ok tt, s);
    owners = λ id s. (ok [], s);
    add_owner = λ id o s. (ok tt, s);
    policies = λ id s. (ok [], s);
    add_policy = λ id p s. (ok tt, s);
    remove_policy = λ id p s. (ok tt, s);
    list_grants = λ filter s. (ok [], s);
    add_grant = λ g s. (ok tt, s);
    client_id_cached = λ id s. none;
    cache_client_id = λ id c s. s;
    principal_id_cached = λ id s. none;
    cache_principal_id = λ id p s. s;
  };
  assignments = assignments_of_none;
}

own_id : (id : String) (a : Application) → directory id ≡ some a → a.app_id ≡ id
unfolding filter_by_app_id
own_id id a h = elim (Bool-cases (filter_by_app_id id == filter_by_app_id "c1")) [
  | inl e ↦
      let same : filter_by_app_id id ≡ filter_by_app_id "c1" = ground arith in
      let ids : id ≡ "c1" =
        append_cancel_right id "c1" "'"
          (append_cancel_left "appId eq '" (id <> "'") ("c1" <> "'") same) in
      let is_it : some outsider ≡ some a = rw (e) at h in
      let it : outsider ≡ a = cc is_it in rw (← it, ids) refl
  | inr e ↦ let absurd : none ≡ some a = rw (e) at h in cc absurd
]

apps_live : IsLive apps_client.applications directory (λ s. s ≡ false)
apps_live = record {
  answers = λ id s g. rw (g);
  answers_keep = λ id s g. refl;
  own_id = own_id;
  cached = λ id s a b g h e. cc e;
  caching_keeps = λ id s a g h. g;
}

self_found :
    get_by_name apps_client.applications (unique_name app.name app.namespace "dev") true
    ≡ (ok pre_authorizing, false)
unfolding get_by_name get_single_by_filter_or_error get_all remember is_managed
self_found = refl

patch_pre_authorized_lem_example :
    (u : Bool) × ((u ≡ false)
      × (patch_pre_authorized apps_client unique_name in_order "dev" app
            (resource "1" "ServicePrincipal" ∷ [])
            []
            true
          ≡ apps_client.applications.patch "object"
              (patch_pre_authorized_applications (
                to_apps in_order (resource "1" "ServicePrincipal" ∷ []) []
                ++ foreign directory
                    (added_ids (resource "1" "ServicePrincipal" ∷ []))
                    (pre_authorized "c1" ∷ pre_authorized "c2" ∷ [])))
              u))
patch_pre_authorized_lem_example =
    patch_pre_authorized_lem apps_client directory (λ s. s ≡ false) unique_name apps_live in_order
      "dev" app (resource "1" "ServicePrincipal" ∷ []) [] true false pre_authorizing
      (record api { pre_authorized_applications = pre_authorized "c1" ∷ pre_authorized "c2" ∷ [] })
      self_found refl refl

apps_in : Result PreAuthorizedApps → PreAuthorizedApps
apps_in (ok apps) = apps
apps_in (err e) = record { valid = []; invalid = [] }

abbrev mapped : PreAuthorizedApps
mapped = apps_in (map_desired_pre_authorized_apps apps_client unique_name "dev" app true).0

mapping : (map_desired_pre_authorized_apps apps_client unique_name "dev" app true).0 ≡ ok mapped
unfolding apps_in map_desired_pre_authorized_apps map_each map_to_resource exists_by_filter get_all
    remember is_managed ServicePrincipals.exists ensure_fields_are_set string_eq
mapping = refl

map_desired-HasSelf_example : HasSelf (unique_name app.name app.namespace "dev") mapped
map_desired-HasSelf_example =
    map_desired-HasSelf apps_client unique_name "dev" app true mapped mapping
