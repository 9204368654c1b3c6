-- ===== src/Tests/Fields.antt =====
-- Runs of the theorems on the URIs of an application, and on the sweep.
use azurerator.Base.{
  String, ◌≡◌, ap, Option, none, Bool, true, false, not, some, [], ◌∷◌, ◌&&◌, ◌||◌, ◌==◌, contains,
  string_eq, if◌then◌else◌,
}
use azurerator.Base.Dict.{is_some}
use azurerator.Base.Exec.{Result, ok, err}
use azurerator.Annotations.{has_annotation, resynchronize_key}
use azurerator.Sweeper
use azurerator.Sweeper.{Resolved, should_resync}
use azurerator.Sweeper.Laws.{Answers, assignable_now, recreated_now, any_of, should_resync_lem}
use azurerator.Crd.{AzureAdApplication, AccessPolicyRule}
use azurerator.IdentifierUris
use azurerator.IdentifierUris.Laws.{describe_update-settles}
use azurerator.Registered.Laws.{NodupKeys}
use azurerator.RedirectUris
use azurerator.RedirectUris.Laws.{is_spa, app-reply_urls}
use azurerator.Tests.Controller.{app}

describe_update-settles_example :
    ((k : String)
      → contains (IdentifierUris.describe_update app ("api://old" ∷ []) "dev") k
        ≡ (contains ("api://old" ∷ []) k || contains (IdentifierUris.default_uris app "dev") k))
    × (IdentifierUris.describe_update app
          (IdentifierUris.describe_update app ("api://old" ∷ []) "dev")
          "dev"
        ≡ IdentifierUris.describe_update app ("api://old" ∷ []) "dev")
describe_update-settles_example = describe_update-settles app ("api://old" ∷ []) "dev"

-- Stands for the check of a URL.
abbrev pub is_url : String → Bool
is_url s = not (s == "nonsense")

abbrev single_page : AzureAdApplication
single_page = record app {
  spec = record app.spec {
    reply_urls = "https://a" ∷ "nonsense" ∷ "https://a" ∷ [];
    single_page_application = some true;
  };
}

app-reply_urls_example :
    ((k : String)
      → contains
          (if is_spa is_url single_page
            then (RedirectUris.app is_url single_page).spa
            else (RedirectUris.app is_url single_page).web)
          k
        ≡ (contains single_page.spec.reply_urls k && is_url k))
    × NodupKeys (
        if is_spa is_url single_page
        then (RedirectUris.app is_url single_page).spa
        else (RedirectUris.app is_url single_page).web)
    × ((if is_spa is_url single_page
          then (RedirectUris.app is_url single_page).web
          else (RedirectUris.app is_url single_page).spa)
        ≡ [])
app-reply_urls_example = app-reply_urls is_url single_page

-- Azure, where every application exists with one client ID; nothing is cached.
abbrev azure_of_sweep : Sweeper.Client Bool
azure_of_sweep = record {
  list = λ s. (ok (app ∷ []), s);
  get = λ namespace name s. (ok app, s);
  update = λ a s. (ok tt, s);
  retry_on_conflict = λ m. m;
  pre_authorized_app_client_id = λ rule s. (ok ("client", true), s);
  cache_get = λ rule s. none;
  cache_set = λ rule r s. s;
}

abbrev live : AccessPolicyRule → Option Resolved
live rule = some (record { client_id = "client"; assignable = true })

resolved_of : Result (String × Bool) → Option Resolved
resolved_of (ok (c, a)) = some (record { client_id = c; assignable = a })
resolved_of (err e) = none

answers : Answers azure_of_sweep live
unfolding resolved_of
answers = record {
  cached = λ rule s r e. cc e;
  answered = λ rule s c a e. ap resolved_of e;
  failed = λ rule s x e. cc e;
}

-- One of its applications was not found when it was synchronized.
abbrev waiting : AzureAdApplication
waiting = record app {
  status = record app.status {
    synchronization_tenant = "tenant";
    pre_authorized_apps = some (record {
      assigned = [];
      unassigned =
          record {
            access_policy_rule =
                some (record { application = "b"; namespace = "team"; cluster = "dev" });
            client_id = "";
            service_principal_object_id = "";
          }
          ∷ [];
    });
  };
}

should_resync_example :
    (should_resync azure_of_sweep "dev" "tenant" waiting true).0
    ≡ elim waiting.status.pre_authorized_apps [
      | none ↦ false
      | some apps ↦
          waiting.status.synchronization_tenant == "tenant"
          && not (is_some (has_annotation waiting.annotations resynchronize_key))
          && (any_of (assignable_now live) apps.unassigned
              || any_of (recreated_now live "dev") apps.assigned)
    ]
should_resync_example = should_resync_lem azure_of_sweep live answers "dev" "tenant" waiting true
