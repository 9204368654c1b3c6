-- ===== src/Tests/Assigned.antt =====
-- Runs of the theorems on groups: every group exists, nothing is cached, and the state is empty.
use azurerator.Base.{String, ◌≡◌, refl, true, some, none, List, [], ◌∷◌, string_eq}
use azurerator.Base.Exec.{Result, ok, err}
use azurerator.Base.Text.{nat_eq}
use azurerator.Crd.{AzureAdApplication}
use azurerator.Resources.{Resource, has, add, add_all}
use azurerator.Groups.{
  Response, Client, Config, FoundGroup, complete, decode_json_response_for_get_request, fetch,
  get_by_id, lookup_claim, groups_from, get_groups_from_claims, get_all_users_groups,
  all_users_from, get_groups, zeros, map_to_resource, allows_all_users,
}
use azurerator.Groups.Lookups.{IsLive, outcome}
use azurerator.Groups.Laws.{Expected, get_groups_lem}
use azurerator.Tests.Controller.{app}

abbrev response : String → Response
response id = record {
  status = 200;
  readable = true;
  decoded = ok (some (record { id = some id; display_name = some "a group" }));
}

abbrev groups_client : Client (Unit {0})
groups_client = record {
  get_group = λ id s. (ok (response id), s);
  group_cached = λ id s. none;
  cache_group = λ id g s. s;
  assignments = λ target. record {
    get_all = λ s. (ok [], s);
    add = λ a s. (ok tt, s);
    delete = λ o s. (ok tt, s);
    client_id_of = λ p s. (ok p, s);
    is_managed_cached = λ p s. (ok none, s);
    is_managed = λ p s. (ok true, s);
  };
}

same_group : (id : String) (g : FoundGroup) → outcome (response id) ≡ ok (some g) → g.id ≡ id
unfolding decode_json_response_for_get_request complete nat_eq
same_group id g h =
    let it : record { id = id; display_name = "a group" } ≡ g = cc h in rw (← it) refl

groups_live : IsLive groups_client response (λ s. Unit {0})
groups_live = record {
  answers = λ id s g. refl;
  answers_keep = λ id s g. tt;
  own_id = same_group;
  cached = λ id s g good e. cc e;
  caching_keeps = λ id s g good e. tt;
}

abbrev for_everyone : AzureAdApplication
for_everyone = record app {
  spec = record app.spec {
    claims_groups = some ("1" ∷ "" ∷ "1" ∷ []);
    allow_all_users = some true;
  };
}

abbrev group_config : Config
group_config = record { all_users_group_id = "9" ∷ []; app_role_assignment_required = true }

groups_in : Result (List Resource) → List Resource
groups_in (ok rs) = rs
groups_in (err e) = []

abbrev assigned_groups : List Resource
assigned_groups = groups_in (get_groups groups_client group_config for_everyone tt).0

got : (get_groups groups_client group_config for_everyone tt).0 ≡ ok assigned_groups
unfolding groups_in get_groups get_groups_from_claims groups_from lookup_claim get_by_id fetch
    get_all_users_groups all_users_from zeros allows_all_users map_to_resource
    decode_json_response_for_get_request complete nat_eq string_eq add_all add has
got = refl

get_groups_lem_example :
    Expected groups_client response
      (λ s. Unit {0})
      groups_live
      group_config
      for_everyone
      assigned_groups
      "9"
get_groups_lem_example =
    get_groups_lem groups_client response (λ s. Unit {0}) groups_live group_config for_everyone
      assigned_groups tt tt got "9"
