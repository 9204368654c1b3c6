-- ===== src/Groups/Laws.antt =====
-- Which groups are assigned to an application.
use azurerator.Base.{
  String, ◌≡◌, refl, ◌∙◌, Bool, true, false, Option, none, some, List, [], ◌∷◌, ◌++◌, ◌&&◌, ◌||◌,
  ◌==◌, contains, string_eq, if◌then◌else◌, arith, Bool-cases, Option-cases, inl, inr,
}
use azurerator.Base.Text.{nat_eq}
use azurerator.Base.Exec.{ok_inj, Result, Failure, ok, err, Result-cases}
use azurerator.Crd.{AzureAdApplication}
use azurerator.Resources.{Resource, has, add_all}
use azurerator.Resources.Laws.{has-append, has-add_all}
use azurerator.Groups.{
  Response, FoundGroup, Client, Config, map_to_resource, zeros, get_by_id, skipped, lookup_claim,
  groups_from, get_groups_from_claims, all_users_from, get_all_users_groups, get_groups, is_empty,
  allows_all_users,
}
use azurerator.Groups.Lookups.{IsLive, Gives, reply, get_by_id-Gives, reply_own_id}

abbrev pub found_in : Result (Option FoundGroup) → Bool
found_in (ok (some _)) = true
found_in _ = false

-- There is a group of this identifier.
abbrev pub is_group : (String → Response) → String → Bool
is_group response id = found_in (reply response id)

abbrev pub group_at : String → Resource
group_at id = map_to_resource record { id = id; display_name = "" }

found_in-skipped :
    (r : Result (Option FoundGroup)) (o : Option FoundGroup)
    → skipped r ≡ ok o
    → found_in r ≡ found_in (ok o)
found_in-skipped (ok none) o h = ground arith
found_in-skipped (ok (some g)) o h = ground arith
found_in-skipped (err Failure.bad_request) o h = ground arith
found_in-skipped (err Failure.not_found) o h = cc h
found_in-skipped (err Failure.namespace_terminating) o h = cc h
found_in-skipped (err Failure.already_owned) o h = cc h
found_in-skipped (err Failure.nil_pointer) o h = cc h
found_in-skipped (err Failure.other) o h = cc h

unskipped :
    (r : Result (Option FoundGroup)) (g : FoundGroup) → skipped r ≡ ok (some g) → r ≡ ok (some g)
unskipped (ok o) g h = h
unskipped (err Failure.bad_request) g h = cc h
unskipped (err Failure.not_found) g h = cc h
unskipped (err Failure.namespace_terminating) g h = cc h
unskipped (err Failure.already_owned) g h = cc h
unskipped (err Failure.nil_pointer) g h = cc h
unskipped (err Failure.other) g h = cc h

has-map_to_resource :
    (rs : List Resource) (g : FoundGroup) (x : String)
    → has (rs ++ map_to_resource g ∷ []) (group_at x) ≡ (has rs (group_at x) || g.id == x)
unfolding has map_to_resource
has-map_to_resource rs g x = has-append rs (map_to_resource g ∷ []) (group_at x) ∙ ground arith

-- How a round changes what is there, for an identifier without a group, a known one, and a new one.
module _ (P : String → Bool) (id x : String) (b c : Bool) where
  step_none : P id ≡ false → (b || (c && P x)) ≡ (b || ((x == id || c) && P x))
  step_none miss = elim (Bool-cases (x == id)) [
    | inr e ↦ rw (e)
    | inl e ↦ let same : x ≡ id = ground arith in rw (e, same, miss) (ground arith)
  ]

  step_known : (x ≡ id → b ≡ true) → (b || (c && P x)) ≡ (b || ((x == id || c) && P x))
  step_known known = elim (Bool-cases (x == id)) [
    | inr e ↦ rw (e)
    | inl e ↦ let same : x ≡ id = ground arith in rw (known same)
  ]

  step_new :
      (g : String)
      → g ≡ id
      → P id ≡ true
      → ((b || g == x) || (c && P x)) ≡ (b || ((x == id || c) && P x))
  step_new g own hit = elim (Bool-cases (x == id)) [
    | inr e ↦ ground arith
    | inl e ↦ let same : x ≡ id = ground arith in rw (own, same, hit) (ground arith)
  ]

none_of_empty :
    (b : Bool) (ids : List String) (x : String)
    → is_empty ids ≡ true
    → contains (if b then ids else []) x ≡ false
none_of_empty true [] x h = refl
none_of_empty false [] x h = refl
none_of_empty b (id ∷ ids) x h = cc h

-- A resource that is no group is none of these.
has-zeros : (ids : List String) (x : String) → has (zeros ids) (group_at x) ≡ false
unfolding zeros has map_to_resource string_eq
has-zeros [] x = refl
has-zeros (_ ∷ ids) x = has-zeros ids x

module _ {S : Type 0} (client : Client S) (response : String → Response) (Good : S → Type 0)
    (live : IsLive client response Good) where
  lookup_claim-Gives :
      (id : String) (s : S)
      → Good s
      → Gives client response Good live (lookup_claim client id s) (skipped (reply response id))
  unfolding lookup_claim
  lookup_claim-Gives id s g =
      let (t, (good, e)) = get_by_id-Gives client response Good live id s g in
      rw (e) (t, (good, refl))

  -- What the loop has seen is among its resources.
  abbrev SeenIn : List String → List Resource → Type 0
  SeenIn seen resources = (x : String) → contains seen x ≡ true → has resources (group_at x) ≡ true

  SeenIn-add :
      (seen : List String) (resources : List Resource) (id : String) (group : FoundGroup)
      → group.id ≡ id
      → SeenIn seen resources
      → SeenIn (id ∷ seen) (resources ++ map_to_resource group ∷ [])
  SeenIn-add seen resources id group own inv x h =
      rw (has-map_to_resource, own) (ground (arith, inv x))

  groups_from_lem :
      (ids seen : List String) (resources r : List Resource) (s : S)
      → Good s
      → SeenIn seen resources
      → (groups_from client ids seen resources s).0 ≡ ok r
      → Good (groups_from client ids seen resources s).1
        × ((x : String)
            → has r (group_at x)
              ≡ (has resources (group_at x) || (contains ids x && is_group response x)))
  unfolding groups_from
  groups_from_lem [] seen resources r s g inv h =
      let e : resources ≡ r = cc h in (g, λ x. rw (e) (ground arith))
  groups_from_lem (id ∷ ids) seen resources r s g inv h =
      let (t, (good, e)) = lookup_claim-Gives id s g in
      elim (Result-cases (skipped (reply response id))) [
        | inr (x, f) ↦
            let both : lookup_claim client id s ≡ (err x, t) = e ∙ rw (f) in
            let absurd : err x ≡ ok r = rw (both) at h in cc absurd
        | inl (none, f) ↦
            let both : lookup_claim client id s ≡ (ok none, t) = e ∙ rw (f) in
            let (keeps, rest) = groups_from_lem ids seen resources r t good inv (rw (both) at h) in
            let absurd = found_in-skipped (reply response id) none f in
            rw (both) (
              keeps,
              λ x.
                  rest x
                  ∙ step_none (is_group response) id x (has resources (group_at x)) (contains ids x)
                      absurd,
            )
        | inl (some group, f) ↦
            let both : lookup_claim client id s ≡ (ok (some group), t) = e ∙ rw (f) in
            let found = found_in-skipped (reply response id) (some group) f in
            let own =
              reply_own_id client response Good live id group
                (unskipped (reply response id) group f) in
            elim (Bool-cases (contains seen id)) [
              | inl i ↦
                  let (keeps, rest) =
                    groups_from_lem ids seen resources r t good inv (rw (both, i) at h) in
                  rw (both, i)
                    (
                      keeps,
                      λ x.
                          rest x
                          ∙ step_known (is_group response) id x (has resources (group_at x))
                              (contains ids x) (λ same. inv x (ground (arith, same, i))),
                    )
              | inr i ↦
                  let (keeps, rest) =
                    groups_from_lem ids (id ∷ seen) (resources ++ map_to_resource group ∷ []) r t
                      good (SeenIn-add seen resources id group own inv) (rw (both, i) at h) in
                  rw (both, i)
                    (
                      keeps,
                      λ x.
                          rest x
                          ∙ rw (has-map_to_resource) (
                              step_new (is_group response) id x (has resources (group_at x))
                                (contains ids x) group.id own found),
                    )
            ]
      ]

  all_users_from_lem :
      (ids : List String) (groups r : List Resource) (s : S)
      → Good s
      → (all_users_from client ids groups s).0 ≡ ok r
      → (x : String)
      → has r (group_at x) ≡ (has groups (group_at x) || (contains ids x && is_group response x))
  unfolding all_users_from
  all_users_from_lem [] groups r s g h x = let e : groups ≡ r = cc h in rw (e) (ground arith)
  all_users_from_lem (id ∷ ids) groups r s g h x =
      let (t, (good, e)) = get_by_id-Gives client response Good live id s g in
      elim (Result-cases (reply response id)) [
        | inr (y, f) ↦
            let both : get_by_id client id s ≡ (err y, t) = e ∙ rw (f) in
            let absurd : err y ≡ ok r = rw (both) at h in cc absurd
        | inl (none, f) ↦
            let both : get_by_id client id s ≡ (ok none, t) = e ∙ rw (f) in
            let absurd : err Failure.other ≡ ok r = rw (both) at h in cc absurd
        | inl (some group, f) ↦
            let both : get_by_id client id s ≡ (ok (some group), t) = e ∙ rw (f) in
            let own = reply_own_id client response Good live id group f in
            let found : is_group response id ≡ true = rw (is_group, f) in
            all_users_from_lem ids (groups ++ map_to_resource group ∷ []) r t good (rw (both) at h)
              x
            ∙ rw (has-map_to_resource) (
                step_new (is_group response) id x (has groups (group_at x)) (contains ids x)
                  group.id own found)
      ]

  -- The groups that the claims of an application list.
  abbrev pub claimed : AzureAdApplication → List String
  claimed app = elim app.spec.claims_groups [ none ↦ [] | some groups ↦ groups ]

  get_groups_from_claims_lem :
      (app : AzureAdApplication) (r : List Resource) (s : S)
      → Good s
      → (get_groups_from_claims client app s).0 ≡ ok r
      → Good (get_groups_from_claims client app s).1
        × ((x : String) → has r (group_at x) ≡ (contains (claimed app) x && is_group response x))
  unfolding get_groups_from_claims has
  get_groups_from_claims_lem app r s g h = elim (Option-cases app.spec.claims_groups) [
    | inl e ↦
        let same : [] ≡ r = let f : ok [] ≡ ok r = rw (e) at h in cc f in
        rw (e) (g, λ x. rw (← same) (ground arith))
    | inr (groups, e) ↦ rw (e) (groups_from_lem groups [] [] r s g (λ x f. cc f) (rw (e) at h))
  ]

  get_all_users_groups_lem :
      (config : Config) (r : List Resource) (s : S)
      → Good s
      → (get_all_users_groups client config s).0 ≡ ok r
      → (x : String)
      → has r (group_at x) ≡ (contains config.all_users_group_id x && is_group response x)
  unfolding get_all_users_groups
  get_all_users_groups_lem config r s g h x =
      all_users_from_lem config.all_users_group_id (zeros config.all_users_group_id) r s g h x
      ∙ rw (has-zeros config.all_users_group_id x)

  -- The groups of all users, where they are assigned.
  abbrev pub for_all_users : Config → AzureAdApplication → List String
  for_all_users config app =
      if config.app_role_assignment_required && allows_all_users app
      then config.all_users_group_id
      else []

  abbrev pub Expected : Config → AzureAdApplication → List Resource → String → Type 0
  Expected config app r x =
      has r (group_at x)
      ≡ ((contains (claimed app) x || contains (for_all_users config app) x) && is_group response x)

  -- If the answers of Azure and of the cache are what is live, and the groups can be determined,
  -- then the resources have exactly the groups that exist of those that the claims list and, where
  -- all users are allowed and assignments are required, of those configured for all users.
  pub get_groups_lem :
      (config : Config) (app : AzureAdApplication) (r : List Resource) (s : S)
      → Good s
      → (get_groups client config app s).0 ≡ ok r
      → (x : String) → Expected config app r x
  unfolding get_groups get_all_users_groups
  get_groups_lem config app r s g h x =
      elim (Result-cases (get_groups_from_claims client app s).0) [
        | inr (y, e) ↦ let absurd : err y ≡ ok r = rw (e) at h in cc absurd
        | inl (groups, e) ↦
            let (keeps, of_claims) = get_groups_from_claims_lem app groups s g e in
            let claims_only : groups ≡ r
                → contains (for_all_users config app) x ≡ false
                → Expected config app r x =
              λ same unused. rw (← same, of_claims x, unused) (ground arith) in
            elim (Bool-cases (is_empty config.all_users_group_id)) [
              | inl f ↦ claims_only (ok_inj groups r (rw (e, f) at h)) (
                  none_of_empty (config.app_role_assignment_required && allows_all_users app)
                    config.all_users_group_id x f)
              | inr f ↦ elim (Bool-cases config.app_role_assignment_required) [
                | inr i ↦ claims_only (ok_inj groups r (rw (e, f, i) at h)) (rw (i))
                | inl i ↦ elim (Bool-cases (allows_all_users app)) [
                  | inr j ↦ claims_only (ok_inj groups r (rw (e, f, i, j) at h)) (rw (i, j))
                  | inl j ↦
                      elim (Result-cases
                        (get_all_users_groups client config
                          (get_groups_from_claims client app s).1).0) [
                            | inr (y, k) ↦
                                let absurd : err y ≡ ok r = rw (e, f, i, j, k) at h in cc absurd
                            | inl (all_users, k) ↦
                                let same =
                                  ok_inj (add_all groups all_users) r (rw (e, f, i, j, k) at h) in
                                rw
                                  (
                                    i,
                                    j,
                                    ← same,
                                    has-add_all,
                                    of_claims x,
                                    get_all_users_groups_lem config all_users _ keeps k x,
                                  )
                                  (ground arith)
                          ]
                ]
              ]
            ]
      ]
