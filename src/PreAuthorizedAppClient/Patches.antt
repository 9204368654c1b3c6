-- ===== src/PreAuthorizedAppClient/Patches.antt =====
-- Which of the existing pre-authorized applications a patch preserves.
use azurerator.Base.{
  String, ◌≡◌, refl, Bool, true, false, not, Option, none, some, List, [], ◌∷◌, ◌++◌, ◌&&◌,
  contains, string_eq, if◌then◌else◌, arith, Bool-cases, Option-cases, inl, inr,
}
use mathlib.Core.List.{append-nil, append_assoc}
use azurerator.Base.Dict.{Iteration}
use azurerator.Base.Exec.{Result, ok}
use azurerator.Crd.{AzureAdApplication}
use azurerator.Graph.{Application, ApiApplication, PreAuthorizedApplication}
use azurerator.Permissions.{Permissions}
use azurerator.Resources.{Resource}
use azurerator.ApplicationClient
use azurerator.ApplicationClient.{
  filter_by_app_id, has_managed_tag, patch_pre_authorized_applications, get_by_name, is_managed,
  remember, get_all, exists_by_filter,
}
use azurerator.PreAuthorizedAppClient.{
  Client, is_unmanaged, is_preserved, preserve_each, patch_pre_authorized, added_ids, to_apps,
}

abbrev pub listed : Option Application → List Application
listed none = []
listed (some a) = a ∷ []

-- In every good state, Azure answers a search for an identifier with the application that the
-- directory has, and what the cache holds of an application of the directory is whether it has a
-- tag of a managed one. A search and an entry of that kind lead from good states to good ones.
pub record IsLive {S : Type 0} (client : ApplicationClient.Client S)
    (directory : String → Option Application) (Good : S → Type 0) : Type 0 where
  pub answers :
      (id : String) (s : S)
      → Good s
      → (client.list_applications (filter_by_app_id id) s).0 ≡ ok (listed (directory id))
  pub answers_keep :
      (id : String) (s : S) → Good s → Good (client.list_applications (filter_by_app_id id) s).1
  pub own_id : (id : String) (a : Application) → directory id ≡ some a → a.app_id ≡ id
  pub cached :
      (id : String) (s : S) (a : Application) (b : Bool)
      → Good s
      → directory id ≡ some a
      → client.is_managed_cached id s ≡ some b
      → b ≡ has_managed_tag a.tags
  pub caching_keeps :
      (id : String) (s : S) (a : Application)
      → Good s
      → directory id ≡ some a
      → Good (client.set_managed id (has_managed_tag a.tags) s)

-- An application of the directory without the tags of a managed one.
abbrev pub is_foreign : (String → Option Application) → String → Bool
is_foreign directory id = elim (directory id) [
  | none ↦ false
  | some a ↦ not (has_managed_tag a.tags)
]

-- The applications of a list that are foreign and are not added anyway.
abbrev pub foreign :
    (String → Option Application)
    → List String
    → List PreAuthorizedApplication
    → List PreAuthorizedApplication
foreign directory added [] = []
foreign directory added (a ∷ apps) =
    let rest = foreign directory added apps in
    if not (contains added a.app_id) && is_foreign directory a.app_id then a ∷ rest else rest

module _ {S : Type 0} (client : Client S) (directory : String → Option Application)
    (Good : S → Type 0) (uniform_resource_name : String → String → String → String)
    (live : IsLive client.applications directory Good) where
  -- It succeeds with an answer, and leaves a good state.
  abbrev Answers : {A : Type 0} → Result A × S → A → Type 0
  Answers outcome a = (t : S) × (Good t × (outcome ≡ (ok a, t)))

  is_managed-Good :
      (id : String) (a : Application) (s : S)
      → Good s
      → directory id ≡ some a
      → Good (is_managed client.applications a s).1
        × ((is_managed client.applications a s).0 ≡ has_managed_tag a.tags)
  unfolding is_managed
  is_managed-Good id a s g h = elim (Option-cases (client.applications.is_managed_cached id s)) [
    | inl e ↦
        rw (live.own_id id a h, e, is_managed, live.own_id id a h)
          (live.caching_keeps id s a g h, refl)
    | inr (b, e) ↦ rw (live.own_id id a h, e, is_managed) (g, live.cached id s a b g h e)
  ]

  -- The state after a search.
  abbrev searched : String → S → S
  searched id s = (client.applications.list_applications (filter_by_app_id id) s).1

  search :
      (id : String) (s : S)
      → Good s
      → client.applications.list_applications (filter_by_app_id id) s
        ≡ (ok (listed (directory id)), searched id s)
  search id s g = let e = live.answers id s g in ground arith

  is_unmanaged-Answers :
      (id : String) (s : S)
      → Good s
      → Answers (is_unmanaged client uniform_resource_name id s) (is_foreign directory id)
  unfolding is_unmanaged exists_by_filter get_all remember
  is_unmanaged-Answers id s g = elim (Option-cases (directory id)) [
    | inl e ↦
        let none_foreign : is_foreign directory id ≡ false = rw (is_foreign, e) in
        rw (search id s g, none_foreign, e) (searched id s, (live.answers_keep id s g, refl))
    | inr (a, e) ↦
        let one = is_managed-Good id a (searched id s) (live.answers_keep id s g) e in
        let two = is_managed-Good id a _ one.0 e in
        let tags : is_foreign directory id ≡ not (has_managed_tag a.tags) = rw (is_foreign, e) in
        rw (search id s g, tags, e) (_, (two.0, rw (two.1) (ground arith)))
  ]

  -- An application that the cache knows as managed is not foreign.
  cached_not_foreign :
      (id : String) (s : S)
      → Good s
      → client.applications.is_managed_cached id s ≡ some true
      → is_foreign directory id ≡ false
  cached_not_foreign id s g h = elim (Option-cases (directory id)) [
    | inl e ↦ rw (is_foreign, e)
    | inr (a, e) ↦ let tags = live.cached id s a true g e h in rw (is_foreign, e, ← tags)
  ]

  abbrev kept : List String → PreAuthorizedApplication → Bool
  kept added existing = not (contains added existing.app_id) && is_foreign directory existing.app_id

  is_preserved-Answers :
      (added : List String) (existing : PreAuthorizedApplication) (s : S)
      → Good s
      → Answers (is_preserved client uniform_resource_name added existing s) (kept added existing)
  unfolding is_preserved
  is_preserved-Answers added existing s g = elim (Bool-cases (contains added existing.app_id)) [
    | inl e ↦ rw (e) (s, (g, refl))
    | inr e ↦ elim (Option-cases (client.applications.is_managed_cached existing.app_id s)) [
      | inl f ↦ rw (e, f) (is_unmanaged-Answers existing.app_id s g)
      | inr (false, f) ↦ rw (e, f) (is_unmanaged-Answers existing.app_id s g)
      | inr (true, f) ↦
          let no = cached_not_foreign existing.app_id s g f in rw (e, f, no) (s, (g, refl))
    ]
  ]

  preserve_each-Answers :
      (added : List String) (existing apps : List PreAuthorizedApplication) (s : S)
      → Good s
      → Answers
          (preserve_each client uniform_resource_name added existing apps s)
          (apps ++ foreign directory added existing)
  unfolding preserve_each
  preserve_each-Answers added [] apps s g = (s, (g, rw (append-nil)))
  preserve_each-Answers added (a ∷ existing) apps s g =
      let (t, (good, e)) = is_preserved-Answers added a s g in
      elim (Bool-cases (kept added a)) [
        | inl f ↦
            rw (e, f, ← append_assoc apps (a ∷ []) (foreign directory added existing))
              (preserve_each-Answers added existing (apps ++ a ∷ []) t good)
        | inr f ↦ rw (e, f) (preserve_each-Answers added existing apps t good)
      ]

  -- If the answers of Azure and of the cache are what is live, the patch of an application that is
  -- found sends the valid resources, followed by those of the existing pre-authorized applications
  -- that exist, have no tag of a managed one and are not among the resources.
  pub patch_pre_authorized_lem :
      (it : Iteration) (cluster : String) (self : AzureAdApplication) (resources : List Resource)
      (permissions : Permissions) (s t : S) (application : Application) (api : ApiApplication)
      → get_by_name client.applications (uniform_resource_name self.name self.namespace cluster) s
        ≡ (ok application, t)
      → application.api ≡ some api
      → Good t
      → (u : S) × (Good u
          × (patch_pre_authorized client uniform_resource_name it cluster self resources permissions
                s
              ≡ client.applications.patch self.status.object_id
                  (patch_pre_authorized_applications (
                    to_apps it resources permissions
                    ++ foreign directory (added_ids resources) api.pre_authorized_applications))
                  u))
  unfolding patch_pre_authorized
  patch_pre_authorized_lem it cluster self resources permissions s t application api h e g =
      let (u, (good, f)) =
        preserve_each-Answers (added_ids resources) api.pre_authorized_applications
          (to_apps it resources permissions) t g in
      rw (h, e, f) (u, (good, refl))
