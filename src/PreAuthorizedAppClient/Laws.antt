-- ===== src/PreAuthorizedAppClient/Laws.antt =====
-- Which applications are valid.
use azurerator.Base.{
  String, ◌≡◌, refl, ◌∙◌, true, false, List, [], ◌∷◌, ◌++◌, ◌||◌, ◌==◌, contains, string_eq,
  if◌then◌else◌, arith, Bool-cases, eq_self, inl, inr,
}
use mathlib.Core.Path.{subst}
use azurerator.Base.Exec.{ok_inj, ok, err, Result-cases}
use azurerator.Crd.{AzureAdApplication, AccessPolicyInboundRule}
use azurerator.Resources.{Resource}
use azurerator.Reconciler.{PreAuthorizedApps}
use azurerator.Registered.Laws.{NodupKeys}
use azurerator.PreAuthorizedAppClient.{
  Client, map_to_resource, map_each, map_desired_pre_authorized_apps, ensure_fields_are_set,
  to_resource,
}

abbrev pub names : List Resource → List String
names [] = []
names (r ∷ rs) = r.name ∷ names rs

contains-names-append :
    (rs : List Resource) (r : Resource) (n : String)
    → contains (names (rs ++ r ∷ [])) n ≡ (contains (names rs) n || n == r.name)
contains-names-append [] r n = ground arith
contains-names-append (x ∷ rs) r n = ground (arith, contains-names-append rs r n)

append-NodupKeys :
    (rs : List Resource) (r : Resource)
    → NodupKeys (names rs)
    → contains (names rs) r.name ≡ false
    → NodupKeys (names (rs ++ r ∷ []))
append-NodupKeys [] r u h = (refl, tt)
append-NodupKeys (x ∷ rs) r (fresh, u) h =
    ground (arith, append-NodupKeys rs r u, contains-names-append rs r x.name)

-- The valid resources of a result have different names, and the name of the application is one.
abbrev pub HasSelf : String → PreAuthorizedApps → Type 0
HasSelf self apps = NodupKeys (names apps.valid) × (contains (names apps.valid) self ≡ true)

module _ {S : Type 0} (client : Client S)
    (uniform_resource_name : String → String → String → String) (cluster : String)
    (self : AzureAdApplication) where
  abbrev own_name : String
  own_name = uniform_resource_name self.name self.namespace cluster

  -- What the loop has seen are the names of the valid resources.
  abbrev SeenAre : List String → List Resource → Type 0
  SeenAre seen valid =
      NodupKeys (names valid) × ((n : String) → contains seen n ≡ contains (names valid) n)

  SeenAre-add :
      (seen : List String) (valid : List Resource) (r : Resource)
      → SeenAre seen valid
      → contains seen r.name ≡ false
      → SeenAre (r.name ∷ seen) (valid ++ r ∷ [])
  SeenAre-add seen valid r (u, same) h = (
    append-NodupKeys valid r u (rw (← same r.name, h)),
    λ n. rw (contains-names-append, same) (ground arith),
  )

  finish-HasSelf :
      (seen : List String) (valid invalid : List Resource)
      → SeenAre seen valid
      → HasSelf own_name record {
        valid =
            if contains seen own_name
            then valid
            else valid ++ to_resource own_name cluster self ∷ [];
        invalid = invalid;
      }
  unfolding to_resource
  finish-HasSelf seen valid invalid (u, same) = elim (Bool-cases (contains seen own_name)) [
    | inl e ↦ rw (e) (u, rw (← same own_name, e))
    | inr e ↦
        let added = to_resource own_name cluster self in
        rw (e) (
          append-NodupKeys valid added u (rw (← same own_name, e)),
          contains-names-append valid added own_name ∙ ground (arith, eq_self own_name),
        )
  ]

  map_each-HasSelf :
      (apps : List AccessPolicyInboundRule) (seen : List String) (valid invalid : List Resource)
      (s : S) (r : PreAuthorizedApps)
      → SeenAre seen valid
      → (map_each client uniform_resource_name cluster self apps seen valid invalid s).0 ≡ ok r
      → HasSelf own_name r
  unfolding map_each
  map_each-HasSelf [] seen valid invalid s r inv h =
      let made = finish-HasSelf seen valid invalid inv in
      subst (HasSelf own_name) (ok_inj _ r h) made
  map_each-HasSelf (app ∷ apps) seen valid invalid s r inv h =
      elim (Result-cases
        (map_to_resource client uniform_resource_name (ensure_fields_are_set cluster self app)
          s).0) [
            | inr (x, e) ↦ let g : err x ≡ ok r = rw (e) at h in cc g
            | inl ((found, false), e) ↦
                map_each-HasSelf apps seen valid (invalid ++ found ∷ []) _ r inv (rw (e) at h)
            | inl ((found, true), e) ↦ elim (Bool-cases (contains seen found.name)) [
              | inl f ↦ map_each-HasSelf apps seen valid invalid _ r inv (rw (e, f) at h)
              | inr f ↦
                  map_each-HasSelf apps (found.name ∷ seen) (valid ++ found ∷ []) invalid _ r
                    (SeenAre-add seen valid found inv f) (rw (e, f) at h)
            ]
          ]

  -- When the desired applications can be looked up, the names of the valid ones are different, and
  -- the application's own name is one of them.
  pub map_desired-HasSelf :
      (s : S) (r : PreAuthorizedApps)
      → (map_desired_pre_authorized_apps client uniform_resource_name cluster self s).0 ≡ ok r
      → HasSelf own_name r
  unfolding map_desired_pre_authorized_apps
  map_desired-HasSelf s r h =
      map_each-HasSelf self.spec.pre_authorized_applications [] [] [] s r (tt, λ n. refl) h
