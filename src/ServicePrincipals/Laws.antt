-- ===== src/ServicePrincipals/Laws.antt =====
-- Which policies a service principal has after they were processed.
use azurerator.Base.{
  String, ◌≡◌, refl, sym, ◌∙◌, false, Option, none, some, List, [], ◌∷◌, ◌++◌, ◌==◌, string_eq,
  if◌then◌else◌, arith, Bool-cases, Option-cases, inl, inr, eq_self,
}
use mathlib.Core.Path.{subst}
use azurerator.Base.Exec.{Failure, ok, err, Result-cases}
use azurerator.Crd.{AzureAdApplication}
use azurerator.ServicePrincipals.{
  Client, policy_id, new_claims_mapping_policy_body, replace_policies, process_policies,
}

-- The identifiers of policies that have one.
abbrev pub ids_of : List (Option String) → List String
ids_of [] = []
ids_of (policy ∷ policies) = elim (policy_id policy) [
  | none ↦ ids_of policies
  | some id ↦ id ∷ ids_of policies
]

-- The identifiers that differ from one.
abbrev pub others : String → List String → List String
others id [] = []
others id (other ∷ ids) = let rest = others id ids in if other == id then rest else other ∷ rest

-- What the policies of a service principal are in a state: they are what a successful request reads,
-- a successful removal takes one away, and a successful assignment of the desired one adds it at the end.
pub record Holds {S : Type 0} (client : Client S) (principal desired : String)
    (assigned : S → List String) : Type 0 where
  pub reads :
      (s : S) (l : List (Option String))
      → (client.policies principal s).0 ≡ ok l
      → ids_of l ≡ assigned s
  pub reading_keeps : (s : S) → assigned (client.policies principal s).1 ≡ assigned s
  pub removes :
      (id : String) (s : S)
      → (client.remove_policy id principal s).0 ≡ ok tt
      → assigned (client.remove_policy id principal s).1 ≡ others id (assigned s)
  pub adds :
      (s : S)
      → (client.add_policy principal (new_claims_mapping_policy_body desired) s).0 ≡ ok tt
      → assigned (client.add_policy principal (new_claims_mapping_policy_body desired) s).1
        ≡ assigned s ++ desired ∷ []

-- A service principal has no more than one policy.
abbrev pub AtMostOne : List String → Type 0
AtMostOne [] = Unit
AtMostOne (_ ∷ []) = Unit
AtMostOne (_ ∷ _ ∷ _) = ⊥

one_only : (id : String) (ids : List String) → AtMostOne (id ∷ ids) → ids ≡ []
one_only id [] one = refl
one_only id (_ ∷ _) one = elim one [ ]

module _ {S : Type 0} (client : Client S) (principal desired : String) (assigned : S → List String)
    (holds : Holds client principal desired assigned) where
  -- The loop over policies that are those assigned leaves the desired one alone.
  replace-only :
      (l : List (Option String)) (s : S)
      → ids_of l ≡ assigned s
      → AtMostOne (ids_of l)
      → (replace_policies client principal desired l s).0 ≡ ok tt
      → assigned (replace_policies client principal desired l s).1 ≡ desired ∷ []
  unfolding replace_policies
  replace-only [] s same one h = holds.adds s h ∙ rw (← same) refl
  replace-only (policy ∷ policies) s same one h = elim (Option-cases (policy_id policy)) [
    | inl e ↦
        rw (replace_policies, e)
          (replace-only policies s (rw (ids_of, e) at same) (rw (ids_of, e) at one)
            (rw (replace_policies, e) at h))
    | inr (id, e) ↦ elim (Bool-cases (id == desired)) [
      | inl f ↦
          let last : ids_of policies ≡ [] = one_only id (ids_of policies) (rw (ids_of, e) at one) in
          let is_it : id ≡ desired = ground arith in
          rw (replace_policies, e, f) (sym (rw (ids_of, e) at same) ∙ rw (last, is_it))
      | inr f ↦
          let last : ids_of policies ≡ [] = one_only id (ids_of policies) (rw (ids_of, e) at one) in
          let had : id ∷ ids_of policies ≡ assigned s = rw (ids_of, e) at same in
          elim (Result-cases (client.remove_policy id principal s).0) [
            | inr (x, g) ↦
                let absurd : err x ≡ ok tt = rw (replace_policies, e, f, g) at h in cc absurd
            | inl (_, g) ↦
                let left : assigned (client.remove_policy id principal s).1 ≡ [] =
                  holds.removes id s g ∙ rw (← had, last) (ground (arith, eq_self id)) in
                rw (replace_policies, e, f, g)
                  (replace-only policies _ (last ∙ sym left) (rw (last) tt)
                    (rw (replace_policies, e, f, g) at h))
          ]
    ]
  ]

module _ {S : Type 0} (client : Client S) (app : AzureAdApplication) (desired : String)
    (assigned : S → List String)
    (holds : Holds client app.status.service_principal_id desired assigned) where
  -- For a client whose requests read, remove and add what is assigned: where a policy is desired,
  -- and no more than one was assigned, a successful processing of the policies leaves the desired
  -- one assigned, once, and no other.
  pub process_policies-only :
      (s : S)
      → (desired == "") ≡ false
      → AtMostOne (assigned s)
      → (process_policies client app desired s).0 ≡ ok tt
      → assigned (process_policies client app desired s).1 ≡ desired ∷ []
  unfolding process_policies
  process_policies-only s wanted one h = elim (Bool-cases (app.status.service_principal_id == "")) [
    | inl f ↦
        let absurd : err Failure.other ≡ ok tt = rw (process_policies, wanted, f) at h in cc absurd
    | inr f ↦ elim (Result-cases (client.policies app.status.service_principal_id s).0) [
      | inr (x, g) ↦
          let absurd : err x ≡ ok tt = rw (process_policies, wanted, f, g) at h in cc absurd
      | inl (l, g) ↦
          let read : ids_of l ≡ assigned s = holds.reads s l g in
          rw (process_policies, wanted, f, g)
            (replace-only client app.status.service_principal_id desired assigned holds l _
              (read ∙ sym (holds.reading_keeps s)) (subst AtMostOne (sym read) one)
              (rw (process_policies, wanted, f, g) at h))
    ]
  ]
