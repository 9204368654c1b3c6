-- ===== src/Tests/Policies.antt =====
-- Runs of the theorem on policies: the state is the list of those assigned.
use azurerator.Base.{
  String, ◌≡◌, refl, ap, eq_self, Bool-cases, inl, inr, false, Option, some, none, List, [], ◌∷◌,
  ◌++◌, ◌==◌, string_eq, if◌then◌else◌,
}
use azurerator.Base.Exec.{Failure, ok, err, ok_inj}
use azurerator.ServicePrincipals.{
  Client, policy_id, new_claims_mapping_policy_body, process_policies,
}
use azurerator.ServicePrincipals.Laws.{Holds, ids_of, others, process_policies-only}
use azurerator.Tests.Controller.{app}

abbrev with_ids : List String → List (Option String)
with_ids [] = []
with_ids (id ∷ ids) = some id ∷ with_ids ids

-- Requests on anything else than policies are refused.
abbrev policy_client : Client (List String)
policy_client = record {
  get_principal = λ id s. (err Failure.other, s);
  list_principals = λ f s. (err Failure.other, s);
  add_principal = λ r s. (err Failure.other, s);
  update_principal = λ id r s. (err Failure.other, s);
  patch_security_attributes = λ id a s. (err Failure.other, s);
  owners = λ id s. (err Failure.other, s);
  add_owner = λ id o s. (err Failure.other, s);
  policies = λ id s. (ok (none ∷ with_ids s), s);
  add_policy = λ id body s.
      if body == new_claims_mapping_policy_body "new"
      then (ok tt, s ++ "new" ∷ [])
      else (err Failure.other, s);
  remove_policy = λ policy id s. (ok tt, others policy s);
  list_grants = λ f s. (err Failure.other, s);
  add_grant = λ g s. (err Failure.other, s);
  client_id_cached = λ id s. none;
  cache_client_id = λ id c s. s;
  principal_id_cached = λ id s. none;
  cache_principal_id = λ id c s. s;
}

read_ids : (s : List String) → ids_of (with_ids s) ≡ others "" s
unfolding policy_id
read_ids [] = refl
read_ids (id ∷ ids) = elim (Bool-cases (id == "")) [
  | inl e ↦ rw (policy_id, ids_of, e) (read_ids ids)
  | inr e ↦ rw (policy_id, ids_of, e, read_ids ids) refl
]

others_comm : (p q : String) (s : List String) → others p (others q s) ≡ others q (others p s)
others_comm p q [] = refl
others_comm p q (id ∷ ids) = elim (Bool-cases (id == p)) [
  | inl e ↦ elim (Bool-cases (id == q)) [
    | inl f ↦ rw (e, f) (others_comm p q ids)
    | inr f ↦ rw (e, f, e) (others_comm p q ids)
  ]
  | inr e ↦ elim (Bool-cases (id == q)) [
    | inl f ↦ rw (e, f) (others_comm p q ids)
    | inr f ↦ rw (e, f, e) (ap (λ l. id ∷ l) (others_comm p q ids))
  ]
]

others-append :
    (p q : String) (s : List String)
    → (q == p) ≡ false
    → others p (s ++ q ∷ []) ≡ others p s ++ q ∷ []
others-append p q [] e = rw (e) refl
others-append p q (id ∷ ids) e = elim (Bool-cases (id == p)) [
  | inl f ↦ rw (f) (others-append p q ids e)
  | inr f ↦ rw (f) (ap (λ l. id ∷ l) (others-append p q ids e))
]

policies_hold : Holds policy_client "principal" "new" (λ s. others "" s)
unfolding string_eq policy_id
policies_hold = record {
  reads = λ s l e. let it : none ∷ with_ids s ≡ l = ok_inj _ _ e in rw (← it) (read_ids s);
  reading_keeps = λ s. refl;
  removes = λ id s e. others_comm "" id s;
  adds = λ s e. rw (eq_self (new_claims_mapping_policy_body "new")) (others-append "" "new" s refl);
}

abbrev old_policy : List String
old_policy = "old" ∷ []

process_policies-only_example :
    others "" (process_policies policy_client app "new" old_policy).1 ≡ "new" ∷ []
unfolding string_eq process_policies policy_id new_claims_mapping_policy_body
process_policies-only_example =
    process_policies-only policy_client app "new" (λ s. others "" s) policies_hold old_policy refl
      tt refl
