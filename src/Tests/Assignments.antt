-- ===== src/Tests/Assignments.antt =====
-- Runs of the theorems on the assignments of roles.
use azurerator.Base.{
  String, ◌≡◌, refl, ap, Bool, true, false, not, Option, none, some, List, [], ◌∷◌, ◌&&◌, ◌||◌,
  ◌==◌, ◌≢◌, contains, string_eq, if◌then◌else◌, arith,
}
use text.Mathlib.TextEquality.{eq_iff}
use mathlib.Core.Path.{subst}
use azurerator.Base.Exec.{Result, ok, err}
use azurerator.Graph.{AppRoleAssignment}
use azurerator.Permissions
use azurerator.Permissions.{Permissions}
use azurerator.Resources.{Resource, group_type}
use azurerator.Assignments.{
  key_eq, to_key, Client, fetch_existing, process_for, to_assign, to_revoke, unmodified,
  filter_by_type, get_all_groups,
}
use azurerator.Assignments.Laws.{keys, to_assign-to_revoke_reach}
use azurerator.Assignments.Kept.{KeepsOthers, EachWith, ToKeep, process_for_keeps}
use azurerator.Tests.Permissions.{in_order}

abbrev assignment : String → String → AppRoleAssignment
assignment id principal = record {
  id = some id;
  app_role_id = "5";
  principal_display_name = "g";
  principal_id = principal;
  principal_type = group_type;
  resource_id = "target";
}

abbrev existing : List AppRoleAssignment
existing = assignment "x" "1" ∷ assignment "y" "2" ∷ []

abbrev desired : List AppRoleAssignment
desired = assignment "z" "2" ∷ assignment "w" "3" ∷ []

to_assign-to_revoke_reach_example :
    (((contains (keys existing) (to_key (assignment "x" "1"))
          && not (contains (keys (to_revoke existing desired)) (to_key (assignment "x" "1"))))
        || contains (keys (to_assign existing desired)) (to_key (assignment "x" "1")))
      ≡ contains (keys desired) (to_key (assignment "x" "1")))
    × ((contains (keys (to_assign existing desired)) (to_key (assignment "x" "1"))
          && contains (keys existing) (to_key (assignment "x" "1")))
        ≡ false)
    × ((contains (keys (to_revoke existing desired)) (to_key (assignment "x" "1"))
          && contains (keys desired) (to_key (assignment "x" "1")))
        ≡ false)
    × (contains
          (keys (unmodified existing (to_assign existing desired) (to_revoke existing desired)))
          (to_key (assignment "x" "1"))
        ≡ (contains (keys existing) (to_key (assignment "x" "1"))
            && contains (keys desired) (to_key (assignment "x" "1"))))
to_assign-to_revoke_reach_example =
    to_assign-to_revoke_reach existing desired (to_key (assignment "x" "1"))

-- The assignments are the state.
without_id : Option String → List AppRoleAssignment → List AppRoleAssignment
without_id none l = l
without_id (some i) [] = []
without_id (some i) (a ∷ l) =
    let rest = without_id (some i) l in
    if (elim a.id [ none ↦ false | some j ↦ j == i ]) then rest else a ∷ rest

has_id : List AppRoleAssignment → String → Bool
has_id [] i = false
has_id (a ∷ l) i = (elim a.id [ none ↦ false | some j ↦ j == i ]) || has_id l i

abbrev graph : Client (List AppRoleAssignment)
graph = record {
  get_all = λ l. (ok l, l);
  add = λ a l. (ok tt, a ∷ l);
  delete = λ o l. (ok tt, without_id o l);
  client_id_of = λ p l. (ok p, l);
  is_managed_cached = λ p l. (ok none, l);
  is_managed = λ p l. (ok true, l);
}

without_id_keeps :
    (o : Option String) (l : List AppRoleAssignment) (i : String)
    → (o ≢ some i)
    → has_id l i ≡ true
    → has_id (without_id o l) i ≡ true
unfolding without_id has_id
without_id_keeps none l i apart h = h
without_id_keeps (some j) [] i apart h = h
without_id_keeps (some j) (a ∷ l) i apart h = ground (arith, without_id_keeps (some j) l i apart)

graph-KeepsOthers : KeepsOthers graph has_id
unfolding has_id
graph-KeepsOthers = record {
  get_all_keeps = λ s i h. h;
  client_id_of_keeps = λ p s i h. h;
  is_managed_cached_keeps = λ p s i h. h;
  is_managed_keeps = λ p s i h. h;
  add_keeps = λ a s i h. ground arith;
  delete_keeps = λ o s i apart h. without_id_keeps o s i apart h;
}

-- The group of the first assignment asks for the role, that of the second does not.
abbrev assignees : List Resource
assignees =
    record {
      name = "g";
      client_id = "c";
      object_id = "1";
      principal_type = group_type;
      inbound_rule = record {
        rule = record { application = "b"; namespace = "team"; cluster = "dev" };
        permissions = some (record { roles = "admin" ∷ []; scopes = [] });
      };
    }
    ∷ []

abbrev roles : Permissions
roles = ("admin", Permissions.new "5" "admin" true) ∷ []

abbrev y : String
y = "y"

y_is_not_x : y ≢ "x"
y_is_not_x e = cc ((eq_iff "y" "x").1 e)

existing_kept : EachWith "x" (ToKeep in_order "target" assignees group_type roles) existing
unfolding string_eq Permissions.enabled Permissions.add azurerator.Base.Dict.lookup
    azurerator.Base.Dict.insert azurerator.Assignments.to_app_role_assignments
    azurerator.Resources.extract_desired_assignees azurerator.Resources.filter_by_role
    azurerator.Resources.filter_by_principal_type key_eq azurerator.Resources.to_app_role_assignment
    Permissions.disabled Permissions.has_role_id
existing_kept = (λ _. ((λ _. refl, tt), tt, refl), (λ e. absurd (y_is_not_x (cc e)), tt))

found : Result (List AppRoleAssignment) → List AppRoleAssignment
found (ok l) = l
found (err _) = []

kept :
    (l : List AppRoleAssignment)
    → (fetch_existing graph group_type existing).0 ≡ ok l
    → EachWith "x" (ToKeep in_order "target" assignees group_type roles) l
unfolding found fetch_existing get_all_groups filter_by_type string_eq
kept l e =
    let same : existing ≡ l = ap found e in
    subst (EachWith "x" (ToKeep in_order "target" assignees group_type roles)) same existing_kept

process_for_keeps_example :
    has_id (process_for graph in_order "target" assignees group_type roles existing).1 "x" ≡ true
unfolding has_id string_eq
process_for_keeps_example =
    process_for_keeps graph has_id graph-KeepsOthers "x" in_order "target" assignees group_type
      roles existing kept refl
