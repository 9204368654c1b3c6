-- ===== src/Assignments/Kept.antt =====
-- Which assignments are never revoked, whichever requests fail.
use azurerator.Base.{
  String, ◌≡◌, ◌≢◌, Bool, true, false, Option, none, some, List, [], ◌∷◌, ◌==◌, contains, map,
  string_eq, Bool-cases, inl, inr,
}
use azurerator.Base.Dict.{Dict, Iteration}
use azurerator.Base.Exec.{Exec, ok, pure, ◌>>=◌, Result-cases}
use azurerator.Graph.{AppRoleAssignment}
use azurerator.Permissions
use azurerator.Permissions.{Permission, Permissions}
use azurerator.Resources
use azurerator.Resources.{Resource, group_type, service_principal_type}
use azurerator.Assignments.{
  AssignmentKey, key_eq, to_key, to_app_role_assignments, filter_by_role_id, without_matching_role,
  difference_from, difference, to_revoke, Client, managed_only, get_all_groups,
  get_all_service_principals, fetch_existing, assign_for, revoke_for, process_role, process_roles,
  revoke_roles, process_for,
}

-- What the package relies on: whether an assignment with an identifier is `registered` is not
-- changed by reading, and only a request to delete that very one can end it.
pub record KeepsOthers {S : Type 0} (client : Client S) (registered : S → String → Bool)
    : Type 0 where
  pub get_all_keeps :
      (s : S) (i : String) → registered s i ≡ true → registered (client.get_all s).1 i ≡ true
  pub client_id_of_keeps :
      (p : String) (s : S) (i : String)
      → registered s i ≡ true
      → registered (client.client_id_of p s).1 i ≡ true
  pub is_managed_cached_keeps :
      (p : String) (s : S) (i : String)
      → registered s i ≡ true
      → registered (client.is_managed_cached p s).1 i ≡ true
  pub is_managed_keeps :
      (p : String) (s : S) (i : String)
      → registered s i ≡ true
      → registered (client.is_managed p s).1 i ≡ true
  pub add_keeps :
      (a : AppRoleAssignment) (s : S) (i : String)
      → registered s i ≡ true
      → registered (client.add a s).1 i ≡ true
  pub delete_keeps :
      (o : Option String) (s : S) (i : String)
      → o ≢ some i
      → registered s i ≡ true
      → registered (client.delete o s).1 i ≡ true

-- The role asks for the assignment, if it is an assignment of this role.
abbrev pub WantedBy : String → List Resource → String → Permission → AppRoleAssignment → Type 0
WantedBy target assignees kind role a =
    (a.app_role_id == role.id) ≡ true
    → contains
        (map to_key (
          to_app_role_assignments (Resources.extract_desired_assignees assignees kind role) target
            role))
        (to_key a)
      ≡ true

abbrev pub WantedByAll :
    String → List Resource → String → Dict String Permission → AppRoleAssignment → Type 0
WantedByAll target assignees kind [] a = Unit
WantedByAll target assignees kind ((_, role) ∷ roles) a =
    WantedBy target assignees kind role a × WantedByAll target assignees kind roles a

-- It is an assignment of none of the roles.
abbrev pub OfNone : Dict String Permission → AppRoleAssignment → Type 0
OfNone [] a = Unit
OfNone ((_, role) ∷ roles) a = ((a.app_role_id == role.id) ≡ false) × OfNone roles a

-- Every entry of the list with the identifier meets the condition.
abbrev pub EachWith : String → (AppRoleAssignment → Type 0) → List AppRoleAssignment → Type 0
EachWith i P [] = Unit
EachWith i P (a ∷ l) = (a.id ≡ some i → P a) × EachWith i P l

-- No entry of the list has the identifier.
abbrev pub NoneWith : String → List AppRoleAssignment → Type 0
NoneWith i [] = Unit
NoneWith i (a ∷ l) = (a.id ≢ some i) × NoneWith i l

EachWith-map :
    (i : String) (P Q : AppRoleAssignment → Type 0) (l : List AppRoleAssignment)
    → ((a : AppRoleAssignment) → P a → Q a)
    → EachWith i P l
    → EachWith i Q l
EachWith-map i P Q [] f _ = tt
EachWith-map i P Q (a ∷ l) f (h, hs) = (λ e. f a (h e), EachWith-map i P Q l f hs)

filter_NoneWith :
    (i r : String) (l : List AppRoleAssignment)
    → EachWith i (λ a. (a.app_role_id == r) ≡ false) l
    → NoneWith i (filter_by_role_id l r)
unfolding filter_by_role_id
filter_NoneWith i r [] _ = tt
filter_NoneWith i r (a ∷ l) (h, hs) = elim (Bool-cases (a.app_role_id == r)) [
  | inl e ↦ rw (e, filter_by_role_id) (λ p. cc (h p, e), filter_NoneWith i r l hs)
  | inr e ↦ rw (e, filter_by_role_id) (filter_NoneWith i r l hs)
]

to_revoke_NoneWith :
    (i r : String) (mb : List AssignmentKey) (l : List AppRoleAssignment)
    → EachWith i (λ a. (a.app_role_id == r) ≡ true → contains mb (to_key a) ≡ true) l
    → NoneWith i (difference_from mb (filter_by_role_id l r))
unfolding filter_by_role_id difference_from
to_revoke_NoneWith i r mb [] _ = tt
to_revoke_NoneWith i r mb (a ∷ l) (h, hs) = elim (Bool-cases (a.app_role_id == r)) [
  | inl e ↦ elim (Bool-cases (contains mb (to_key a))) [
    | inl f ↦ rw (e, f, filter_by_role_id, difference_from) (to_revoke_NoneWith i r mb l hs)
    | inr f ↦
        rw (e, f, filter_by_role_id, difference_from)
          (λ p. cc (h p e, f), to_revoke_NoneWith i r mb l hs)
  ]
  | inr e ↦ rw (e, filter_by_role_id) (to_revoke_NoneWith i r mb l hs)
]

without_NoneWith :
    (it : Iteration) (i : String) (roles : Permissions) (l : List AppRoleAssignment)
    → EachWith i (λ a. Permissions.has_role_id it roles a.app_role_id ≡ true) l
    → NoneWith i (without_matching_role it l roles)
unfolding without_matching_role
without_NoneWith it i roles [] _ = tt
without_NoneWith it i roles (a ∷ l) (h, hs) =
    elim (Bool-cases (Permissions.has_role_id it roles a.app_role_id)) [
      | inl e ↦ rw (e, without_matching_role) (without_NoneWith it i roles l hs)
      | inr e ↦ rw (e, without_matching_role) (λ p. cc (h p, e), without_NoneWith it i roles l hs)
    ]

-- What makes an assignment one to keep.
abbrev pub ToKeep :
    Iteration → String → List Resource → String → Permissions → AppRoleAssignment → Type 0
ToKeep it target assignees kind roles a =
    WantedByAll target (Resources.filter_by_principal_type assignees kind) kind
      (it.range Permission (Permissions.enabled it roles)) a
    × OfNone (it.range Permission (Permissions.disabled it roles)) a
    × (Permissions.has_role_id it roles a.app_role_id ≡ true)

module _ {S : Type 0} (client : Client S) (registered : S → String → Bool)
    (K : KeepsOthers client registered) (i : String) where
  -- The assignment with the identifier is still there after the calls, whichever of them fail.
  abbrev pub Keeps : {A : Type 0} → Exec S A → Type 0
  Keeps m = (s : S) → registered s i ≡ true → registered (m s).1 i ≡ true

  then-Keeps :
      {A B : Type 0} (m : Exec S A) (f : A → Exec S B)
      → Keeps m
      → ((a : A) → Keeps (f a))
      → Keeps (m >>= f)
  then-Keeps m f h g s r = elim (Result-cases (m s).0) [
    | inl (a, e) ↦ rw e (g a _ (h s r))
    | inr (x, e) ↦ rw e (h s r)
  ]

  assign-Keeps : (l : List AppRoleAssignment) → Keeps (assign_for client l)
  unfolding assign_for
  assign-Keeps [] = λ s r. r
  assign-Keeps (a ∷ l) =
      then-Keeps (client.add a) (λ _. assign_for client l) (λ s r. K.add_keeps a s i r)
        (λ _. assign-Keeps l)

  revoke-Keeps : (l : List AppRoleAssignment) → NoneWith i l → Keeps (revoke_for client l)
  unfolding revoke_for
  revoke-Keeps [] _ = λ s r. r
  revoke-Keeps (a ∷ l) (h, hs) =
      then-Keeps (client.delete a.id) (λ _. revoke_for client l)
        (λ s r. K.delete_keeps a.id s i h r) (λ _. revoke-Keeps l hs)

  cache-Keeps :
      (c : String) (cached : Option Bool)
      → Keeps (elim cached [ some b ↦ pure b | none ↦ client.is_managed c ])
  cache-Keeps c none = λ s r. K.is_managed_keeps c s i r
  cache-Keeps c (some b) = λ s r. r

  managed-Keeps : (l : List AppRoleAssignment) → Keeps (managed_only client l)
  unfolding managed_only
  managed-Keeps [] = λ s r. r
  managed-Keeps (a ∷ l) =
      then-Keeps (client.client_id_of a.principal_id) _ (λ s r. K.client_id_of_keeps _ s i r)
        λ c.
          then-Keeps (client.is_managed_cached c) _ (λ s r. K.is_managed_cached_keeps c s i r)
            λ cached.
              then-Keeps (elim cached [ some b ↦ pure b | none ↦ client.is_managed c ]) _
                (cache-Keeps c cached)
                λ m. then-Keeps (managed_only client l) _ (managed-Keeps l) λ rest s r. r

  fetch-Keeps : (kind : String) → Keeps (fetch_existing client kind)
  unfolding fetch_existing get_all_groups get_all_service_principals
  fetch-Keeps kind = elim (Bool-cases (kind == group_type)) [
    | inl e ↦
        rw (e, fetch_existing)
          (then-Keeps client.get_all _ (λ s r. K.get_all_keeps s i r) (λ l s r. r))
    | inr e ↦ elim (Bool-cases (kind == service_principal_type)) [
      | inl f ↦
          rw (e, f, fetch_existing)
            (then-Keeps client.get_all _ (λ s r. K.get_all_keeps s i r) (λ l. managed-Keeps _))
      | inr f ↦ rw (e, f, fetch_existing) (λ s r. r)
    ]
  ]

  process_role-Keeps :
      (target : String) (existing : List AppRoleAssignment) (assignees : List Resource)
      (kind : String) (role : Permission)
      → EachWith i (WantedBy target assignees kind role) existing
      → Keeps (process_role client target existing assignees kind role)
  unfolding process_role to_revoke difference
  process_role-Keeps target existing assignees kind role h =
      then-Keeps (assign_for client _) _ (assign-Keeps _)
        (λ _. revoke-Keeps _ (to_revoke_NoneWith i role.id _ existing h))

  process_roles-Keeps :
      (target : String) (existing : List AppRoleAssignment) (assignees : List Resource)
      (kind : String) (roles : Dict String Permission)
      → EachWith i (WantedByAll target assignees kind roles) existing
      → Keeps (process_roles client target existing assignees kind roles)
  unfolding process_roles
  process_roles-Keeps target existing assignees kind [] h = λ s r. r
  process_roles-Keeps target existing assignees kind ((n, role) ∷ roles) h =
      then-Keeps (process_role client target existing assignees kind role) _
        (process_role-Keeps target existing assignees kind role
          (EachWith-map i _ _ existing (λ a p. p.0) h))
        (λ _.
          process_roles-Keeps target existing assignees kind roles
            (EachWith-map i _ _ existing (λ a p. p.1) h))

  revoke_roles-Keeps :
      (existing : List AppRoleAssignment) (roles : Dict String Permission)
      → EachWith i (OfNone roles) existing
      → Keeps (revoke_roles client existing roles)
  unfolding revoke_roles
  revoke_roles-Keeps existing [] h = λ s r. r
  revoke_roles-Keeps existing ((n, role) ∷ roles) h =
      then-Keeps (revoke_for client _) _
        (revoke-Keeps _
          (filter_NoneWith i role.id existing (EachWith-map i _ _ existing (λ a p. p.0) h)))
        (λ _. revoke_roles-Keeps existing roles (EachWith-map i _ _ existing (λ a p. p.1) h))

  -- If reading and adding end no assignment, and deleting one ends no other, an assignment is still
  -- registered after `processFor`, whichever requests fail on the way, provided that every existing one with its identifier is desired by each enabled role that it is of, is of no
  -- disabled role, and is of a role that exists.
  pub process_for_keeps :
      (it : Iteration) (target : String) (assignees : List Resource) (kind : String)
      (roles : Permissions) (s : S)
      → ((existing : List AppRoleAssignment)
          → (fetch_existing client kind s).0 ≡ ok existing
          → EachWith i (ToKeep it target assignees kind roles) existing)
      → registered s i ≡ true
      → registered (process_for client it target assignees kind roles s).1 i ≡ true
  unfolding process_for
  process_for_keeps it target assignees kind roles s h r =
      elim (Result-cases (fetch_existing client kind s).0) [
        | inl (existing, e) ↦
            let k = h existing e in
            rw e (
              then-Keeps (process_roles client target existing _ kind _) _
                (process_roles-Keeps target existing _ kind _
                  (EachWith-map i _ _ existing (λ a p. p.0) k))
                (λ _.
                  then-Keeps (revoke_roles client existing _) _
                    (revoke_roles-Keeps existing _ (EachWith-map i _ _ existing (λ a p. p.1) k))
                    (λ _. revoke-Keeps _ (
                      without_NoneWith it i roles existing
                        (EachWith-map i _ _ existing (λ a p. p.2) k))))
                (fetch_existing client kind s).1 (fetch-Keeps kind s r))
        | inr (x, e) ↦ rw e (fetch-Keeps kind s r)
      ]
