-- ===== src/Assignments/Laws.antt =====
-- What the assignments of a role are after the planned requests.
use azurerator.Base.{◌≡◌, refl, false, not, List, [], ◌∷◌, ◌++◌, ◌&&◌, ◌||◌, contains, map, arith}
use azurerator.Graph.{AppRoleAssignment}
use azurerator.Assignments.{
  AssignmentKey, key_eq, to_key, difference_from, difference, to_assign, to_revoke, unmodified,
}

abbrev pub keys : List AppRoleAssignment → List AssignmentKey
keys l = map to_key l

contains-difference_from :
    (mb : List AssignmentKey) (a : List AppRoleAssignment) (k : AssignmentKey)
    → contains (keys (difference_from mb a)) k ≡ (contains (keys a) k && not (contains mb k))
unfolding difference_from
contains-difference_from mb [] k = refl
contains-difference_from mb (x ∷ a) k = ground (arith, contains-difference_from mb a k)

pub contains-difference :
    (a b : List AppRoleAssignment) (k : AssignmentKey)
    → contains (keys (difference a b)) k ≡ (contains (keys a) k && not (contains (keys b) k))
unfolding difference
contains-difference a b k = contains-difference_from (keys b) a k

contains-append :
    (l m : List AppRoleAssignment) (k : AssignmentKey)
    → contains (keys (l ++ m)) k ≡ (contains (keys l) k || contains (keys m) k)
contains-append [] m k = refl
contains-append (x ∷ l) m k = ground (arith, contains-append l m k)

-- To revoke what is planned and to assign what is planned leads from the assignments that exist to
-- the desired ones. Nothing that exists is assigned, nothing desired is revoked, and what is left
-- alone is what both have.
pub to_assign-to_revoke_reach :
    (existing desired : List AppRoleAssignment) (k : AssignmentKey)
    → let assign = to_assign existing desired in
      let revoke = to_revoke existing desired in
      (((contains (keys existing) k && not (contains (keys revoke) k)) || contains (keys assign) k)
        ≡ contains (keys desired) k)
      × ((contains (keys assign) k && contains (keys existing) k) ≡ false)
      × ((contains (keys revoke) k && contains (keys desired) k) ≡ false)
      × (contains (keys (unmodified existing assign revoke)) k
          ≡ (contains (keys existing) k && contains (keys desired) k))
unfolding to_assign to_revoke unmodified
to_assign-to_revoke_reach existing desired k =
    let a = contains-difference desired existing k in
    let r = contains-difference existing desired k in
    let u =
      contains-difference existing (difference desired existing ++ difference existing desired) k in
    let s = contains-append (difference desired existing) (difference existing desired) k in
    (ground (arith, a, r), ground (arith, a), ground (arith, r), ground (arith, u, s, a, r))
