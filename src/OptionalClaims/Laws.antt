-- ===== src/OptionalClaims/Laws.antt =====
-- What an update does to the claims of each name.
use azurerator.Base.{
  String, ◌≡◌, refl, ◌&&◌, Bool, true, false, Option, none, some, List, [], ◌∷◌, ◌++◌, ◌==◌,
  string_eq, if◌then◌else◌, arith, Bool-cases, Option-cases, inl, inr,
}
use mathlib.Core.Path.{subst⁻¹}
use azurerator.Graph.{OptionalClaim, OptionalClaims, Application}
use azurerator.OptionalClaims.{
  essential_claim, default_claims, same_name, replaced, seen, merge_one, merge, merge_claims,
  describe_update,
}

abbrev pub is_named : String → OptionalClaim → Bool
is_named n claim = elim claim.name [ none ↦ false | some m ↦ m == n ]

-- The first claim of a name.
unfoldable pub claim_of : String → List OptionalClaim → Option OptionalClaim
claim_of n [] = none
claim_of n (claim ∷ claims) = if is_named n claim then some claim else claim_of n claims

same_name-essential_claim :
    (m : String) (claim : OptionalClaim) → same_name claim (essential_claim m) ≡ is_named m claim
unfolding same_name
same_name-essential_claim m claim = refl

-- The claims of other names stay, and one of the name of the override is it.
claim_of-replaced :
    (m n : String) (existing : List OptionalClaim)
    → claim_of n (replaced (essential_claim m) existing) ≡ (
        if m == n && seen (essential_claim m) existing
        then some (essential_claim m)
        else claim_of n existing)
unfolding claim_of replaced seen same_name
claim_of-replaced m n [] = ground arith
claim_of-replaced m n (claim ∷ existing) = ground (arith, claim_of-replaced m n existing)

-- A name that no claim has is found nowhere.
unseen :
    (m : String) (existing : List OptionalClaim)
    → seen (essential_claim m) existing ≡ false
    → claim_of m existing ≡ none
unfolding claim_of seen same_name
unseen m [] h = refl
unseen m (claim ∷ existing) h = ground (arith, unseen m existing)

claim_of-append :
    (n : String) (xs ys : List OptionalClaim)
    → claim_of n (xs ++ ys)
      ≡ (elim (claim_of n xs) [ none ↦ claim_of n ys | some claim ↦ some claim ])
unfolding claim_of
claim_of-append n [] ys = refl
claim_of-append n (claim ∷ xs) ys = ground (arith, claim_of-append n xs ys)

claim_of-merge_one :
    (m n : String) (existing : List OptionalClaim)
    → claim_of n (merge_one existing (essential_claim m))
      ≡ (if m == n then some (essential_claim m) else claim_of n existing)
unfolding merge_one claim_of
claim_of-merge_one m n existing = ground (
  arith,
  claim_of-replaced m n existing,
  claim_of-append n (replaced (essential_claim m) existing) (essential_claim m ∷ []),
  unseen m existing,
)

replaced-replaced :
    (m : String) (existing : List OptionalClaim)
    → replaced (essential_claim m) (replaced (essential_claim m) existing)
      ≡ replaced (essential_claim m) existing
unfolding replaced same_name
replaced-replaced m [] = refl
replaced-replaced m (claim ∷ existing) = ground (arith, replaced-replaced m existing)

replaced-append :
    (m : String) (xs ys : List OptionalClaim)
    → replaced (essential_claim m) (xs ++ ys)
      ≡ (replaced (essential_claim m) xs ++ replaced (essential_claim m) ys)
unfolding replaced
replaced-append m [] ys = refl
replaced-append m (claim ∷ xs) ys = ground (arith, replaced-append m xs ys)

seen-replaced :
    (m : String) (existing : List OptionalClaim)
    → seen (essential_claim m) (replaced (essential_claim m) existing)
      ≡ seen (essential_claim m) existing
unfolding seen replaced same_name
seen-replaced m [] = refl
seen-replaced m (claim ∷ existing) = ground (arith, seen-replaced m existing)

seen-append :
    (m : String) (xs : List OptionalClaim)
    → seen (essential_claim m) (xs ++ essential_claim m ∷ []) ≡ true
unfolding seen same_name
seen-append m [] = ground arith
seen-append m (claim ∷ xs) = ground (arith, seen-append m xs)

merge_one-merge_one :
    (m : String) (existing : List OptionalClaim)
    → merge_one (merge_one existing (essential_claim m)) (essential_claim m)
      ≡ merge_one existing (essential_claim m)
unfolding merge_one replaced same_name
merge_one-merge_one m existing = elim (Bool-cases (seen (essential_claim m) existing)) [
  | inl e ↦ rw (e, merge_one, seen-replaced, e, replaced-replaced)
  | inr e ↦ rw (e, merge_one, seen-append, replaced-append, replaced-replaced) (ground arith)
]

-- The claims that the application has now.
abbrev pub existing_claims : Application → OptionalClaims
existing_claims app = elim app.optional_claims [
  | none ↦ record { access_token = []; id_token = []; saml2_token = [] }
  | some claims ↦ claims
]

-- The claim of each name after an update: the one that is required of the tokens, and else the one
-- that there was.
pub record Describes (app : Application) (after : OptionalClaims) : Type 0 where
  pub access_token :
      (n : String)
      → claim_of n after.access_token ≡ (
          if "idtyp" == n
          then some (essential_claim "idtyp")
          else claim_of n (existing_claims app).access_token)
  pub id_token :
      (n : String)
      → claim_of n after.id_token ≡ (
          if "sid" == n
          then some (essential_claim "sid")
          else claim_of n (existing_claims app).id_token)
  pub saml2_token : after.saml2_token ≡ (existing_claims app).saml2_token

Describes-defaults : (app : Application) → app.optional_claims ≡ none → Describes app default_claims
unfolding claim_of
Describes-defaults app e =
    rw (e) record { access_token = λ n. refl; id_token = λ n. refl; saml2_token = refl }

Describes-merge_claims :
    (app : Application) (claims : OptionalClaims)
    → app.optional_claims ≡ some claims
    → Describes app (merge_claims claims default_claims)
unfolding merge_claims merge
Describes-merge_claims app claims e = rw (e) record {
  access_token = λ n. claim_of-merge_one "idtyp" n claims.access_token;
  id_token = λ n. claim_of-merge_one "sid" n claims.id_token;
  saml2_token = refl;
}

merge_claims-merge_claims :
    (claims : OptionalClaims)
    → merge_claims (merge_claims claims default_claims) default_claims
      ≡ merge_claims claims default_claims
unfolding merge_claims merge
merge_claims-merge_claims claims =
    rw (merge_one-merge_one "idtyp" claims.access_token, merge_one-merge_one "sid" claims.id_token)

default_claims-settle : merge_claims default_claims default_claims ≡ default_claims
unfolding merge_claims merge merge_one replaced seen same_name
default_claims-settle = ground arith

abbrev Settles : Application → OptionalClaims → Type 0
Settles app after = Describes app after × (merge_claims after default_claims ≡ after)

update_of_none :
    (app : Application) → app.optional_claims ≡ none → describe_update app ≡ default_claims
unfolding describe_update
update_of_none app e = rw (e)

update_of_some :
    (app : Application) (claims : OptionalClaims)
    → app.optional_claims ≡ some claims
    → describe_update app ≡ merge_claims claims default_claims
unfolding describe_update
update_of_some app claims e = rw (e)

-- An update requires the claim `idtyp` of access tokens and `sid` of ID tokens, keeps the first
-- claim of each other name and all SAML claims, and an update of its result changes nothing.
pub describe_update-Describes :
    (app : Application)
    → Describes app (describe_update app)
      × (describe_update (record app { optional_claims = some (describe_update app) })
          ≡ describe_update app)
unfolding describe_update
describe_update-Describes app = elim (Option-cases app.optional_claims) [
  | inl e ↦
      subst⁻¹ (Settles app) (update_of_none app e) (Describes-defaults app e, default_claims-settle)
  | inr (claims, e) ↦
      subst⁻¹ (Settles app) (update_of_some app claims e)
        (Describes-merge_claims app claims e, merge_claims-merge_claims claims)
]
