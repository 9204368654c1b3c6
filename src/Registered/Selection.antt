-- ===== src/Registered/Selection.antt =====
-- Which credentials the second loops select, and which pairs `Validate` accepts.
use azurerator.Base.{
  ℕ, zero, suc, ◌+◌, ◌<◌, String, ◌≡◌, ◌↔◌, inl, inr, refl, ◌∙◌, Bool, true, false, not, some, List,
  [], ◌∷◌, ◌&&◌, ◌||◌, ◌==◌, contains, string_eq, ltb, arith, Bool-cases, get_elem?,
}
use native.Mathlib.Nat.{add-zero}
use azurerator.Base.Text.{nat_eq}
use azurerator.Registered.{Credential, revoked_from, filtered_from, validate_from}
use azurerator.Registered.Laws.{ids, NodupKeys}

shift : (i j : ℕ) → i + suc j ≡ suc i + j
shift i j = omega arith

module _ (C : Credential) where
  pub contains-revoked :
      (in_use : List String) (newest i : ℕ) (cs : List C.Carrier) (k : String)
      → contains (ids C cs) k ≡ false
      → contains (ids C (revoked_from C in_use newest i cs)) k ≡ false
  unfolding revoked_from
  contains-revoked in_use newest i [] k h = refl
  contains-revoked in_use newest i (c ∷ cs) k h =
      ground (arith, contains-revoked in_use newest (suc i) cs k)

  pub contains-filtered :
      (in_use : List String) (newest i : ℕ) (cs : List C.Carrier) (k : String)
      → contains (ids C cs) k ≡ false
      → contains (ids C (filtered_from C in_use newest i cs)) k ≡ false
  unfolding filtered_from
  contains-filtered in_use newest i [] k h = refl
  contains-filtered in_use newest i (c ∷ cs) k h =
      ground (arith, contains-filtered in_use newest (suc i) cs k)

  pub contains_of_get :
      (cs : List C.Carrier) (j : ℕ) (c : C.Carrier)
      → get_elem? cs j ≡ some c
      → contains (ids C cs) (C.key_id c) ≡ true
  contains_of_get [] j c h = cc
  contains_of_get (d ∷ cs) zero c h = ground arith
  contains_of_get (d ∷ cs) (suc j) c h = ground (arith, contains_of_get cs j c h)

  pub revoked_at :
      (in_use : List String) (newest i : ℕ) (cs : List C.Carrier) (j : ℕ) (c : C.Carrier)
      → NodupKeys (ids C cs)
      → get_elem? cs j ≡ some c
      → contains (ids C (revoked_from C in_use newest i cs)) (C.key_id c)
        ≡ not (contains in_use (C.key_id c) || i + j == newest)
  unfolding revoked_from
  revoked_at in_use newest i [] j c u h = cc
  revoked_at in_use newest i (d ∷ cs) zero c (fresh, u) h =
      ground (arith, contains-revoked in_use newest (suc i) cs (C.key_id d))
  revoked_at in_use newest i (d ∷ cs) (suc j) c (fresh, u) h =
      ground (arith, revoked_at in_use newest (suc i) cs j c u h, contains_of_get cs j c h)

  pub filtered_at :
      (in_use : List String) (newest i : ℕ) (cs : List C.Carrier) (j : ℕ) (c : C.Carrier)
      → NodupKeys (ids C cs)
      → get_elem? cs j ≡ some c
      → contains (ids C (filtered_from C in_use newest i cs)) (C.key_id c)
        ≡ (contains in_use (C.key_id c) || i + j == newest)
  unfolding filtered_from
  filtered_at in_use newest i [] j c u h = cc
  filtered_at in_use newest i (d ∷ cs) zero c (fresh, u) h =
      ground (arith, contains-filtered in_use newest (suc i) cs (C.key_id d))
  filtered_at in_use newest i (d ∷ cs) (suc j) c (fresh, u) h =
      ground (arith, filtered_at in_use newest (suc i) cs j c u h, contains_of_get cs j c h)

  module _ (now : ℕ → ℕ) where
    -- A credential with the key is registered that had not expired when its round read the clock.
    abbrev pub Live : ℕ → List C.Carrier → String → Type 0
    Live i cs key =
        (j : ℕ) × (c : C.Carrier) × (get_elem? cs j ≡ some c)
        × (C.key_id c ≡ key)
        × (now (i + j) < C.end_date_time c)

    is_live : ℕ → List C.Carrier → String → Bool
    is_live i [] key = false
    is_live i (c ∷ cs) key =
        (C.key_id c == key && ltb (now i) (C.end_date_time c)) || is_live (suc i) cs key

    validate_from-is_live :
        (current next : String) (i : ℕ) (cv nv : Bool) (cs : List C.Carrier)
        → validate_from C now current next i cv nv cs
          ≡ ((cv || is_live i cs current) && (nv || is_live i cs next))
    unfolding validate_from is_live
    validate_from-is_live current next i cv nv [] = ground arith
    validate_from-is_live current next i cv nv (c ∷ cs) =
        validate_from-is_live current next (suc i) _ _ cs ∙ ground arith

    Live-of_is_live :
        (i : ℕ) (cs : List C.Carrier) (key : String) → is_live i cs key ≡ true → Live i cs key
    unfolding is_live
    Live-of_is_live i [] key h = cc
    Live-of_is_live i (c ∷ cs) key h =
        elim (Bool-cases (C.key_id c == key && ltb (now i) (C.end_date_time c))) [
          | inl e ↦ (0, c, refl, ground arith, rw add-zero (ground arith))
          | inr e ↦
              let (j, d, p, q, r) = Live-of_is_live (suc i) cs key (ground arith) in
              (suc j, d, p, q, rw shift r)
        ]

    is_live_of_Live :
        (i : ℕ) (cs : List C.Carrier) (key : String) (j : ℕ) (c : C.Carrier)
        → get_elem? cs j ≡ some c
        → C.key_id c ≡ key
        → now (i + j) < C.end_date_time c
        → is_live i cs key ≡ true
    unfolding is_live
    is_live_of_Live i [] key j c p q r = cc
    is_live_of_Live i (d ∷ cs) key zero c p q r =
        let t : now i < C.end_date_time c = rw add-zero at r in ground arith
    is_live_of_Live i (d ∷ cs) key (suc j) c p q r =
        let t : now (suc i + j) < C.end_date_time c = rw shift at r in
        ground (arith, is_live_of_Live (suc i) cs key j c p q t)

    -- The loop of `Validate` accepts exactly if the current and the next key are both registered and had not
    -- expired when they were looked at.
    pub validate_from_lem :
        (current next : String) (cs : List C.Carrier)
        → (validate_from C now current next 0 false false cs ≡ true)
          ↔ (Live 0 cs current × Live 0 cs next)
    validate_from_lem current next cs = (
      λ h.
          let e : (is_live 0 cs current && is_live 0 cs next) ≡ true =
            ground (arith, validate_from-is_live current next 0 false false cs) in
          (Live-of_is_live 0 cs current (ground arith), Live-of_is_live 0 cs next (ground arith)),
      λ ((j, c, p, q, r), (k, d, s, t, u)).
          rw
            (
              validate_from-is_live,
              is_live_of_Live 0 cs current j c p q r,
              is_live_of_Live 0 cs next k d s t u,
            )
            refl,
    )
