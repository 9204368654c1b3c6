-- ===== src/Registered/Laws.antt =====
-- Which credential is newest, and which the loops select and accept, by position.
use azurerator.Base.{
  ℕ, zero, suc, ◌+◌, ◌≤◌, ◌<◌, String, ◌≡◌, ◌⊎◌, inl, inr, refl, ◌∙◌, false, not, some, List, [],
  ◌∷◌, ◌++◌, ◌&&◌, ◌||◌, ◌==◌, contains, string_eq, ltb, if◌then◌else◌, arith, Bool-cases,
  get_elem?,
}
use azurerator.Base.Text.{nat_eq}
use azurerator.Registered.{
  Credential, remove_duplicates_from, remove_duplicates, ids_in_use, newest_from, newest_index,
}

contains-remove_duplicates_from :
    (seen keys : List String) (k : String)
    → contains (remove_duplicates_from seen keys) k ≡ (contains keys k && not (contains seen k))
unfolding remove_duplicates_from
contains-remove_duplicates_from seen [] k = refl
contains-remove_duplicates_from seen (key ∷ keys) k = ground (
  arith,
  contains-remove_duplicates_from seen keys k,
  contains-remove_duplicates_from (key ∷ seen) keys k,
)

abbrev pub NodupKeys : List String → Type 0
NodupKeys [] = Unit
NodupKeys (k ∷ ks) = (contains ks k ≡ false) × NodupKeys ks

remove_duplicates_from-NodupKeys :
    (seen keys : List String) → NodupKeys (remove_duplicates_from seen keys)
unfolding remove_duplicates_from
remove_duplicates_from-NodupKeys seen [] = tt
remove_duplicates_from-NodupKeys seen (key ∷ keys) = elim (Bool-cases (contains seen key)) [
  | inl e ↦ rw e (remove_duplicates_from-NodupKeys seen keys)
  | inr e ↦ rw e (
    contains-remove_duplicates_from (key ∷ seen) keys key ∙ ground arith,
    remove_duplicates_from-NodupKeys (key ∷ seen) keys,
  )
]

-- `RemoveDuplicates` keeps every key, and each once.
pub remove_duplicates_lem :
    (keys : List String)
    → ((k : String) → contains (remove_duplicates keys) k ≡ contains keys k)
      × NodupKeys (remove_duplicates keys)
unfolding remove_duplicates
remove_duplicates_lem keys = (
  λ k. contains-remove_duplicates_from [] keys k ∙ ground arith,
  remove_duplicates_from-NodupKeys [] keys,
)

one_add : (j : ℕ) → 1 + j ≡ suc j
one_add j = omega arith

pub contains-append :
    (xs ys : List String) (k : String) → contains (xs ++ ys) k ≡ (contains xs k || contains ys k)
contains-append [] ys k = refl
contains-append (x ∷ xs) ys k = ground (arith, contains-append xs ys k)

pub contains-ids_in_use :
    (used : List String) (current next k : String)
    → contains (ids_in_use used current next) k ≡ (contains used k || k == current || k == next)
unfolding ids_in_use
contains-ids_in_use used current next k =
    (remove_duplicates_lem (used ++ current ∷ next ∷ [])).0 k
    ∙ contains-append used (current ∷ next ∷ []) k
    ∙ ground arith

module _ (C : Credential) where
  abbrev pub ids : List C.Carrier → List String
  ids [] = []
  ids (c ∷ cs) = C.key_id c ∷ ids cs

  -- No credential of the list starts after the time, and none before the position at it.
  abbrev NoneAfter : ℕ → List C.Carrier → Type 0
  NoneAfter t cs = (j : ℕ) (d : C.Carrier) → get_elem? cs j ≡ some d → C.start_date_time d ≤ t

  -- The credential at position `n` starts last, and is the first of those that do.
  pub record IsNewest (n : ℕ) (cs : List C.Carrier) : Type 0 where
    pub credential : C.Carrier
    pub here : get_elem? cs n ≡ some credential
    pub latest :
        (j : ℕ) (d : C.Carrier)
        → get_elem? cs j ≡ some d
        → C.start_date_time d ≤ C.start_date_time credential
    pub first :
        (j : ℕ) (d : C.Carrier)
        → get_elem? cs j ≡ some d
        → j < n
        → C.start_date_time d < C.start_date_time credential

  NoneAfter-cons :
      (t : ℕ) (c : C.Carrier) (cs : List C.Carrier)
      → C.start_date_time c ≤ t
      → NoneAfter t cs
      → NoneAfter t (c ∷ cs)
  NoneAfter-cons t c cs h none_after zero d e = ground arith
  NoneAfter-cons t c cs h none_after (suc j) d e = none_after j d e

  first-cons :
      (j : ℕ) (c : C.Carrier) (cs : List C.Carrier) (w : IsNewest j cs)
      → C.start_date_time c < C.start_date_time w.credential
      → (i : ℕ) (d : C.Carrier) → get_elem? (c ∷ cs) i ≡ some d
      → i < suc j
      → C.start_date_time d < C.start_date_time w.credential
  first-cons j c cs w h zero d e lt = ground arith
  first-cons j c cs w h (suc i) d e lt = w.first i d e (omega arith)

  IsNewest-cons :
      (j : ℕ) (c : C.Carrier) (cs : List C.Carrier) (w : IsNewest j cs)
      → C.start_date_time c < C.start_date_time w.credential
      → IsNewest (suc j) (c ∷ cs)
  IsNewest-cons j c cs w h = record {
    credential = w.credential;
    here = w.here;
    latest = NoneAfter-cons (C.start_date_time w.credential) c cs (omega arith) w.latest;
    first = first-cons j c cs w h;
  }

  IsNewest-head :
      (c : C.Carrier) (cs : List C.Carrier)
      → NoneAfter (C.start_date_time c) cs
      → IsNewest 0 (c ∷ cs)
  IsNewest-head c cs h = record {
    credential = c;
    here = refl;
    latest = NoneAfter-cons (C.start_date_time c) c cs (omega arith) h;
    first = λ j d e lt. elim lt [ ];
  }

  -- The loop ends at `at` if nothing newer follows, and else at the newest of what follows.
  abbrev Ends : ℕ → C.Carrier → ℕ → List C.Carrier → ℕ → Type 0
  Ends i n at cs result =
      ((result ≡ at) × NoneAfter (C.start_date_time n) cs)
      ⊎ ((j : ℕ) × (w : IsNewest j cs) × (result ≡ i + j)
          × (C.start_date_time n < C.start_date_time w.credential))

  newest_from-some :
      (i : ℕ) (n : C.Carrier) (at : ℕ) (c : C.Carrier) (cs : List C.Carrier)
      → newest_from C i (some n) at (c ∷ cs) ≡ (
          if ltb (C.start_date_time n) (C.start_date_time c)
          then newest_from C (suc i) (some c) i cs
          else newest_from C (suc i) (some n) at cs)
  unfolding newest_from
  newest_from-some i n at c cs = ground arith

  newest_from-Ends :
      (i : ℕ) (n : C.Carrier) (at : ℕ) (cs : List C.Carrier)
      → Ends i n at cs (newest_from C i (some n) at cs)
  unfolding newest_from IsNewest-cons
  newest_from-Ends i n at [] = inl (refl, λ j d h. cc)
  newest_from-Ends i n at (c ∷ cs) =
      let old = newest_from-Ends (suc i) n at cs in
      let new = newest_from-Ends (suc i) c i cs in
      rw newest_from-some (elim (Bool-cases (ltb (C.start_date_time n) (C.start_date_time c))) [
        | inl newer ↦ rw newer (elim new [
          | inl (e, none_after) ↦ inr (0, IsNewest-head c cs none_after, omega arith, ground arith)
          | inr (j, w, e, lt) ↦ inr (suc j, IsNewest-cons j c cs w lt, omega arith, ground arith)
        ])
        | inr older ↦ rw older (elim old [
          | inl (e, none_after) ↦
              inl (e, NoneAfter-cons (C.start_date_time n) c cs (ground arith) none_after)
          | inr (j, w, e, lt) ↦ inr (suc j, IsNewest-cons j c cs w (ground arith), omega arith, lt)
        ])
      ])

  -- In a list that is not empty, the first loop finds the credential that starts last, and the first
  -- of those if there are several.
  pub newest_index-IsNewest :
      (c : C.Carrier) (cs : List C.Carrier) → IsNewest (newest_index C (c ∷ cs)) (c ∷ cs)
  unfolding newest_index
  newest_index-IsNewest c cs = elim (newest_from-Ends 1 c 0 cs) [
    | inl (e, none_after) ↦ rw e (IsNewest-head c cs none_after)
    | inr (j, w, e, lt) ↦ rw (e, one_add) (IsNewest-cons j c cs w lt)
  ]
