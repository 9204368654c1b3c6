-- ===== src/Base/Text.antt =====
-- Go's `strings.Split`, `strings.Join` and `strings.LastIndex` at the separator ",", and
-- `strings.Contains` and `strings.TrimSuffix`.
use Prim.Native.Nat.{ℕ}
use Prim.Native.Char.{Char, code}
use Prim.Native.String.{String, ◌++◌ as ◌<>◌}
use Prim.Native.String.append
use mathlib.Core.Path.{◌≡◌, refl, sym, ap, ◌∙◌}
use mathlib.Core.Logic.{inl, inr, ◌≢◌}
use mathlib.Core.Bool.{Bool, true, false}
use mathlib.Core.Option.{Option, none, some}
use mathlib.Core.List.{List, [], ◌∷◌, ◌++◌}
use native.Mathlib.Omega.{arith}
use native.Mathlib.Decide.{ℕ_discrete}
use text.Mathlib.Text
use text.Mathlib.TextLemmas.{append-nil}
use text.Mathlib.TextEquality.{starts_with_iff}
use azurerator.Base.Equality.{string_eq, eq_self, Eq, ◌==◌, if◌then◌else◌, Bool-cases, Option-cases}

instance unfoldable pub nat_eq : Eq ℕ
unfolding ℕ_discrete
nat_eq = record { dec = ℕ_discrete }

unfoldable pub is_comma : Char → Bool
unfolding nat_eq
is_comma c = code c == 44

-- The first part grows by a character.
abbrev pub grow : Char → List String → List String
grow c [] = String.◌∷◌ c "" ∷ []
grow c (s ∷ parts) = String.◌∷◌ c s ∷ parts

-- `strings.Split(s, ",")`
unfoldable pub split : String → List String
unfolding is_comma
split String.[] = "" ∷ []
split (String.◌∷◌ c s) = let parts = split s in if is_comma c then "" ∷ parts else grow c parts

-- `strings.Contains`
unfoldable pub contains_text : String → String → Bool
contains_text String.[] t = t == ""
contains_text (String.◌∷◌ c s) t =
    let later = contains_text s t in if Text.starts_with (String.◌∷◌ c s) t then true else later

-- `strings.TrimSuffix(s, "_")`
unfoldable pub trim_underscore : String → String
unfolding nat_eq
trim_underscore String.[] = ""
trim_underscore (String.◌∷◌ c s) =
    let rest = String.◌∷◌ c (trim_underscore s) in
    if s == "" then (if code c == 95 then "" else rest) else rest

-- `strings.Join(parts, ",")`
unfoldable pub join : List String → String
join [] = ""
join (s ∷ []) = s
join (s ∷ t ∷ parts) = s <> "," <> join (t ∷ parts)

-- What follows the last comma, if there is one: `strings.LastIndex` and the slice behind it.
unfoldable pub after_last_comma : String → Option String
unfolding is_comma
after_last_comma String.[] = none
after_last_comma (String.◌∷◌ c s) = elim (after_last_comma s) [
  | some t ↦ some t
  | none ↦ if is_comma c then some s else none
]

-- No comma stands in the text.
abbrev pub IsEntry : String → Type 0
IsEntry String.[] = Unit
IsEntry (String.◌∷◌ c s) = (is_comma c ≡ false) × IsEntry s

abbrev pub last_or : String → List String → String
last_or d [] = d
last_or d (s ∷ []) = s
last_or d (s ∷ t ∷ parts) = last_or d (t ∷ parts)

abbrev pub AreEntries : List String → Type 0
AreEntries [] = Unit
AreEntries (s ∷ parts) = IsEntry s × AreEntries parts

pub split-IsEntry : (s : String) → IsEntry s → split s ≡ s ∷ []
unfolding split
split-IsEntry String.[] _ = refl
split-IsEntry (String.◌∷◌ c s) (h, e) = rw (h, split-IsEntry s e)

grow-append : (c : Char) (xs ys : List String) → xs ≢ [] → grow c xs ++ ys ≡ grow c (xs ++ ys)
grow-append c [] ys h = absurd (h refl)
grow-append c (x ∷ xs) ys h = refl

grow-ne-nil : (c : Char) (xs : List String) → grow c xs ≢ []
grow-ne-nil c [] e = cc
grow-ne-nil c (x ∷ xs) e = cc

pub split-ne-nil : (s : String) → split s ≢ []
unfolding split
split-ne-nil String.[] e = cc
split-ne-nil (String.◌∷◌ c s) e = elim (Bool-cases (is_comma c)) [
  | inl h ↦ cc (rw h at e)
  | inr h ↦ grow-ne-nil c (split s) (rw h at e)
]

split-cons :
    (c : Char) (s : String)
    → split (String.◌∷◌ c s) ≡ (if is_comma c then "" ∷ split s else grow c (split s))
unfolding split
split-cons c s = refl

split-comma : (t : String) → split (String.◌∷◌ "," t) ≡ "" ∷ split t
unfolding split
split-comma t = refl

split-nil : split "" ≡ "" ∷ []
unfolding split
split-nil = refl

prepend :
    (c : Char) {whole : List String} (xs ys : List String)
    → xs ≢ []
    → whole ≡ xs ++ ys
    → (if is_comma c then "" ∷ whole else grow c whole)
      ≡ (if is_comma c then "" ∷ xs else grow c xs) ++ ys
prepend c xs ys h e = elim (Bool-cases (is_comma c)) [
  | inl f ↦ rw (f, e)
  | inr f ↦ rw (f, e) (sym (grow-append c xs ys h))
]

-- The parts of a joined text are the parts of its two halves.
pub split-join₂ : (s t : String) → split (s <> "," <> t) ≡ split s ++ split t
split-join₂ String.[] t = rw (append.nil, append.cons, append.nil, split-nil) (split-comma t)
split-join₂ (String.◌∷◌ c s) t =
    ap split (append.cons c s ("," <> t))
    ∙ split-cons c (s <> "," <> t)
    ∙ prepend c (split s) (split t) (split-ne-nil s) (split-join₂ s t)
    ∙ ap (λ (parts : List String). parts ++ split t) (sym (split-cons c s))

-- The entries that are joined are the parts again.
pub split-join : (parts : List String) → parts ≢ [] → AreEntries parts → split (join parts) ≡ parts
unfolding join
split-join [] h _ = absurd (h refl)
split-join (s ∷ []) h (e, _) = split-IsEntry s e
split-join (s ∷ t ∷ parts) h (e, es) =
    split-join₂ s (join (t ∷ parts)) ∙ rw (split-IsEntry s e, split-join (t ∷ parts) (λ p. cc) es)

split_of_none : (s : String) → after_last_comma s ≡ none → split s ≡ s ∷ []
unfolding split after_last_comma
split_of_none String.[] h = refl
split_of_none (String.◌∷◌ c s) h = elim (Option-cases (after_last_comma s)) [
  | inl e ↦ elim (Bool-cases (is_comma c)) [
    | inl f ↦ ground arith
    | inr f ↦ rw (f, split_of_none s e)
  ]
  | inr (t, e) ↦ ground arith
]

last_or-cons :
    (d x : String) (parts : List String) → parts ≢ [] → last_or d (x ∷ parts) ≡ last_or d parts
last_or-cons d x [] h = absurd (h refl)
last_or-cons d x (y ∷ parts) h = refl

split_of_some :
    (s d : String) {t : String}
    → after_last_comma s ≡ some t
    → (x y : String) × (parts : List String) × (split s ≡ x ∷ y ∷ parts)
      × (last_or d (y ∷ parts) ≡ t)
unfolding split after_last_comma
split_of_some String.[] d h = cc
split_of_some (String.◌∷◌ c s) d {t} h = elim (Bool-cases (is_comma c)) [
  | inl f ↦ elim (Option-cases (after_last_comma s)) [
    | inl e ↦ ("", s, [], rw (f, split_of_none s e), ground arith)
    | inr (u, e) ↦
        let (x, y, parts, p, q) = split_of_some s d e in
        ("", x, y ∷ parts, rw (f, p), ground (arith, q))
  ]
  | inr f ↦ elim (Option-cases (after_last_comma s)) [
    | inl e ↦ ground arith
    | inr (u, e) ↦
        let (x, y, parts, p, q) = split_of_some s d e in
        (String.◌∷◌ c x, y, parts, rw (f, p), ground (arith, q))
  ]
]

-- What follows the last comma, or else the whole, is the last part.
pub last_or-split :
    (d s : String) → last_or d (split s) ≡ elim (after_last_comma s) [ none ↦ s | some t ↦ t ]
last_or-split d s = elim (Option-cases (after_last_comma s)) [
  | inl e ↦ rw (split_of_none s e, e)
  | inr (t, e) ↦ let (x, y, parts, p, q) = split_of_some s d e in rw (p, e) q
]

grow-AreEntries :
    (c : Char) (parts : List String)
    → is_comma c ≡ false
    → AreEntries parts
    → AreEntries (grow c parts)
grow-AreEntries c [] h _ = ((h, tt), tt)
grow-AreEntries c (s ∷ parts) h (e, es) = ((h, e), es)

-- No part holds a comma.
pub split-AreEntries : (s : String) → AreEntries (split s)
unfolding split
split-AreEntries String.[] = (tt, tt)
split-AreEntries (String.◌∷◌ c s) = elim (Bool-cases (is_comma c)) [
  | inl f ↦ rw f (tt, split-AreEntries s)
  | inr f ↦ rw f (grow-AreEntries c (split s) f (split-AreEntries s))
]

starts_with_self : (t : String) → Text.starts_with t t ≡ true
starts_with_self t = (starts_with_iff t t).1 ("", append-nil t)

pub contains_text_self : (t : String) → contains_text t t ≡ true
unfolding contains_text
contains_text_self String.[] = eq_self {A = String} ""
contains_text_self (String.◌∷◌ c s) = rw (starts_with_self (String.◌∷◌ c s))
