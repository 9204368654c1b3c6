-- ===== src/Groups/Lookups.antt =====
-- What the lookup of a group answers.
use azurerator.Base.{
  String, ◌≡◌, refl, Option, none, some, ◌==◌, string_eq, if◌then◌else◌, arith, Bool-cases,
  Option-cases, inl, inr,
}
use azurerator.Base.Text.{nat_eq}
use azurerator.Base.Exec.{Result, Failure, ok, err, Result-cases}
use azurerator.Groups.{
  Response, FoundGroup, Client, decode_json_response_for_get_request, complete, fetch, get_by_id,
}

-- What the code makes of a response.
abbrev pub outcome : Response → Result (Option FoundGroup)
outcome res =
    if res.status == 400
    then err (if res.readable then Failure.bad_request else Failure.other)
    else elim (decode_json_response_for_get_request res) [
      | err e ↦ err e
      | ok answer ↦ ok (complete answer)
    ]

abbrev pub reply : (String → Response) → String → Result (Option FoundGroup)
reply response id = if id == "" then ok none else outcome (response id)

-- In every good state, Azure answers a request for a group with the response of its identifier, what
-- the cache holds of a group is what that response has, and a group that exists has the identifier
-- that was asked for. Requests and entries of that kind lead from good states to good ones.
pub record IsLive {S : Type 0} (client : Client S) (response : String → Response)
    (Good : S → Type 0) : Type 0 where
  pub answers : (id : String) (s : S) → Good s → (client.get_group id s).0 ≡ ok (response id)
  pub answers_keep : (id : String) (s : S) → Good s → Good (client.get_group id s).1
  pub own_id : (id : String) (g : FoundGroup) → outcome (response id) ≡ ok (some g) → g.id ≡ id
  pub cached :
      (id : String) (s : S) (g : FoundGroup)
      → Good s
      → client.group_cached id s ≡ some g
      → outcome (response id) ≡ ok (some g)
  pub caching_keeps :
      (id : String) (s : S) (g : FoundGroup)
      → Good s
      → outcome (response id) ≡ ok (some g)
      → Good (client.cache_group id g s)

module _ {S : Type 0} (client : Client S) (response : String → Response) (Good : S → Type 0)
    (live : IsLive client response Good) where
  -- It has this result, and leaves a good state.
  abbrev pub Gives : {A : Type 0} → Result A × S → Result A → Type 0
  Gives done a = (t : S) × (Good t × (done ≡ (a, t)))

  request :
      (id : String) (s : S)
      → Good s
      → client.get_group id s ≡ (ok (response id), (client.get_group id s).1)
  request id s g = let e = live.answers id s g in ground arith

  fetch-Gives : (id : String) (s : S) → Good s → Gives (fetch client id s) (outcome (response id))
  unfolding fetch
  fetch-Gives id s g = elim (Bool-cases ((response id).status == 400)) [
    | inl e ↦ rw (request id s g, e) (_, (live.answers_keep id s g, refl))
    | inr e ↦ elim (Result-cases (decode_json_response_for_get_request (response id))) [
      | inr (x, f) ↦ rw (request id s g, e, f) (_, (live.answers_keep id s g, refl))
      | inl (answer, f) ↦ elim (Option-cases (complete answer)) [
        | inl h ↦ rw (request id s g, e, f, h) (_, (live.answers_keep id s g, refl))
        | inr (group, h) ↦
            let found : outcome (response id) ≡ ok (some group) = rw (e, f, h) in
            rw (request id s g, e, f, h)
              (_, (live.caching_keeps id _ group (live.answers_keep id s g) found, refl))
      ]
    ]
  ]

  pub get_by_id-Gives :
      (id : String) (s : S) → Good s → Gives (get_by_id client id s) (reply response id)
  unfolding get_by_id
  get_by_id-Gives id s g = elim (Bool-cases (id == "")) [
    | inl e ↦ rw (e) (s, (g, refl))
    | inr e ↦ elim (Option-cases (client.group_cached id s)) [
      | inl f ↦ rw (e, f) (fetch-Gives id s g)
      | inr (group, f) ↦ rw (e, f, live.cached id s group g f) (s, (g, refl))
    ]
  ]

  pub reply_own_id : (id : String) (g : FoundGroup) → reply response id ≡ ok (some g) → g.id ≡ id
  reply_own_id id g h = elim (Bool-cases (id == "")) [
    | inl e ↦ let absurd : ok none ≡ ok (some g) = rw (e) at h in cc absurd
    | inr e ↦ live.own_id id g (rw (e) at h)
  ]
