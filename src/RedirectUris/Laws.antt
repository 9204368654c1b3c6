-- ===== src/RedirectUris/Laws.antt =====
-- Which redirect URIs are set.
use azurerator.Base.{
  String, ◌≡◌, refl, ◌∙◌, Bool, false, none, some, List, [], ◌∷◌, ◌&&◌, contains, string_eq,
  if◌then◌else◌, arith, Bool-cases, inl, inr,
}
use azurerator.Crd.{AzureAdApplication}
use azurerator.Registered.Laws.{NodupKeys, remove_duplicates_lem}
use azurerator.RedirectUris.{web_app, single_page_app, valid_urls, reply_urls_to_string_slice, app}

module _ (is_url : String → Bool) where
  contains-valid_urls :
      (urls : List String) (k : String)
      → contains (valid_urls is_url urls) k ≡ (contains urls k && is_url k)
  unfolding valid_urls
  contains-valid_urls [] k = refl
  contains-valid_urls (url ∷ urls) k = ground (arith, contains-valid_urls urls k)

  abbrev pub is_spa : AzureAdApplication → Bool
  is_spa a = elim a.spec.single_page_application [ none ↦ false | some b ↦ b ]

  -- The patch sets the reply URLs that are URLs, each once and no others: as those of a single page
  -- application if the resource is one, and of a web application if not; the other list is emptied.
  pub app-reply_urls :
      (a : AzureAdApplication)
      → let uris = if is_spa a then (app is_url a).spa else (app is_url a).web in
        let others = if is_spa a then (app is_url a).web else (app is_url a).spa in
        ((k : String) → contains uris k ≡ (contains a.spec.reply_urls k && is_url k))
        × NodupKeys uris
        × (others ≡ [])
  unfolding app web_app single_page_app reply_urls_to_string_slice
  app-reply_urls a =
      let (kept, once) = remove_duplicates_lem (valid_urls is_url a.spec.reply_urls) in
      elim (Bool-cases (is_spa a)) [
        | inl e ↦ rw (e, app) (λ k. kept k ∙ contains-valid_urls a.spec.reply_urls k, once, refl)
        | inr e ↦ rw (e, app) (λ k. kept k ∙ contains-valid_urls a.spec.reply_urls k, once, refl)
      ]
