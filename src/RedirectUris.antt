-- ===== src/RedirectUris.antt =====
-- pkg/azure/client/application/redirecturi/redirecturi.go: the redirect URIs of an application.
-- `is_url` is the function `IsURL` of the package `govalidator`.
pub mod Laws
use azurerator.Base.{String, Bool, false, Option, none, some, List, [], ◌∷◌, if◌then◌else◌}
use azurerator.Crd.{AzureAdApplication}
use azurerator.Registered.{remove_duplicates}

-- What the patch sets as the URIs of a web application and of a single page application.
pub record RedirectUris : Type 0 where
  pub web : List String
  pub spa : List String

unfoldable pub web_app : List String → RedirectUris
web_app uris = record { web = uris; spa = [] }

unfoldable pub single_page_app : List String → RedirectUris
single_page_app uris = record { web = []; spa = uris }

module _ (is_url : String → Bool) where
  -- The loop of `ReplyUrlsToStringSlice`.
  unfoldable pub valid_urls : List String → List String
  valid_urls [] = []
  valid_urls (url ∷ urls) = let rest = valid_urls urls in if is_url url then url ∷ rest else rest

  unfoldable pub reply_urls_to_string_slice : AzureAdApplication → List String
  unfolding valid_urls
  reply_urls_to_string_slice app = remove_duplicates (valid_urls app.spec.reply_urls)

  unfoldable pub app : AzureAdApplication → RedirectUris
  unfolding reply_urls_to_string_slice web_app single_page_app
  app instance_ =
      let redirect_uris = reply_urls_to_string_slice instance_ in
      let is_spa : Bool = elim instance_.spec.single_page_application [
        | none ↦ false
        | some b ↦ b
      ] in
      if is_spa then single_page_app redirect_uris else web_app redirect_uris
