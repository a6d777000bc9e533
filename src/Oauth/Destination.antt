-- ===== src/Oauth/Destination.antt =====
-- What cmd/mcp-remote/consent.go makes of a redirect URI: the label of its destination, the
-- policy of the consent page, and the location that carries the answer.
pub mod Recognised
use buildpulse_mcp.Common.{
  Text, codes, ◌==◌, is_empty, contains_byte, has_suffix, to_lower, Bool, true, false, ◌||◌, Option,
  none, some, List, [], ◌∷◌, ◌++◌, if◌then◌else◌,
}
use buildpulse_mcp.Library.{Library, Url}
use buildpulse_mcp.Oauth.Guard.{is_loopback_host}

-- A domain and its product. The source's map has no order; no host matches two of the domains.
abbrev pub recognised_redirect_hosts : List (Text × Text)
recognised_redirect_hosts =
    (codes "antigravity.google", codes "Google Antigravity")
    ∷ (codes "claude.ai", codes "Claude")
    ∷ (codes "claude.com", codes "Claude")
    ∷ (codes "cursor.com", codes "Cursor")
    ∷ (codes "chatgpt.com", codes "ChatGPT")
    ∷ (codes "openai.com", codes "ChatGPT")
    ∷ []

abbrev pub own_computer : Text
own_computer = codes "an application running on your own computer"

unfoldable pub product_of : Text → List (Text × Text) → Text × Bool
product_of host [] = ([], false)
product_of host ((domain, product) ∷ rest) =
    if (host == domain) || has_suffix host (b'.' ∷ domain)
    then (product, true)
    else product_of host rest

module _ (lib : Library) where
  classify_url : Option Url → Text × Bool
  classify_url none = ([], false)
  classify_url (some u) =
      let host = lib.to_lower u.hostname in
      if is_loopback_host lib host
      then (own_computer, true)
      else product_of host recognised_redirect_hosts

  unfoldable pub classify_destination : Text → Text × Bool
  unfolding classify_url
  classify_destination redirect_uri = classify_url (lib.parse_url redirect_uri)

  origin_of : Option Url → Text
  origin_of none = []
  origin_of (some u) =
      let scheme = to_lower u.scheme in
      if is_empty u.scheme
      then []
      else if (scheme == codes "http") || (scheme == codes "https")
      then (if is_empty u.host then [] else u.scheme ++ codes "://" ++ u.host)
      else u.scheme ++ codes ":"

  unfoldable pub form_action_origin : Text → Text
  unfolding origin_of
  form_action_origin redirect_uri = origin_of (lib.parse_url redirect_uri)

  abbrev pub base_policy : Text
  base_policy = codes "frame-ancestors 'none'; default-src 'none'; style-src 'unsafe-inline'"

  unfoldable pub consent_csp : Text → Text
  consent_csp redirect_uri =
      let origin = form_action_origin redirect_uri in
      if is_empty origin
      then base_policy
      else base_policy ++ codes "; form-action 'self' " ++ origin

  unfoldable pub append_query : Text → List (Text × Text) → Text
  append_query redirect_uri params =
      redirect_uri
      ++ ((if contains_byte redirect_uri b'?' then codes "&" else codes "?")
          ++ lib.encode_values params)
