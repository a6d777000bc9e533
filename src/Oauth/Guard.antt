-- ===== src/Oauth/Guard.antt =====
-- The limits on dynamic registration, cmd/mcp-remote/register_guard.go, without the rate limiter.
pub mod Safety
use buildpulse_mcp.Common.{
  ℕ, Text, codes, ◌==◌, is_empty, contains_byte, to_lower, trim_space, split, last, length, ltb,
  eqb, Bool, true, false, not, ◌||◌, Option, none, some, List, [], ◌∷◌, if◌then◌else◌,
}
use buildpulse_mcp.Library.{Library, Url}

abbrev pub max_redirect_uris : ℕ
max_redirect_uris = 5

abbrev pub max_client_name_len : ℕ
max_client_name_len = 255

abbrev pub max_redirect_uri_len : ℕ
max_redirect_uri_len = 2048

-- The errors of validateRedirectURI and validateRegistration, one for each message.
pub data RegistrationError : Type 0 where
  uri_is_empty uri_too_long uri_not_valid uri_has_fragment uri_without_host : RegistrationError
  uri_plain_http uri_not_absolute : RegistrationError
  unsupported_scheme : Text → RegistrationError
  uris_required too_many_uris name_too_long : RegistrationError

module _ (lib : Library) where
  unfoldable pub is_loopback_host : Text → Bool
  is_loopback_host host =
      if lib.equal_fold host (codes "localhost")
      then true
      else elim (lib.parse_ip_loopback host) [ some loopback ↦ loopback | none ↦ false ]

  -- the switch on the scheme; `none` is the nil error
  unfoldable pub check_scheme : Url → Option RegistrationError
  check_scheme u =
      let scheme = to_lower u.scheme in
      if scheme == codes "https"
      then (if is_empty u.hostname then some uri_without_host else none)
      else if scheme == codes "http"
      then (if is_loopback_host u.hostname then none else some uri_plain_http)
      else if is_empty scheme
      then some uri_not_absolute
      else if contains_byte u.scheme b'.'
      then none
      else some (unsupported_scheme u.scheme)

  check_parsed : Text → Option Url → Option RegistrationError
  check_parsed raw none = some uri_not_valid
  check_parsed raw (some u) =
      if not (is_empty u.fragment) || contains_byte raw b'#'
      then some uri_has_fragment
      else check_scheme u

  unfoldable pub validate_redirect_uri : Text → Option RegistrationError
  unfolding check_parsed
  validate_redirect_uri raw =
      if is_empty raw
      then some uri_is_empty
      else if ltb max_redirect_uri_len (length raw)
      then some uri_too_long
      else check_parsed raw (lib.parse_url raw)

  -- the loop over the URIs
  unfoldable pub validate_uris : List Text → Option RegistrationError
  validate_uris [] = none
  validate_uris (u ∷ us) = elim (validate_redirect_uri u) [
    | some e ↦ some e
    | none ↦ validate_uris us
  ]

  unfoldable pub validate_registration : Text → List Text → Option RegistrationError
  unfolding validate_uris
  validate_registration client_name redirect_uris =
      if eqb (length redirect_uris) 0
      then some uris_required
      else if ltb max_redirect_uris (length redirect_uris)
      then some too_many_uris
      else if ltb max_client_name_len (length client_name)
      then some name_too_long
      else validate_uris redirect_uris

  -- `xff` is the X-Forwarded-For header, `remote` the peer's address.
  unfoldable pub client_ip : Text → Text → Text
  client_ip xff remote =
      if is_empty xff || is_empty (trim_space (last (split b',' xff)))
      then elim (lib.split_host remote) [ some host ↦ host | none ↦ remote ]
      else trim_space (last (split b',' xff))
