-- ===== src/McpServer/Validate.antt =====
-- The checks of tool arguments and of the platform's URL, internal/mcpserver/validate.go. A Go int
-- that may be negative is an `ℤ`; an error message is a constructor with the field's name.
pub mod Hosted
pub mod Arguments
use buildpulse_mcp.Common.{
  ℕ, ◌+◌, Text, codes, ◌==◌, is_empty, contains_byte, contains_text, trim_space, to_lower, split,
  length, ltb, leb, eqb, not, ◌&&◌, ◌||◌, Option, none, some, List, [], ◌∷◌, Bool, true, false,
  String, Result, ok, err, if◌then◌else◌,
}
use buildpulse_mcp.Library.{Library, Url}

pub data ℤ : Type 0 where
  pos : ℕ → ℤ
  negsuc : ℕ → ℤ

pub data ValidationError : Type 0 where
  not_a_uuid : Text → ValidationError
  required not_an_object_id too_long invalid_characters : String → ValidationError
  limit_out_of_range submissions_out_of_range : ℤ → ValidationError

-- [0-9a-f], in either case
unfoldable pub is_hex : ℕ → Bool
is_hex c = (leb b'0' c && leb c b'9') || ((leb b'a' c && leb c b'f') || (leb b'A' c && leb c b'F'))

unfoldable pub all_hex : Text → Bool
all_hex [] = true
all_hex (c ∷ s) = is_hex c && all_hex s

-- Groups of hex digits with these lengths.
unfoldable pub match_groups : List ℕ → List Text → Bool
match_groups [] [] = true
match_groups (n ∷ ns) (g ∷ gs) = (eqb (length g) n && all_hex g) && match_groups ns gs
match_groups [] (g ∷ gs) = false
match_groups (n ∷ ns) [] = false

-- the regular expression uuidRe
unfoldable pub is_uuid : Text → Bool
is_uuid s = match_groups (8 ∷ 4 ∷ 4 ∷ 4 ∷ 12 ∷ []) (split b'-' s)

-- the regular expression objectIDRe
unfoldable pub is_object_id : Text → Bool
is_object_id s = eqb (length s) 24 && all_hex s

unfoldable pub validate_organization_id : Text → Option ValidationError
validate_organization_id raw =
    let s = trim_space raw in
    if is_empty s then none else if is_uuid s then none else some (not_a_uuid s)

unfoldable pub validate_object_id : Text → String → Result ValidationError Text
validate_object_id raw field =
    let s = trim_space raw in
    if is_empty s
    then err (required field)
    else if is_object_id s
    then ok (to_lower s)
    else err (not_an_object_id field)

-- a control character in the loop over the runes
unfoldable pub has_control : Text → Bool
has_control [] = false
has_control (c ∷ s) = (ltb c 32 || eqb c 127) || has_control s

unfoldable pub validate_repo_part : Text → String → Result ValidationError Text
validate_repo_part raw field =
    let s = trim_space raw in
    if is_empty s
    then err (required field)
    else if ltb 200 (length s)
    then err (too_long field)
    else if contains_text s (codes "..")
        || (contains_byte s b'/' || (contains_byte s 92 || contains_byte s b'@'))
    then err (invalid_characters field)
    else if has_control s
    then err (invalid_characters field)
    else ok s

-- n < 1 || n > max
unfoldable pub out_of_range : ℕ → ℤ → Bool
out_of_range max (pos n) = ltb n 1 || ltb max n
out_of_range max (negsuc n) = true

abbrev pub is_zero : ℤ → Bool
is_zero (pos n) = eqb n 0
is_zero (negsuc n) = false

unfoldable pub validate_optional_limit : ℕ → ℤ → Option ValidationError
validate_optional_limit max n =
    if is_zero n then none else if out_of_range max n then some (limit_out_of_range n) else none

unfoldable pub validate_submissions_window : ℤ → Option ValidationError
validate_submissions_window n =
    if is_zero n
    then none
    else if out_of_range 50 n
    then some (submissions_out_of_range n)
    else none

pub data HostedUrlError : Type 0 where
  not_a_url not_https has_credentials has_path has_query_or_fragment no_host is_ip not_allowed :
      HostedUrlError

abbrev pub default_platform_url : Text
default_platform_url = codes "https://platform.buildpulse.io"

unfoldable pub is_hosted_platform_host : Text → Bool
is_hosted_platform_host host =
    (host == codes "platform.buildpulse.io") || (host == codes "platform.dev.buildpulse.io")

abbrev is_address : Option Bool → Bool
is_address none = false
is_address (some loopback) = true

abbrev is_given : Option Text → Bool
is_given none = false
is_given (some credentials) = true

module _ (lib : Library) where
  -- The checks of a URL that parses.
  unfoldable pub check_hosted : Option Url → Option HostedUrlError
  check_hosted none = some not_a_url
  check_hosted (some u) =
      if not (u.scheme == codes "https")
      then some not_https
      else if is_given u.user
      then some has_credentials
      else if not (is_empty u.path) && not (u.path == codes "/")
      then some has_path
      else if not (is_empty u.raw_query) || not (is_empty u.fragment)
      then some has_query_or_fragment
      else let host = lib.to_lower u.hostname in
        if is_empty host
        then some no_host
        else if is_address (lib.parse_ip_loopback host)
        then some is_ip
        else if not (is_hosted_platform_host host)
        then some not_allowed
        else none

  unfoldable pub validate_hosted_platform_url : Text → Option HostedUrlError
  unfolding check_hosted
  validate_hosted_platform_url raw =
      check_hosted (lib.parse_url (if is_empty (trim_space raw) then default_platform_url else raw))
