-- ===== src/McpServer/Client.antt =====
-- How the client of the platform's API builds URLs, follows redirects and remembers organizations,
-- internal/mcpserver/client.go.
pub mod Origin
pub mod Cache
use buildpulse_mcp.Common.{
  ℕ, ◌+◌, ◌*◌, Text, codes, ◌==◌, is_empty, has_prefix, contains_text, contains_byte, leb, ltb, not,
  ◌&&◌, ◌||◌, Option, none, some, Bool, true, false, List, [], ◌∷◌, Result, ok, err, if◌then◌else◌,
}
use buildpulse_mcp.Library.{Library, Url}

pub data ClientError : Type 0 where
  not_api_path invalid_path invalid_base unparsed_path absolute_path leaves_host : ClientError
  too_many_redirects blocked_redirect : ClientError

abbrev same_origin : Url → Url → Bool
same_origin u v = (u.scheme == v.scheme) && (u.host == v.host)

abbrev has_user : Option Text → Bool
has_user none = false
has_user (some user) = true

-- `resolve_reference` and `set_query` are the methods of net/url on the parsed base and path; the
-- parameters are the encoded ones, or `none` if there are none.
module _ (lib : Library) (resolve_reference : Url → Url → Url) where
  abbrev with_params : Option Text → Url → Url
  with_params none u = u
  with_params (some query) u = record u { raw_query = query }

  pub leave_check : Url → Url → Option Text → Result ClientError Url
  leave_check base resolved params =
      if same_origin resolved base then ok (with_params params resolved) else err leaves_host

  pub resolve_on : Url → Option Text → Option Url → Result ClientError Url
  unfolding leave_check
  resolve_on base params none = err unparsed_path
  resolve_on base params (some rel) =
      if not (is_empty rel.scheme) || (not (is_empty rel.host) || has_user rel.user)
      then err absolute_path
      else leave_check base (resolve_reference base rel) params

  pub resolve_parsed : Option Text → Option Url → Option Url → Result ClientError Url
  unfolding resolve_on
  resolve_parsed params rel none = err invalid_base
  resolve_parsed params rel (some base) = resolve_on base params rel

  -- The URL of a request; its text is what url.URL.String makes of it.
  unfoldable pub resolve_api_url : Text → Text → Option Text → Result ClientError Url
  unfolding resolve_parsed
  resolve_api_url base_url path params =
      if not (has_prefix path (codes "/api"))
      then err not_api_path
      else if contains_text path (codes "..")
          || (contains_text path (codes "@") || contains_text path (codes "\\"))
      then err invalid_path
      else resolve_parsed params (lib.parse_url path) (lib.parse_url base_url)

-- `requests` is the number of requests that were made, `original` the URL of the first.
unfoldable pub same_host_redirect : Url → ℕ → Url → Option ClientError
same_host_redirect original requests target =
    if leb 5 requests
    then some too_many_redirects
    else if not (target.scheme == original.scheme) || not (target.host == original.host)
    then some blocked_redirect
    else none

abbrev pub orgs_cache_ttl : ℕ
orgs_cache_ttl = 60 * 1_000_000_000

-- The memoized answer of /api/me/organizations.
pub record OrgsCache (A : Type 0) : Type 0 where
  pub orgs : List A
  pub cached : Bool
  pub expires : ℕ

abbrev refill :
    {E A : Type 0} → ℕ → OrgsCache A → Result E (List A) → Result E (List A) × OrgsCache A
refill later c (err e) = (err e, c)
refill later c (ok orgs) =
    (ok orgs, record { orgs = orgs; cached = true; expires = later + orgs_cache_ttl })

-- `now` and `later` are the two times that are read, `fetched` the answer of the API if it is asked.
unfoldable pub cached_organizations :
    {E A : Type 0} → ℕ → ℕ → Result E (List A) → OrgsCache A → Result E (List A) × OrgsCache A
cached_organizations now later fetched c =
    if c.cached && ltb now c.expires then (ok c.orgs, c) else refill later c fetched
