-- ===== src/McpServer/Examples.antt =====
-- The theorems about internal/mcpserver on small inputs.
pub mod Platform
pub mod Runs
pub mod Badges
pub mod Prompts
use buildpulse_mcp.Common.{
  ◌+◌, true, err, Result, has_prefix, contains_text, if◌then◌else◌, ◌≡◌, ◌≤◌, ◌⊎◌, ◌↔◌, refl, ℕ,
  Text, codes, trim_space, trim_left, to_lower, get, ◌==◌, HasDistinctKeys, length, All, none, some,
  List, [], ◌∷◌, ok, arith,
}
use buildpulse_mcp.Library.{Library, Url}
use buildpulse_mcp.Oauth.Examples.{lib, page_url}
use buildpulse_mcp.McpServer.Client.{
  resolve_api_url, same_host_redirect, OrgsCache, cached_organizations,
}
use buildpulse_mcp.McpServer.Client.Origin.{
  IsApiRequest, SameOrigin, resolve_api_url-IsApiRequest, Allowed, redirects-SameOrigin,
}
use buildpulse_mcp.McpServer.Client.Cache.{IsFaithful, IsRecent, cached_organizations-IsRecent}
use buildpulse_mcp.McpServer.Policy.{tool_rate_limit, TokenLimiter}
use buildpulse_mcp.McpServer.Policy.Budget.{admissions, InMinute, admissions-le_limit}
use buildpulse_mcp.McpServer.Validate.{
  pos, negsuc, validate_object_id, is_object_id, all_hex, is_hex, validate_repo_part,
  validate_optional_limit, validate_hosted_platform_url,
}
use buildpulse_mcp.McpServer.Validate.Hosted.{
  IsHosted, effective_url, validate_hosted_platform_url_iff,
}
use buildpulse_mcp.McpServer.Validate.Arguments.{
  IsLowerHex, IsSegment, validate_object_id-IsLowerHex, validate_repo_part_iff,
}

-- One hit of the token "t" at 5.
abbrev limiter : TokenLimiter
limiter = (codes "t", 5 ∷ []) ∷ []

abbrev calls : List (ℕ × Text)
calls = (7, codes "t") ∷ (9, codes "u") ∷ (8, codes "t") ∷ []

distinct : HasDistinctKeys limiter
unfolding get
distinct = (refl, tt)

in_minute : InMinute 6 calls
in_minute =
    ((omega arith, omega arith), ((omega arith, omega arith), ((omega arith, omega arith), tt)))

abbrev one : List ℕ
one = 5 ∷ []

few : length one ≤ tool_rate_limit
few = omega arith

admissions-le_limit_example : admissions limiter (codes "t") calls ≤ tool_rate_limit
unfolding get ◌==◌
admissions-le_limit_example = admissions-le_limit 6 (codes "t") calls limiter distinct in_minute few

abbrev raw_id : Text
raw_id = codes " 0123456789ABCDEF01234567 "

abbrev lower_id : Text
lower_id = codes "0123456789abcdef01234567"

accepts : validate_object_id raw_id "id" ≡ ok lower_id
unfolding validate_object_id trim_space trim_left to_lower is_object_id all_hex is_hex
accepts = refl

validate_object_id-IsLowerHex_example :
    (length lower_id ≡ 24) × All IsLowerHex lower_id × (lower_id ≡ to_lower (trim_space raw_id))
validate_object_id-IsLowerHex_example = validate_object_id-IsLowerHex raw_id lower_id "id" accepts

validate_repo_part_iff_example :
    (validate_repo_part (codes " a/b") "owner" ≡ ok (codes "a/b"))
    ↔ ((codes "a/b" ≡ trim_space (codes " a/b")) × IsSegment (codes "a/b"))
validate_repo_part_iff_example = validate_repo_part_iff (codes " a/b") (codes "a/b") "owner"

validate_hosted_platform_url_iff_example :
    (validate_hosted_platform_url lib (codes " ") ≡ none)
    ↔ ((u : Url) × (lib.parse_url (effective_url lib (codes " ")) ≡ some u) × IsHosted lib u)
validate_hosted_platform_url_iff_example = validate_hosted_platform_url_iff lib (codes " ")

-- A path parses to a URL without a scheme and a host.
abbrev rel_url : Url
rel_url = record page_url { scheme = []; host = []; hostname = [] }

abbrev path_lib : Library
path_lib = record lib {
  parse_url = λ raw. if has_prefix raw (codes "/") then some rel_url else some page_url;
}

resolves :
    resolve_api_url path_lib (λ base rel. base) (codes "https://a.co") (codes "/api/x") none
    ≡ ok page_url
unfolding resolve_api_url has_prefix contains_text ◌==◌
resolves = refl

abbrev targets : List Url
targets = page_url ∷ page_url ∷ []

resolve_api_url-IsApiRequest_example :
    IsApiRequest path_lib (codes "https://a.co") (codes "/api/x") page_url
resolve_api_url-IsApiRequest_example =
    resolve_api_url-IsApiRequest path_lib (λ base rel. base) (codes "https://a.co") (codes "/api/x")
      none page_url resolves

allowed : Allowed page_url 1 targets
unfolding same_host_redirect ◌==◌
allowed = (refl, (refl, tt))

redirects-SameOrigin_example : (length targets ≤ 4) × All (λ u. SameOrigin u page_url) targets
redirects-SameOrigin_example = redirects-SameOrigin page_url targets allowed

-- The API answered 7 at the time 3.
abbrev remembered : OrgsCache ℕ
remembered = record { orgs = 7 ∷ []; cached = true; expires = 60_000_000_003 }

abbrev AnsweredAt : ℕ → List ℕ → Type 0
AnsweredAt t orgs = orgs ≡ (t + 4) ∷ []

remembered-IsFaithful : IsFaithful AnsweredAt remembered
remembered-IsFaithful h = (3, refl, refl)

abbrev unreachable : Result (Unit {0}) (List ℕ)
unreachable = err tt

fails : (orgs : List ℕ) → unreachable ≡ ok orgs → AnsweredAt 9 orgs
fails orgs h = absurd (cc)

cached_organizations-IsRecent_example :
    IsFaithful AnsweredAt (cached_organizations 8 9 unreachable remembered).1
    × ((orgs : List ℕ)
        → (cached_organizations 8 9 unreachable remembered).0 ≡ ok orgs
        → IsRecent AnsweredAt 8 orgs)
    × ((e : Unit {0})
        → (cached_organizations 8 9 unreachable remembered).0 ≡ err e
        → unreachable ≡ err e)
cached_organizations-IsRecent_example =
    cached_organizations-IsRecent AnsweredAt 8 9 unreachable remembered (omega arith)
      remembered-IsFaithful fails
