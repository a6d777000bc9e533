-- ===== src/Remote/Routes.antt =====
-- The routing table and the middleware of newHandler in cmd/mcp-remote/main.go, with the documents
-- of public.go.
pub mod Transport
use buildpulse_mcp.Common.{
  ℕ, Text, codes, ◌==◌, is_empty, has_prefix, not, ◌&&◌, ◌||◌, Option, none, some, Bool, true,
  false, List, [], ◌∷◌, ◌++◌, Result, ok, err, if◌then◌else◌,
}
use buildpulse_mcp.Remote.{Answer, AuthError, extract_token, require_bearer}

-- What the front end reads of a request; an absent header is empty.
pub record Incoming : Type 0 where
  pub method : Text
  pub path : Text
  pub origin : Text
  pub authorization : Text
  pub request_id : Text

-- The handlers of the table; a document has its file and its content type.
pub data Route : Type 0 where
  document : Text → Text → Route
  health mcp mcp_discovery protected_resource glama : Route
  oauth_metadata oauth_register oauth_authorize oauth_callback oauth_consent oauth_token : Route
  oauth_revoke : Route

-- A pattern without a method, with GET, or with POST.
pub data Verb : Type 0 where
  any_method get_only post_only : Verb

-- A path, or every path that begins with one that ends in a slash.
pub data PathPattern : Type 0 where
  exactly below : Text → PathPattern

pub record Pattern : Type 0 where
  pub verb : Verb
  pub at : PathPattern
  pub route : Route

-- A GET pattern is one for HEAD too.
unfoldable pub allows : Verb → Text → Bool
allows any_method method = true
allows get_only method = (method == codes "GET") || (method == codes "HEAD")
allows post_only method = method == codes "POST"

unfoldable pub matches : PathPattern → Text → Bool
matches (exactly p) path = path == p
matches (below p) path = has_prefix path p

abbrev pattern : Verb → Text → Route → Pattern
pattern verb path route = record { verb = verb; at = exactly path; route = route }

-- registerPublicRoutes
abbrev public_routes : List Pattern
public_routes =
    pattern get_only (codes "/")
      (document (codes "public/index.html") (codes "text/html; charset=utf-8"))
    ∷ pattern get_only (codes "/robots.txt")
        (document (codes "public/robots.txt") (codes "text/plain; charset=utf-8"))
    ∷ pattern get_only (codes "/sitemap.xml")
        (document (codes "public/sitemap.xml") (codes "application/xml; charset=utf-8"))
    ∷ pattern get_only (codes "/llms.txt")
        (document (codes "public/llms.txt") (codes "text/plain; charset=utf-8"))
    ∷ []

abbrev pub routes : List Pattern
routes =
    public_routes
    ++ pattern get_only (codes "/health") health
      ∷ pattern any_method (codes "/mcp") mcp
      ∷ record { verb = any_method; at = below (codes "/mcp/"); route = mcp }
      ∷ pattern get_only (codes "/.well-known/mcp") mcp_discovery
      ∷ pattern get_only (codes "/.well-known/oauth-authorization-server") oauth_metadata
      ∷ pattern post_only (codes "/oauth/register") oauth_register
      ∷ pattern get_only (codes "/oauth/authorize") oauth_authorize
      ∷ pattern get_only (codes "/oauth/callback") oauth_callback
      ∷ pattern post_only (codes "/oauth/consent") oauth_consent
      ∷ pattern post_only (codes "/oauth/token") oauth_token
      ∷ pattern post_only (codes "/oauth/revoke") oauth_revoke
      ∷ pattern get_only (codes "/.well-known/oauth-protected-resource") protected_resource
      ∷ pattern get_only (codes "/.well-known/oauth-protected-resource/mcp") protected_resource
      ∷ pattern get_only (codes "/.well-known/glama.json") glama
      ∷ []

-- 404, 405, or a handler.
pub data Dispatch : Type 0 where
  no_route wrong_method : Dispatch
  to_route : Route → Dispatch

abbrev or_else : Dispatch → Dispatch → Dispatch
or_else no_route d = d
or_else wrong_method (to_route r) = to_route r
or_else wrong_method d = wrong_method
or_else (to_route r) d = to_route r

unfoldable pub try_pattern : Pattern → Text → Text → Dispatch
try_pattern p method path =
    if matches p.at path
    then (if allows p.verb method then to_route p.route else wrong_method)
    else no_route

-- ServeMux, of a path that is clean; it redirects the others to their clean form. No two patterns of
-- the table match one path.
unfoldable pub dispatch : List Pattern → Text → Text → Dispatch
dispatch [] method path = no_route
dispatch (p ∷ ps) method path = or_else (try_pattern p method path) (dispatch ps method path)

-- The handler that answers: of /mcp, the check of the header, and behind it the transport with the
-- token that the header has.
pub data Handled : Type 0 where
  preflight : Handled
  refused : Dispatch → Handled
  by_route : Route → Handled
  by_transport : Answer (Option Text) → Handled

abbrev token_of : Result AuthError Text → Option Text
token_of (ok token) = some token
token_of (err e) = none

abbrev serve : Text → Text → Dispatch → Handled
serve metadata authorization (to_route mcp) =
    by_transport (require_bearer metadata authorization (token_of (extract_token authorization)))
serve metadata authorization (to_route route) = by_route route
serve metadata authorization d = refused d

pub record Outgoing : Type 0 where
  pub request_id : Text
  pub cors : List (Text × Text)
  pub handled : Handled

abbrev pub cors_headers : Text → List (Text × Text)
cors_headers origin =
    (codes "Access-Control-Allow-Origin", origin)
    ∷ (codes "Vary", codes "Origin")
    ∷ (codes "Access-Control-Allow-Methods", codes "GET, POST, OPTIONS")
    ∷ (
      codes "Access-Control-Allow-Headers",
      codes "Authorization, Content-Type, Mcp-Session-Id, Mcp-Protocol-Version, Accept",
    )
    ∷ (
      codes "Access-Control-Expose-Headers",
      codes "Mcp-Session-Id, Mcp-Protocol-Version, WWW-Authenticate",
    )
    ∷ (codes "Access-Control-Max-Age", codes "600")
    ∷ []

unfoldable pub with_cors : Incoming → Handled → List (Text × Text) × Handled
with_cors r next = (
  if is_empty r.origin then [] else cors_headers r.origin,
  if r.method == codes "OPTIONS" then preflight else next,
)

-- `minted` is the id that is made of the time.
unfoldable pub with_request_id : Text → Incoming → List (Text × Text) × Handled → Outgoing
with_request_id minted r (cors, handled) = record {
  request_id = if is_empty r.request_id then minted else r.request_id;
  cors = cors;
  handled = handled;
}

unfoldable pub front_end : Text → Text → Incoming → Outgoing
front_end metadata minted r =
    with_request_id minted r
      (with_cors r (serve metadata r.authorization (dispatch routes r.method r.path)))
