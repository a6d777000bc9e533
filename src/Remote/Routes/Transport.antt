-- ===== src/Remote/Routes/Transport.antt =====
-- Which requests reach the MCP transport, through the whole table and its middleware.
use buildpulse_mcp.Common.{
  ◌≡◌, ◌≢◌, ◌↔◌, ◌⊎◌, inl, inr, refl, sym, ap, ◌∙◌, Text, codes, ◌==◌, eq_iff, has_prefix,
  has_prefix-rest, any, ◌&&◌, Bool, true, false, Bool-cases, Result-cases, Option, none, some, List,
  [], ◌∷◌, ◌++◌, ok, arith,
}
use buildpulse_mcp.Remote.{Answer, served, extract_token, require_bearer}
use buildpulse_mcp.Remote.Bearer.{Presents, extract_token_iff}
use buildpulse_mcp.Remote.Routes.{
  Incoming, Route, mcp, document, health, mcp_discovery, protected_resource, glama, oauth_metadata,
  oauth_register, oauth_authorize, oauth_callback, oauth_consent, oauth_token, oauth_revoke,
  Pattern, allows, matches, Dispatch, no_route, wrong_method, to_route, or_else, try_pattern,
  dispatch, routes, Handled, by_transport, serve, token_of, with_cors, with_request_id, front_end,
}

abbrev is_mcp : Route → Bool
is_mcp mcp = true
is_mcp route = false

abbrev leads : Text → Pattern → Bool
leads path p = is_mcp p.route && matches p.at path

abbrev is_mcp_route : Dispatch → Bool
is_mcp_route (to_route r) = is_mcp r
is_mcp_route d = false

or_else_route : (d : Dispatch) (r : Route) → or_else wrong_method d ≡ to_route r → d ≡ to_route r
or_else_route no_route r h = absurd (cc)
or_else_route wrong_method r h = absurd (cc)
or_else_route (to_route s) r h = h

is_mcp_of_route : (r : Route) → to_route r ≡ to_route mcp → is_mcp r ≡ true
is_mcp_of_route r h = ap is_mcp_route h

dispatch-leads :
    (ps : List Pattern) (method path : Text)
    → dispatch ps method path ≡ to_route mcp
    → any (leads path) ps ≡ true
unfolding dispatch try_pattern
dispatch-leads [] method path h = absurd (cc)
dispatch-leads (p ∷ ps) method path h = elim (Bool-cases (matches p.at path)) [
  | inr elsewhere ↦ let rest = dispatch-leads ps method path (rw elsewhere at h) in ground arith
  | inl here ↦ elim (Bool-cases (allows p.verb method)) [
    | inl allowed ↦ let r = is_mcp_of_route p.route (rw (here, allowed) at h) in ground arith
    | inr other ↦
        let rest = dispatch-leads ps method path (or_else_route _ mcp (rw (here, other) at h)) in
        ground arith
  ]
]

-- "/mcp", or a path below it.
abbrev pub IsMcpPath : Text → Type 0
IsMcpPath path = (path ≡ codes "/mcp") ⊎ ((rest : Text) × (path ≡ codes "/mcp/" ++ rest))

dispatch_mcp : (method path : Text) → IsMcpPath path → dispatch routes method path ≡ to_route mcp
unfolding dispatch try_pattern matches allows ◌==◌ has_prefix
dispatch_mcp method path (inl e) = rw e refl
dispatch_mcp method path (inr (rest, e)) = rw e refl

leads_to_mcp : (path : Text) → any (leads path) routes ≡ true → IsMcpPath path
unfolding matches
leads_to_mcp path h = elim (Bool-cases (path == codes "/mcp")) [
  | inl same ↦ inl ((eq_iff path (codes "/mcp")).0 same)
  | inr other ↦ inr (has_prefix-rest path (codes "/mcp/") (ground arith))
]

-- Only the route of /mcp answers by the transport.
serve_mcp :
    (metadata authorization : Text) (a : Answer (Option Text)) (d : Dispatch)
    → serve metadata authorization d ≡ by_transport a
    → d ≡ to_route mcp
serve_mcp metadata authorization a no_route h = absurd (cc)
serve_mcp metadata authorization a wrong_method h = absurd (cc)
serve_mcp metadata authorization a (to_route mcp) h = refl
serve_mcp metadata authorization a (to_route (document file kind)) h = absurd (cc)
serve_mcp metadata authorization a (to_route health) h = absurd (cc)
serve_mcp metadata authorization a (to_route mcp_discovery) h = absurd (cc)
serve_mcp metadata authorization a (to_route protected_resource) h = absurd (cc)
serve_mcp metadata authorization a (to_route glama) h = absurd (cc)
serve_mcp metadata authorization a (to_route oauth_metadata) h = absurd (cc)
serve_mcp metadata authorization a (to_route oauth_register) h = absurd (cc)
serve_mcp metadata authorization a (to_route oauth_authorize) h = absurd (cc)
serve_mcp metadata authorization a (to_route oauth_callback) h = absurd (cc)
serve_mcp metadata authorization a (to_route oauth_consent) h = absurd (cc)
serve_mcp metadata authorization a (to_route oauth_token) h = absurd (cc)
serve_mcp metadata authorization a (to_route oauth_revoke) h = absurd (cc)

-- What the check makes of the header, for the transport behind it.
abbrev checked : Text → Text → Answer (Option Text)
checked metadata authorization =
    require_bearer metadata authorization (token_of (extract_token authorization))

checked_iff :
    (metadata authorization token : Text)
    → (checked metadata authorization ≡ served (some token)) ↔ Presents authorization token
unfolding require_bearer
checked_iff metadata authorization token = elim (Result-cases (extract_token authorization)) [
  | inl (e, bad) ↦ (
    λ h. absurd (cc (rw bad at h)),
    λ presents. absurd (cc (bad, (extract_token_iff authorization token).1 presents)),
  )
  | inr (t, fine) ↦ (
    λ h. (extract_token_iff authorization token).0 (fine ∙ ap ok (ap token_in (rw fine at h))),
    λ presents.
        let e : ok t ≡ ok token = sym fine ∙ (extract_token_iff authorization token).1 presents in
        rw fine (ap (λ x. served (token_of x)) e),
  )
]
  where
    token_in : Answer (Option Text) → Text
    token_in (served (some t)) = t
    token_in a = []

-- A request reaches the MCP transport, with a token, exactly if it is no OPTIONS request, its path is
-- /mcp or below it, and its header presents that token: no other route of the table leads there, and
-- none of the middleware lets a request around the check.
pub front_end_transport_iff :
    (metadata minted : Text) (r : Incoming) (token : Text)
    → ((front_end metadata minted r).handled ≡ by_transport (served (some token)))
      ↔ ((r.method ≢ codes "OPTIONS") × IsMcpPath r.path × Presents r.authorization token)
unfolding front_end with_request_id with_cors
front_end_transport_iff metadata minted r token = elim (Bool-cases (r.method == codes "OPTIONS")) [
  | inl options ↦ (
    λ h. absurd (cc (rw options at h)),
    λ (other, path, presents). absurd (other ((eq_iff r.method (codes "OPTIONS")).0 options)),
  )
  | inr other ↦ (
    λ h.
        let g = rw other at h in
        let d = serve_mcp metadata r.authorization _ (dispatch routes r.method r.path) g in
        (
          λ e. absurd (ground (arith, eq_iff r.method (codes "OPTIONS"))),
          leads_to_mcp r.path (dispatch-leads routes r.method r.path d),
          (checked_iff metadata r.authorization token).0 (answer_in d g),
        ),
    λ (no_options, path, presents).
        rw (other, dispatch_mcp r.method r.path path)
          (ap by_transport ((checked_iff metadata r.authorization token).1 presents)),
  )
]
  where
    transported : Handled → Answer (Option Text)
    transported (by_transport a) = a
    transported h = served none

    answer_in :
        dispatch routes r.method r.path ≡ to_route mcp
        → serve metadata r.authorization (dispatch routes r.method r.path)
          ≡ by_transport (served (some token))
        → checked metadata r.authorization ≡ served (some token)
    answer_in d g = ap transported (sym (ap (serve metadata r.authorization) d) ∙ g)
