-- ===== src/McpServer/Client/Origin.antt =====
-- The client talks to one origin.
use buildpulse_mcp.Common.{
  ℕ, ◌+◌, ◌≤◌, ◌≡◌, refl, Text, codes, eq_iff, has_prefix, contains_text, length, All, Option, none,
  some, true, false, List, [], ◌∷◌, ok, arith,
}
use buildpulse_mcp.Library.{Library, Url}
use buildpulse_mcp.McpServer.Client.{
  leave_check, resolve_on, resolve_parsed, resolve_api_url, same_host_redirect,
}

-- The same scheme and the same host with its port.
pub record SameOrigin (u v : Url) : Type 0 where
  pub scheme : u.scheme ≡ v.scheme
  pub host : u.host ≡ v.host

-- What is requested for a path.
pub record IsApiRequest (lib : Library) (base_url path : Text) (u : Url) : Type 0 where
  pub base : Url
  pub parses : lib.parse_url base_url ≡ some base
  pub origin : SameOrigin u base
  pub under_api : has_prefix path (codes "/api") ≡ true
  pub no_dots : contains_text path (codes "..") ≡ false

leave_check-SameOrigin :
    (lib : Library) (resolve_reference : Url → Url → Url) (base resolved u : Url)
    (params : Option Text)
    → leave_check lib resolve_reference base resolved params ≡ ok u
    → SameOrigin u base
unfolding leave_check
leave_check-SameOrigin lib resolve base resolved u none h = record {
  scheme = ground (arith, eq_iff resolved.scheme base.scheme);
  host = ground (arith, eq_iff resolved.host base.host);
}
leave_check-SameOrigin lib resolve base resolved u (some query) h = record {
  scheme = ground (arith, eq_iff resolved.scheme base.scheme);
  host = ground (arith, eq_iff resolved.host base.host);
}

resolve_parsed-SameOrigin :
    (lib : Library) (resolve_reference : Url → Url → Url) (params : Option Text)
    (rel base : Option Url) (u : Url)
    → resolve_parsed lib resolve_reference params rel base ≡ ok u
    → (b : Url) × (base ≡ some b) × SameOrigin u b
unfolding resolve_parsed resolve_on
resolve_parsed-SameOrigin lib resolve params rel none u h = absurd (cc)
resolve_parsed-SameOrigin lib resolve params none (some b) u h = absurd (cc)
resolve_parsed-SameOrigin lib resolve params (some rel) (some b) u h =
    (b, refl, leave_check-SameOrigin lib resolve b (resolve b rel) u params (ground arith))

-- Whatever net/url makes of the base and the path, a URL that is returned has the scheme and the host
-- of the base, and the path that was asked for begins with /api and has no "..".
pub resolve_api_url-IsApiRequest :
    (lib : Library) (resolve_reference : Url → Url → Url) (base_url path : Text)
    (params : Option Text) (u : Url)
    → resolve_api_url lib resolve_reference base_url path params ≡ ok u
    → IsApiRequest lib base_url path u
unfolding resolve_api_url
resolve_api_url-IsApiRequest lib resolve base_url path params u h =
    let (base, parses, origin) =
      resolve_parsed-SameOrigin lib resolve params (lib.parse_url path) (lib.parse_url base_url) u
        (ground arith) in
    record {
      base = base;
      parses = parses;
      origin = origin;
      under_api = ground arith;
      no_dots = ground arith;
    }

-- The check allows each of the targets in turn, after `n` requests.
abbrev pub Allowed : Url → ℕ → List Url → Type 0
Allowed original n [] = Unit
Allowed original n (target ∷ targets) =
    (same_host_redirect original n target ≡ none) × Allowed original (n + 1) targets

Allowed-le :
    (original : Url) (n : ℕ) (targets : List Url)
    → n ≤ 5
    → Allowed original n targets
    → length targets + n ≤ 5
unfolding same_host_redirect
Allowed-le original n [] le h = omega (arith, le)
Allowed-le original n (target ∷ targets) le (allowed, h) =
    let room : n + 1 ≤ 5 = ground arith in omega (arith, Allowed-le original (n + 1) targets room h)

redirect-SameOrigin :
    (original target : Url) (n : ℕ)
    → same_host_redirect original n target ≡ none
    → SameOrigin target original
unfolding same_host_redirect
redirect-SameOrigin original target n h = record {
  scheme = ground (arith, eq_iff target.scheme original.scheme);
  host = ground (arith, eq_iff target.host original.host);
}

Allowed-All :
    (original : Url) (n : ℕ) (targets : List Url)
    → Allowed original n targets
    → All (λ u. SameOrigin u original) targets
Allowed-All original n [] h = tt
Allowed-All original n (target ∷ targets) (allowed, h) =
    (redirect-SameOrigin original target n allowed, Allowed-All original (n + 1) targets h)

-- Of the redirects after a first request, each allowed by the check in its turn, there are at most
-- four, and all go to the scheme and the host of the first request.
pub redirects-SameOrigin :
    (original : Url) (targets : List Url)
    → Allowed original 1 targets
    → (length targets ≤ 4) × All (λ u. SameOrigin u original) targets
redirects-SameOrigin original targets h =
    (omega (arith, Allowed-le original 1 targets (omega arith) h), Allowed-All original 1 targets h)
