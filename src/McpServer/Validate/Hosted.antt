-- ===== src/McpServer/Validate/Hosted.antt =====
-- Which platform URLs the remote server starts with.
use buildpulse_mcp.Common.{
  ◌≡◌, ◌⊎◌, ◌↔◌, inl, inr, subst, Text, codes, eq_iff, is_empty, is_empty_iff, trim_space, none,
  some, Option-cases, [], if◌then◌else◌, arith,
}
use buildpulse_mcp.Library.{Library, Url}
use buildpulse_mcp.McpServer.Validate.{
  default_platform_url, is_hosted_platform_host, check_hosted, validate_hosted_platform_url,
}

module _ (lib : Library) where
  -- The URL of a request is https to one of the two platform hosts, and carries nothing else.
  pub record IsHosted (u : Url) : Type 0 where
    pub scheme : u.scheme ≡ codes "https"
    pub no_user : u.user ≡ none
    pub root : (u.path ≡ []) ⊎ (u.path ≡ codes "/")
    pub no_query : u.raw_query ≡ []
    pub no_fragment : u.fragment ≡ []
    pub host :
        (lib.to_lower u.hostname ≡ codes "platform.buildpulse.io")
        ⊎ (lib.to_lower u.hostname ≡ codes "platform.dev.buildpulse.io")
    pub not_ip : lib.parse_ip_loopback (lib.to_lower u.hostname) ≡ none

  check_hosted-IsHosted : (u : Url) → check_hosted lib (some u) ≡ none → IsHosted u
  unfolding check_hosted is_hosted_platform_host
  check_hosted-IsHosted u h = record {
    scheme = ground (arith, eq_iff u.scheme (codes "https"));
    no_user = ground arith;
    root = ground (arith, eq_iff u.path (codes "/"), is_empty_iff u.path);
    no_query = ground (arith, is_empty_iff u.raw_query);
    no_fragment = ground (arith, is_empty_iff u.fragment);
    host = ground (
      arith,
      eq_iff (lib.to_lower u.hostname) (codes "platform.buildpulse.io"),
      eq_iff (lib.to_lower u.hostname) (codes "platform.dev.buildpulse.io"),
    );
    not_ip = ground arith;
  }

  check_hosted-none : (u : Url) → IsHosted u → check_hosted lib (some u) ≡ none
  unfolding check_hosted is_hosted_platform_host
  check_hosted-none u h = ground (
    arith,
    eq_iff u.scheme (codes "https"),
    eq_iff u.path (codes "/"),
    is_empty_iff u.path,
    is_empty_iff u.raw_query,
    is_empty_iff u.fragment,
    is_empty_iff (lib.to_lower u.hostname),
    eq_iff (lib.to_lower u.hostname) (codes "platform.buildpulse.io"),
    eq_iff (lib.to_lower u.hostname) (codes "platform.dev.buildpulse.io"),
  )

  -- The URL that the server is started with, or the default for a blank one.
  abbrev pub effective_url : Text → Text
  effective_url raw = if is_empty (trim_space raw) then default_platform_url else raw

  -- The server starts exactly with a URL that parses, is https, has no credentials, no path but "/", no
  -- query and no fragment, and whose host is one of the two platform hosts and no IP address; a
  -- blank one stands for the default.
  pub validate_hosted_platform_url_iff :
      (raw : Text)
      → (validate_hosted_platform_url lib raw ≡ none)
        ↔ ((u : Url) × (lib.parse_url (effective_url raw) ≡ some u) × IsHosted u)
  unfolding validate_hosted_platform_url
  validate_hosted_platform_url_iff raw = elim (Option-cases (lib.parse_url (effective_url raw))) [
    | inl bad ↦ (λ h. absurd (ground arith), λ (u, parses, h). absurd (cc (bad, parses)))
    | inr (u, parses) ↦ (
      λ h. (u, parses, check_hosted-IsHosted u (subst (λ o. check_hosted lib o ≡ none) parses h)),
      λ (u', parses', hosted). rw parses' (check_hosted-none u' hosted),
    )
  ]
