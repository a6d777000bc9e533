-- ===== src/Oauth/Guard/Safety.antt =====
-- What a registration that is accepted looks like.
use buildpulse_mcp.Common.{
  ◌≤◌, ◌≡◌, ◌≢◌, ◌⊎◌, ◌↔◌, refl, Text, codes, ◌==◌, eq_iff, is_empty, is_empty_iff, contains_byte,
  to_lower, length, All, true, false, none, some, List, [], ◌∷◌, arith, Option, contains,
  Bool-cases, inl, inr,
}
use buildpulse_mcp.Library.{Library, Url}
use buildpulse_mcp.Oauth.Guard.{
  is_loopback_host, check_scheme, check_parsed, validate_redirect_uri, validate_uris,
  validate_registration,
}

module _ (lib : Library) where
  -- Where a browser can be sent with an authorization code: an https URL with a host, plain http to
  -- the user's own machine, or a private-use scheme that is named by a reverse domain.
  abbrev pub IsSafeUrl : Url → Type 0
  IsSafeUrl u =
      ((to_lower u.scheme ≡ codes "https") × (u.hostname ≢ []))
      ⊎ (((to_lower u.scheme ≡ codes "http") × (is_loopback_host lib u.hostname ≡ true))
          ⊎ ((to_lower u.scheme ≢ codes "https")
              × (to_lower u.scheme ≢ codes "http")
              × (contains_byte u.scheme b'.' ≡ true)))

  pub record IsSafeUri (raw : Text) : Type 0 where
    pub url : Url
    pub parses : lib.parse_url raw ≡ some url
    pub safe : IsSafeUrl url
    pub no_fragment : url.fragment ≡ []
    pub no_hash : contains_byte raw b'#' ≡ false
    pub given : raw ≢ []
    pub short : length raw ≤ 2048

  dotted_of_empty : (s : Text) → is_empty (to_lower s) ≡ true → contains_byte s b'.' ≡ false
  unfolding to_lower contains_byte
  dotted_of_empty [] h = refl
  dotted_of_empty (c ∷ s) h = cc

  check_scheme-IsSafeUrl : (u : Url) → check_scheme lib u ≡ none → IsSafeUrl u
  unfolding check_scheme
  check_scheme-IsSafeUrl u h = ground (
    arith,
    eq_iff (to_lower u.scheme) (codes "https"),
    eq_iff (to_lower u.scheme) (codes "http"),
    is_empty_iff u.hostname,
  )

  check_scheme-eq-none : (u : Url) → IsSafeUrl u → check_scheme lib u ≡ none
  unfolding check_scheme
  check_scheme-eq-none u h = ground (
    arith,
    eq_iff (to_lower u.scheme) (codes "https"),
    eq_iff (to_lower u.scheme) (codes "http"),
    is_empty_iff u.hostname,
    dotted_of_empty u.scheme,
  )

  check_parsed-IsSafe :
      (raw : Text) (o : Option Url)
      → check_parsed lib raw o ≡ none
      → (u : Url) × (o ≡ some u)
        × IsSafeUrl u
        × (u.fragment ≡ [])
        × (contains_byte raw b'#' ≡ false)
  unfolding check_parsed
  check_parsed-IsSafe raw none h = cc
  check_parsed-IsSafe raw (some u) h = (
    u,
    refl,
    check_scheme-IsSafeUrl u (ground arith),
    ground (arith, is_empty_iff u.fragment),
    ground arith,
  )

  -- Registration accepts exactly the redirect URIs that a code may be sent to: those that parse, have
  -- no fragment and no '#', are neither empty nor longer than 2048 bytes, and are https with a host,
  -- http on a loopback host, or of a private-use scheme with a dot in its name.
  pub validate_redirect_uri_iff :
      (raw : Text) → (validate_redirect_uri lib raw ≡ none) ↔ IsSafeUri raw
  unfolding validate_redirect_uri
  validate_redirect_uri_iff raw = (sound, complete)
    where
      sound : validate_redirect_uri lib raw ≡ none → IsSafeUri raw
      sound h =
          let (u, parses, safe, fragment, hash) =
            check_parsed-IsSafe raw (lib.parse_url raw) (ground arith) in
          record {
            url = u;
            parses = parses;
            safe = safe;
            no_fragment = fragment;
            no_hash = hash;
            given = ground (arith, is_empty_iff raw);
            short = ground arith;
          }

      complete : IsSafeUri raw → validate_redirect_uri lib raw ≡ none
      complete h =
          ground (
            arith,
            is_empty_iff raw,
            is_empty_iff h.url.fragment,
            check_scheme-eq-none h.url h.safe,
          )

  validate_uris-All : (us : List Text) → validate_uris lib us ≡ none → All IsSafeUri us
  unfolding validate_uris
  validate_uris-All [] h = tt
  validate_uris-All (u ∷ us) h =
      ((validate_redirect_uri_iff u).0 (ground arith), validate_uris-All us (ground arith))

  validate_uris-eq-none : (us : List Text) → All IsSafeUri us → validate_uris lib us ≡ none
  unfolding validate_uris
  validate_uris-eq-none [] h = refl
  validate_uris-eq-none (u ∷ us) (safe, h) =
      rw ((validate_redirect_uri_iff u).1 safe, validate_uris) (validate_uris-eq-none us h)

  -- What a registered client looks like.
  pub record IsRegistrable (name : Text) (uris : List Text) : Type 0 where
    pub some_uri : 1 ≤ length uris
    pub few_uris : length uris ≤ 5
    pub short_name : length name ≤ 255
    pub safe_uris : All IsSafeUri uris

  -- A registration is accepted exactly if it names one to five redirect URIs, each of them safe, and
  -- its client name has at most 255 bytes.
  pub validate_registration_iff :
      (name : Text) (uris : List Text)
      → (validate_registration lib name uris ≡ none) ↔ IsRegistrable name uris
  unfolding validate_registration
  validate_registration_iff name uris = (
    λ h. record {
      some_uri = ground arith;
      few_uris = ground arith;
      short_name = ground arith;
      safe_uris = validate_uris-All uris (ground arith);
    },
    λ r. ground (arith, validate_uris-eq-none uris r.safe_uris),
  )

  -- A URI of a list that passed is safe.
  pub safe_of_contains :
      (us : List Text) (uri : Text) → All IsSafeUri us → contains us uri ≡ true → IsSafeUri uri
  unfolding contains
  safe_of_contains (u ∷ us) uri (safe, h) e = elim (Bool-cases (u == uri)) [
    | inl same ↦ rw (← (eq_iff u uri).0 same) safe
    | inr other ↦ safe_of_contains us uri h (ground arith)
  ]
  safe_of_contains [] uri h e = cc
