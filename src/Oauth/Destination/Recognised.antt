-- ===== src/Oauth/Destination/Recognised.antt =====
-- When the consent page shows a redirect URI as one that it knows.
use buildpulse_mcp.Common.{
  ◌≡◌, ◌⊎◌, ◌↔◌, inl, inr, Text, ◌==◌, eq_iff, has_suffix, true, ◌||◌, some, Option-cases,
  Bool-cases, List, [], ◌∷◌, arith,
}
use buildpulse_mcp.Library.{Library, Url}
use buildpulse_mcp.Oauth.Guard.{is_loopback_host}
use buildpulse_mcp.Oauth.Destination.{recognised_redirect_hosts, product_of, classify_destination}

-- The host is the domain of one of the entries, or a subdomain of it.
pub data IsUnder (host : Text) : List (Text × Text) → Type 0 where
  here :
      {domain product : Text} {rest : List (Text × Text)}
      → (host ≡ domain) ⊎ (has_suffix host (b'.' ∷ domain) ≡ true)
      → IsUnder host ((domain, product) ∷ rest)
  there :
      {entry : Text × Text} {rest : List (Text × Text)}
      → IsUnder host rest
      → IsUnder host (entry ∷ rest)

product_of-IsUnder :
    (host : Text) (entries : List (Text × Text))
    → (product_of host entries).1 ≡ true
    → IsUnder host entries
unfolding product_of
product_of-IsUnder host [] h = absurd (cc)
product_of-IsUnder host ((domain, product) ∷ rest) h =
    elim (Bool-cases ((host == domain) || has_suffix host (b'.' ∷ domain))) [
      | inl under ↦ here (ground (arith, eq_iff host domain))
      | inr other ↦ there (product_of-IsUnder host rest (ground arith))
    ]

product_of-eq-true :
    (host : Text) (entries : List (Text × Text))
    → IsUnder host entries
    → (product_of host entries).1 ≡ true
unfolding product_of
product_of-eq-true host [] under = elim under [ ]
product_of-eq-true host ((domain, product) ∷ rest) (here h) = ground (arith, eq_iff host domain)
product_of-eq-true host ((domain, product) ∷ rest) (there under) =
    ground (arith, product_of-eq-true host rest under)

module _ (lib : Library) where
  -- A host that the page knows.
  abbrev pub IsKnown : Text → Type 0
  IsKnown host = (is_loopback_host lib host ≡ true) ⊎ IsUnder host recognised_redirect_hosts

  classify-eq-true :
      (raw : Text) (u : Url)
      → lib.parse_url raw ≡ some u
      → IsKnown (lib.to_lower u.hostname)
      → (classify_destination lib raw).1 ≡ true
  unfolding classify_destination
  classify-eq-true raw u parses known =
      let host = lib.to_lower u.hostname in
      elim (Bool-cases (is_loopback_host lib host)) [
        | inl loops ↦ rw (parses, loops)
        | inr not_loop ↦ elim known [
          | inl loops ↦ absurd (cc (loops, not_loop))
          | inr under ↦
              rw (parses, not_loop) (product_of-eq-true host recognised_redirect_hosts under)
        ]
      ]

  -- The page shows a redirect URI as recognised exactly if it parses and what strings.ToLower makes
  -- of its host is a loopback host or a domain of the list or a subdomain of one; the scheme of the
  -- URI has no part in it, nor has the host as it is written.
  pub classify_destination_iff :
      (raw : Text)
      → ((classify_destination lib raw).1 ≡ true)
        ↔ ((u : Url) × (lib.parse_url raw ≡ some u) × IsKnown (lib.to_lower u.hostname))
  unfolding classify_destination
  classify_destination_iff raw = elim (Option-cases (lib.parse_url raw)) [
    | inl bad ↦ (λ h. absurd (ground arith), λ (u, parses, h). absurd (cc (bad, parses)))
    | inr (u, parses) ↦
        let host = lib.to_lower u.hostname in
        elim (Bool-cases (is_loopback_host lib host)) [
          | inl loops ↦ (
            λ h. (u, parses, inl loops),
            λ (u', parses', known). classify-eq-true raw u' parses' known,
          )
          | inr not_loop ↦ (
            λ h. (
              u,
              parses,
              inr (product_of-IsUnder host recognised_redirect_hosts (rw (parses, not_loop) at h)),
            ),
            λ (u', parses', known). classify-eq-true raw u' parses' known,
          )
        ]
  ]
