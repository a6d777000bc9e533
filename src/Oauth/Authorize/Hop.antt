-- ===== src/Oauth/Authorize/Hop.antt =====
-- When /oauth/authorize sends the browser on to Cognito, and what it changes.
use buildpulse_mcp.Common.{
  ℕ, String, ◌≡◌, ◌≢◌, ◌⊎◌, ◌↔◌, refl, inl, inr, Text, codes, eq_iff, is_empty_iff, contains, Map,
  [], true, Option, none, some, Option-cases, ok, err, Result-cases, arith,
}
use buildpulse_mcp.Library.{Library}
use buildpulse_mcp.Oauth.Model.{RegisteredClient}
use buildpulse_mcp.Oauth.Store.{StoreError}
use buildpulse_mcp.Oauth.Server.{
  OauthServer, World, Call, Response, oauth_error, redirect, Description, value, random_hex,
  first_answer, first_answer_all,
}
use buildpulse_mcp.Oauth.Authorize.{
  unknown_client, unsaved_state, request_tests, client_tests, hop_record, cognito_url, authorizing,
  authorize,
}

-- An error as JSON.
abbrev pub IsOauthError : Response → Type 0
IsOauthError r =
    (status : ℕ) × (code : String) × (why : Description) × (r ≡ oauth_error status code why)

module _ {S D : Type 0} (lib : Library) (srv : OauthServer S D) (call : Call) (q : Map Text) where
  -- The request is one that the server and the client allow.
  pub record MayAuthorize (client : RegisteredClient) : Type 0 where
    pub configured : srv.cognito_domain ≢ []
    pub identified : srv.cognito_client_id ≢ []
    pub code_flow : value q "response_type" ≡ codes "code"
    pub registered : contains client.redirect_uris (value q "redirect_uri") ≡ true
    pub challenged : value q "code_challenge" ≢ []
    pub hashed : value q "code_challenge_method" ≡ codes "S256"

  -- The state with the record for the way back.
  abbrev pub stashed : World S D → Option StoreError × S
  stashed w = srv.store.put_pending w.store (random_hex lib call 0 16) (hop_record lib srv call q)

  request_tests-error :
      (r : Response) → first_answer (request_tests lib srv call q) ≡ some r → IsOauthError r
  unfolding request_tests
  request_tests-error r e =
      first_answer_all IsOauthError (request_tests lib srv call q) r
        ((_, _, _, refl), ((_, _, _, refl), tt)) e

  client_tests-error :
      (c : RegisteredClient) (r : Response)
      → first_answer (client_tests lib srv call q c) ≡ some r
      → IsOauthError r
  unfolding client_tests
  client_tests-error c r e =
      first_answer_all IsOauthError (client_tests lib srv call q c) r
        ((_, _, _, refl), ((_, _, _, refl), ((_, _, _, refl), tt))) e

  tests-MayAuthorize :
      (c : RegisteredClient)
      → first_answer (request_tests lib srv call q) ≡ none
      → first_answer (client_tests lib srv call q c) ≡ none
      → MayAuthorize c
  unfolding request_tests client_tests
  tests-MayAuthorize c h k = record {
    configured = ground (arith, is_empty_iff srv.cognito_domain);
    identified = ground (arith, is_empty_iff srv.cognito_client_id);
    code_flow = ground (arith, eq_iff (value q "response_type") (codes "code"));
    registered = ground arith;
    challenged = ground (arith, is_empty_iff (value q "code_challenge"));
    hashed = ground (arith, eq_iff (value q "code_challenge_method") (codes "S256"));
  }

  request_tests-none :
      (c : RegisteredClient) → MayAuthorize c → first_answer (request_tests lib srv call q) ≡ none
  unfolding request_tests
  request_tests-none c may = ground (
    arith,
    is_empty_iff srv.cognito_domain,
    is_empty_iff srv.cognito_client_id,
    eq_iff (value q "response_type") (codes "code"),
  )

  client_tests-none :
      (c : RegisteredClient) → MayAuthorize c → first_answer (client_tests lib srv call q c) ≡ none
  unfolding client_tests
  client_tests-none c may = ground (
    arith,
    is_empty_iff (value q "code_challenge"),
    eq_iff (value q "code_challenge_method") (codes "S256"),
  )

  -- Everything that /oauth/authorize can do.
  pub data Hop (w : World S D) : Type 0 where
    refused : (r : Response) → IsOauthError r → authorizing lib srv call q w ≡ (err r, w) → Hop w
    unsaved :
        (c : RegisteredClient) (r : Response)
        → srv.store.get_client w.store (value q "client_id") ≡ ok c
        → MayAuthorize c
        → IsOauthError r
        → authorizing lib srv call q w ≡ (err r, record w { store = (stashed w).1 })
        → Hop w
    sent :
        (c : RegisteredClient)
        → srv.store.get_client w.store (value q "client_id") ≡ ok c
        → MayAuthorize c
        → (stashed w).0 ≡ none
        → authorizing lib srv call q w ≡ (
          ok (redirect (cognito_url lib srv call (random_hex lib call 0 16))),
          record w { store = (stashed w).1 },
        )
        → Hop w

  allowed_cases :
      (w : World S D) (c : RegisteredClient)
      → srv.store.get_client w.store (value q "client_id") ≡ ok c
      → first_answer (request_tests lib srv call q) ≡ none
      → first_answer (client_tests lib srv call q c) ≡ none
      → Hop w
  unfolding authorizing
  allowed_cases w c found fine allowed =
      let may = tests-MayAuthorize c fine allowed in
      elim (Option-cases (stashed w).0) [
        | inl kept ↦ sent c found may kept (rw (fine, found, allowed, kept))
        | inr (e, lost) ↦
            unsaved c unsaved_state found may (_, _, _, refl) (rw (fine, found, allowed, lost))
      ]

  pub authorizing_cases : (w : World S D) → Hop w
  unfolding authorizing
  authorizing_cases w = elim (Option-cases (first_answer (request_tests lib srv call q))) [
    | inr (r, failed) ↦ refused r (request_tests-error r failed) (rw failed)
    | inl fine ↦ elim (Result-cases (srv.store.get_client w.store (value q "client_id"))) [
      | inl (e, unknown) ↦ refused unknown_client (_, _, _, refl) (rw (fine, unknown))
      | inr (c, found) ↦ elim (Option-cases (first_answer (client_tests lib srv call q c))) [
        | inr (r, failed) ↦ refused r (client_tests-error c r failed) (rw (fine, found, failed))
        | inl allowed ↦ allowed_cases w c found fine allowed
      ]
    ]
  ]

  -- The browser is sent on exactly if the server is configured, the client is registered and the
  -- redirect URI is one of its own, the request has an S256 challenge, and the record for the way
  -- back is stored; in every other case the answer is an OAuth error as JSON.
  pub authorize_redirects_iff :
      (w : World S D)
      → (((url : Text) × ((authorize lib srv call q w).0 ≡ redirect url)) ↔ (
          (c : RegisteredClient) × (srv.store.get_client w.store (value q "client_id") ≡ ok c)
          × MayAuthorize c
          × ((stashed w).0 ≡ none)))
        × (((authorize lib srv call q w).0
              ≡ redirect (cognito_url lib srv call (random_hex lib call 0 16)))
            ⊎ IsOauthError (authorize lib srv call q w).0)
  unfolding authorize authorizing
  authorize_redirects_iff w = (
    (
      λ g. elim (authorizing_cases w) [
        | refused r (_, _, _, is_error) h ↦ ground arith
        | unsaved c r found may (_, _, _, is_error) h ↦ ground arith
        | sent c found may kept h ↦ (c, found, may, kept)
      ],
      λ (c, found, may, kept). (
        cognito_url lib srv call (random_hex lib call 0 16),
        rw (request_tests-none c may, found, client_tests-none c may, kept),
      ),
    ),
    elim (authorizing_cases w) [
      | refused r is_error h ↦ inr (rw h is_error)
      | unsaved c r _ _ is_error h ↦ inr (rw h is_error)
      | sent c _ _ _ h ↦ inl (rw h refl)
    ],
  )
