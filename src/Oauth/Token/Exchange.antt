-- ===== src/Oauth/Token/Exchange.antt =====
-- When the code exchange issues a token, and what it changes.
use buildpulse_mcp.Common.{
  Bool-cases, subst, String, refl, err, Option-cases, is_empty, Option, none, some, ◌↔◌, ◌≤◌, ◌≡◌,
  ◌≢◌, ◌⊎◌, inl, inr, Text, eq_iff, is_empty_iff, Map, [], ok, Result-cases, Result, arith,
}
use buildpulse_mcp.Library.{Library}
use buildpulse_mcp.Oauth.Model.{AuthorizationCode, access_token_ttl}
use buildpulse_mcp.Oauth.Sessions.{persist_mcp_session}
use buildpulse_mcp.Oauth.Store.{StoreError}
use buildpulse_mcp.Oauth.Pkce.{verify_pkce_iff}
use buildpulse_mcp.Oauth.Server.{
  OauthServer, World, Call, TokenResponse, issued, value, response, Response, first_answer,
  first_answer_all,
}
use buildpulse_mcp.Oauth.Token.{
  access_token, next_refresh, first_refresh, grant_code, invalid_grant, code_tests, exchanging,
  token_authorization_code,
}

-- An answer with invalid_grant.
abbrev pub IsGrantError : Response → Type 0
IsGrantError r = (why : String) × (r ≡ invalid_grant why)

module _ {S D : Type 0} (lib : Library) (srv : OauthServer S D) (call : Call)
    (form : Map Text) where
  -- The form redeems the code: it is not expired, it was issued to the client that presents it, for
  -- the redirect URI of the form if that has one, and the verifier matches its challenge.
  pub record Redeems (auth : AuthorizationCode) : Type 0 where
    pub in_time : call.now ≤ auth.expires
    pub same_client : auth.client_id ≡ value form "client_id"
    pub same_uri :
        (value form "redirect_uri" ≡ []) ⊎ (value form "redirect_uri" ≡ auth.redirect_uri)
    pub has_verifier : value form "code_verifier" ≢ []
    pub verified :
        lib.base64_raw_url (lib.sha256 (value form "code_verifier")) ≡ auth.code_challenge

  -- No test holds exactly if the form redeems the code.
  code_tests-none :
      (auth : AuthorizationCode)
      → Redeems auth
      → first_answer (code_tests lib srv call form auth) ≡ none
  unfolding code_tests
  code_tests-none auth red = ground (
    arith,
    is_empty_iff (value form "redirect_uri"),
    is_empty_iff (value form "code_verifier"),
    eq_iff auth.client_id (value form "client_id"),
    eq_iff (value form "redirect_uri") auth.redirect_uri,
    verify_pkce_iff lib (value form "code_verifier") auth.code_challenge,
  )

  code_tests-Redeems :
      (auth : AuthorizationCode)
      → first_answer (code_tests lib srv call form auth) ≡ none
      → Redeems auth
  unfolding code_tests
  code_tests-Redeems auth h = record {
    in_time = ground arith;
    same_client = ground (arith, eq_iff auth.client_id (value form "client_id"));
    same_uri = ground (
      arith,
      is_empty_iff (value form "redirect_uri"),
      eq_iff (value form "redirect_uri") auth.redirect_uri,
    );
    has_verifier = ground (arith, is_empty_iff (value form "code_verifier"));
    verified =
        (verify_pkce_iff lib (value form "code_verifier") auth.code_challenge).0 (ground arith);
  }

  code_tests-grant :
      (auth : AuthorizationCode) (r : Response)
      → first_answer (code_tests lib srv call form auth) ≡ some r
      → IsGrantError r
  unfolding code_tests
  code_tests-grant auth r e =
      first_answer_all IsGrantError (code_tests lib srv call form auth) r
        ((_, refl), ((_, refl), ((_, refl), ((_, refl), ((_, refl), tt))))) e

  -- The JSON of the answer.
  abbrev token_json : AuthorizationCode → Option Text → TokenResponse
  token_json auth refresh = record {
    access_token = access_token lib srv call;
    expires_in = 3600;
    scope = auth.scope;
    refresh_token = refresh;
  }

  pub grant_issues :
      (auth : AuthorizationCode) (w : World S D)
      → (r : TokenResponse) × (response (grant_code lib srv call auth w).0 ≡ issued r)
  unfolding grant_code
  grant_issues auth w = elim (Bool-cases (is_empty auth.cognito_refresh_enc)) [
    | inl bare ↦ (token_json auth none, ground arith)
    | inr full ↦
        elim (Option-cases (srv.store.put_refresh w.store (first_refresh lib srv call auth)).0) [
          | inl kept ↦ (token_json auth (some (next_refresh lib srv call)), ground arith)
          | inr (e, lost) ↦ (token_json auth none, ground arith)
        ]
  ]

  -- The state in which the code is granted: it is popped, and the session is written.
  abbrev pub granting : World S D → AuthorizationCode → World S D
  granting w auth = record w {
    store = (srv.store.pop_code w.store (value form "code")).1;
    sessions =
        (persist_mcp_session lib srv.database w.sessions (access_token lib srv call)
          auth.user_subject auth.user_email auth.organization_ids call.later access_token_ttl).1;
  }

  abbrev pub popped_by : World S D → Result StoreError AuthorizationCode × S
  popped_by w = srv.store.pop_code w.store (value form "code")

  -- The code is popped; with nothing else changed, the exchange is refused with invalid_grant.
  abbrev pub Refused : World S D → Type 0
  Refused w =
      (why : String) × (exchanging lib srv call form w
        ≡ (err (invalid_grant why), record w { store = (popped_by w).1 }))

  -- Everything that a code exchange can do.
  pub exchanging_cases :
      (w : World S D)
      → (((e : StoreError) × ((popped_by w).0 ≡ err e)) × Refused w)
        ⊎ ((auth : AuthorizationCode) × ((popped_by w).0 ≡ ok auth)
            × (((¬ Redeems auth) × Refused w)
                ⊎ (Redeems auth
                    × (exchanging lib srv call form w
                        ≡ grant_code lib srv call auth (granting w auth)))))
  unfolding exchanging
  exchanging_cases w = elim (Result-cases (popped_by w).0) [
    | inl (e, missing) ↦
        inl ((e, missing), ("code is unknown or has already been used", ground arith))
    | inr (auth, popped) ↦ inr (
      auth,
      popped,
      elim (Option-cases (first_answer (code_tests lib srv call form auth))) [
        | inl passed ↦ inr (code_tests-Redeems auth passed, rw (popped, passed))
        | inr (r, failed) ↦
            let (why, is_grant) = code_tests-grant auth r failed in
            inl (λ red. cc (code_tests-none auth red), (why, ground arith))
      ],
    )
  ]

  -- The exchange issues a token exactly if the code is popped and the form redeems it: it is not
  -- expired, it was issued to this client, for the redirect URI of the form if that has one, and the
  -- verifier is not empty and hashes to the challenge of /authorize.
  pub exchange_issues_iff :
      (w : World S D)
      → ((r : TokenResponse) × ((token_authorization_code lib srv call form w).0 ≡ issued r))
        ↔ ((auth : AuthorizationCode) × ((popped_by w).0 ≡ ok auth) × Redeems auth)
  unfolding token_authorization_code
  exchange_issues_iff w = elim (exchanging_cases w) [
    | inl ((e, missing), (why, refused)) ↦ (λ h. ground arith, λ h. cc (missing, h.1))
    | inr (auth, popped, inl (fails, (why, refused))) ↦
        (λ h. ground arith, λ h. absurd (fails (subst Redeems (cc) h.2)))
    | inr (auth, popped, inr (red, granted)) ↦
        (λ h. (auth, popped, red), λ h. rw granted (grant_issues auth (granting w auth)))
  ]
