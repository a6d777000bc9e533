-- ===== src/Oauth/Token/Refresh.antt =====
-- When a refresh issues a token, and what it does otherwise.
use buildpulse_mcp.Common.{
  ◌≤◌, ◌≡◌, ◌≢◌, ◌⊎◌, ◌↔◌, refl, inl, inr, Text, eq_iff, is_empty, is_empty_iff, Map, [], false,
  none, some, Option-cases, Bool-cases, Result, ok, err, Result-cases, arith,
}
use buildpulse_mcp.Library.{Library, Claims}
use buildpulse_mcp.Oauth.Model.{RefreshToken}
use buildpulse_mcp.Oauth.Store.{StoreError}
use buildpulse_mcp.Oauth.Sessions.{hash_token_b64}
use buildpulse_mcp.Oauth.Cognito.{refresh_cognito}
use buildpulse_mcp.Oauth.Server.{
  OauthServer, World, Call, TokenResponse, Response, oauth_error, issued, literal, value,
  first_answer, first_answer_all,
}
use buildpulse_mcp.Oauth.Token.{access_token, refresh_tests, renew, refreshing, token_refresh}
use buildpulse_mcp.Oauth.Token.Exchange.{IsGrantError}

module _ {S D : Type 0} (lib : Library) (srv : OauthServer S D) (call : Call)
    (form : Map Text) where
  -- The popped token is still valid, the client is the one it was issued to, and Cognito accepts the
  -- upstream token behind it.
  pub record Revives (rt : RefreshToken) (claims : Claims) : Type 0 where
    pub in_time : call.now ≤ rt.expires
    pub same_client : (value form "client_id" ≡ []) ⊎ (rt.client_id ≡ value form "client_id")
    pub upstream : Text
    pub decrypted : srv.crypter.decrypt rt.cognito_refresh_enc ≡ some upstream
    pub accepted : refresh_cognito lib srv call upstream ≡ ok claims

  refresh_tests-none :
      (rt : RefreshToken) (claims : Claims)
      → Revives rt claims
      → first_answer (refresh_tests lib srv call form rt) ≡ none
  unfolding refresh_tests
  refresh_tests-none rt claims rev =
      ground
        (arith, is_empty_iff (value form "client_id"), eq_iff rt.client_id (value form "client_id"))

  valid_of_none :
      (rt : RefreshToken)
      → first_answer (refresh_tests lib srv call form rt) ≡ none
      → (call.now ≤ rt.expires)
        × ((value form "client_id" ≡ []) ⊎ (rt.client_id ≡ value form "client_id"))
  unfolding refresh_tests
  valid_of_none rt h = (
    ground arith,
    ground (
      arith,
      is_empty_iff (value form "client_id"),
      eq_iff rt.client_id (value form "client_id"),
    ),
  )

  refresh_tests-grant :
      (rt : RefreshToken) (r : Response)
      → first_answer (refresh_tests lib srv call form rt) ≡ some r
      → IsGrantError r
  unfolding refresh_tests
  refresh_tests-grant rt r e =
      first_answer_all IsGrantError (refresh_tests lib srv call form rt) r
        ((_, refl), ((_, refl), tt)) e

  abbrev pub taken_by : World S D → Result StoreError RefreshToken × S
  taken_by w = srv.store.pop_refresh w.store (hash_token_b64 lib (value form "refresh_token"))

  abbrev pub after_pop : World S D → World S D
  after_pop w = record w { store = (taken_by w).1 }

  -- The answer is an error with status 400, and at most the pop happened.
  pub data Rejected (w : World S D) : Type 0 where
    missing :
        value form "refresh_token" ≡ []
        → refreshing lib srv call form w
          ≡ (err (oauth_error 400 "invalid_request" (literal "refresh_token is required")), w)
        → Rejected w
    refused :
        (why : Response)
        → IsGrantError why
        → refreshing lib srv call form w ≡ (err why, after_pop w)
        → Rejected w

  -- Everything that a refresh can do.
  abbrev pub Accepted : World S D → RefreshToken → Claims → Type 0
  Accepted w rt claims =
      (value form "refresh_token" ≢ [])
      × ((taken_by w).0 ≡ ok rt)
      × Revives rt claims
      × (refreshing lib srv call form w ≡ renew lib srv call rt claims (after_pop w))

  -- What happens to a token that was popped and is valid.
  valid_cases :
      (w : World S D) (rt : RefreshToken)
      → is_empty (value form "refresh_token") ≡ false
      → (taken_by w).0 ≡ ok rt
      → first_answer (refresh_tests lib srv call form rt) ≡ none
      → Rejected w ⊎ ((claims : Claims) × Accepted w rt claims)
  unfolding refreshing
  valid_cases w rt given taken valid =
      elim (Option-cases (srv.crypter.decrypt rt.cognito_refresh_enc)) [
        | inl failed ↦ inl (
            refused _ ("could not refresh session; re-authenticate", refl)
              (rw (given, taken, valid, failed)))
        | inr (plain, decrypted) ↦ elim (Result-cases (refresh_cognito lib srv call plain)) [
          | inl (e, rejected) ↦ inl (
              refused _ ("session is no longer valid; re-authenticate", refl)
                (rw (given, taken, valid, decrypted, rejected)))
          | inr (claims, accepted) ↦
              let (in_time, same_client) = valid_of_none rt valid in
              inr (
                claims,
                (
                  ground (arith, is_empty_iff (value form "refresh_token")),
                  taken,
                  record {
                    in_time = in_time;
                    same_client = same_client;
                    upstream = plain;
                    decrypted = decrypted;
                    accepted = accepted;
                  },
                  rw (given, taken, valid, decrypted, accepted),
                ),
              )
        ]
      ]

  pub refreshing_cases :
      (w : World S D)
      → Rejected w ⊎ ((rt : RefreshToken) × (claims : Claims) × Accepted w rt claims)
  unfolding refreshing
  refreshing_cases w = elim (Bool-cases (is_empty (value form "refresh_token"))) [
    | inl bare ↦ inl (missing ((is_empty_iff (value form "refresh_token")).0 bare) (rw bare))
    | inr given ↦ elim (Result-cases (taken_by w).0) [
      | inl (e, unknown) ↦ inl (
          refused _ ("refresh_token is unknown, already used, or expired", refl)
            (rw (given, unknown)))
      | inr (rt, taken) ↦ elim (Option-cases (first_answer (refresh_tests lib srv call form rt))) [
        | inr (r, failed) ↦
            inl (refused r (refresh_tests-grant rt r failed) (rw (given, taken, failed)))
        | inl valid ↦ elim (valid_cases w rt given taken valid) [
          | inl rejected ↦ inl rejected
          | inr (claims, accepted) ↦ inr (rt, claims, accepted)
        ]
      ]
    ]
  ]

  renew_issues :
      (rt : RefreshToken) (claims : Claims) (w : World S D)
      → (r : TokenResponse) × ((renew lib srv call rt claims w).0 ≡ ok (issued r))
        × (r.access_token ≡ access_token lib srv call)
        × (r.scope ≡ rt.scope)
  unfolding renew
  renew_issues rt claims w = (_, refl, refl, refl)

  refreshing-renew :
      (w : World S D) (rt : RefreshToken) (claims : Claims)
      → value form "refresh_token" ≢ []
      → (taken_by w).0 ≡ ok rt
      → Revives rt claims
      → refreshing lib srv call form w ≡ renew lib srv call rt claims (after_pop w)
  unfolding refreshing
  refreshing-renew w rt claims given taken rev =
      let has_token : is_empty (value form "refresh_token") ≡ false =
        ground (arith, is_empty_iff (value form "refresh_token")) in
      rw (has_token, taken, refresh_tests-none rt claims rev, rev.decrypted, rev.accepted)

  -- A refresh issues a token exactly if the form has one, it is popped, it is not expired, the
  -- client of the form, if it names one, is the one that it was issued to, the upstream token behind
  -- it decrypts, and Cognito accepts that.
  pub refresh_issues_iff :
      (w : World S D)
      → ((r : TokenResponse) × ((token_refresh lib srv call form w).0 ≡ issued r)) ↔ (
          (value form "refresh_token" ≢ [])
          × ((rt : RefreshToken) × (claims : Claims) × ((taken_by w).0 ≡ ok rt)
              × Revives rt claims))
  unfolding token_refresh
  refresh_issues_iff w = (
    λ g. elim (refreshing_cases w) [
      | inl (missing bare h) ↦ ground arith
      | inl (refused why is_grant h) ↦ ground arith
      | inr (rt, claims, (given, taken, revives, h)) ↦ (given, (rt, claims, taken, revives))
    ],
    λ (given, (rt, claims, taken, revives)).
        let (r, issues, _, _) = renew_issues rt claims (after_pop w) in
        (r, rw (refreshing-renew w rt claims given taken revives, issues)),
  )
