-- ===== src/Oauth/Token/Steps.antt =====
-- A code exchange (tokenAuthorizationCode in cmd/mcp-remote/oauth.go) cut at its calls of the store and
-- of DocumentDB, between which the server may serve other requests.
use buildpulse_mcp.Common.{
  ◌≡◌, refl, inl, inr, Text, Map, Option-cases, Result, ok, err, Result-cases,
}
use buildpulse_mcp.Library.{Library}
use buildpulse_mcp.Oauth.Model.{AuthorizationCode}
use buildpulse_mcp.Oauth.Server.{
  OauthServer, World, Call, Response, value, response, first_answer, answer_first, ◌>>◌,
}
use buildpulse_mcp.Oauth.Token.{
  persist, pop_code, code_tests, grant_code, exchanging, token_authorization_code,
}

-- Before PopCode, before the tests and the session, before PutRefreshToken, and at the end.
pub data Stage : Type 0 where
  arrived : Stage
  holding tested : AuthorizationCode → Stage
  replied : Response → Stage

-- One request, with what it takes from outside.
pub record Exchange : Type 0 where
  pub call : Call
  pub form : Map Text
  pub stage : Stage

module _ {S D : Type 0} (lib : Library) (srv : OauthServer S D) where
  abbrev after_pop : Result Response AuthorizationCode → Stage
  after_pop (ok auth) = holding auth
  after_pop (err r) = replied r

  abbrev after_tests : AuthorizationCode → Result Response (Unit {0}) → Stage
  after_tests auth (ok u) = tested auth
  after_tests auth (err r) = replied r

  -- What the request does at this stage, in one piece.
  unfoldable pub advance : Call → Map Text → Stage → World S D → Stage × World S D
  unfolding pop_code persist
  advance call form arrived w =
      let r = pop_code lib srv call (value form "code") w in (after_pop r.0, r.1)
  advance call form (holding auth) w =
      let r =
        (answer_first (code_tests lib srv call form auth)
            >> persist lib srv call auth.user_subject auth.user_email auth.organization_ids)
          w in
      (after_tests auth r.0, r.1)
  advance call form (tested auth) w =
      let r = grant_code lib srv call auth w in (replied (response r.0), r.1)
  advance call form (replied r) w = (replied r, w)

  -- Three pieces in a row.
  unfoldable alone : Call → Map Text → World S D → Stage × World S D
  alone call form w =
      let a = advance call form arrived w in
      let b = advance call form a.0 a.1 in advance call form b.0 b.1

  -- An exchange that nothing interrupts ends after its three pieces, with the answer and the state of
  -- the handler.
  alone-token_authorization_code :
      (call : Call) (form : Map Text) (w : World S D)
      → alone call form w ≡ (
        replied (token_authorization_code lib srv call form w).0,
        (token_authorization_code lib srv call form w).1,
      )
  unfolding alone advance token_authorization_code exchanging pop_code persist
  alone-token_authorization_code call form w =
      elim (Result-cases (srv.store.pop_code w.store (value form "code")).0) [
        | inl (e, missing) ↦ rw missing refl
        | inr (auth, taken) ↦
            elim (Option-cases (first_answer (code_tests lib srv call form auth))) [
              | inl passed ↦ rw (taken, passed) refl
              | inr (r, failed) ↦ rw (taken, failed) refl
            ]
      ]
