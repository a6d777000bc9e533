-- ===== src/Oauth/Token.antt =====
-- POST /oauth/token, cmd/mcp-remote/oauth.go: both grants.

pub mod Exchange
pub mod Refresh
pub mod Rotation
pub mod Steps
use buildpulse_mcp.Common.{
  ◌+◌, ◌/◌, Text, codes, ◌==◌, is_empty, Map, ltb, not, ◌&&◌, String, Option, none, some, Bool,
  List, [], ◌∷◌, Result, ok, err, if◌then◌else◌,
}
use buildpulse_mcp.Library.{Library, Claims}
use buildpulse_mcp.Oauth.Model.{
  AuthorizationCode, RefreshToken, second, access_token_ttl, refresh_token_ttl,
}
use buildpulse_mcp.Oauth.Store.{StoreError}
use buildpulse_mcp.Oauth.Sessions.{
  SessionError, hash_token_b64, resolve_user_orgs, persist_mcp_session,
}
use buildpulse_mcp.Oauth.Pkce.{verify_pkce}
use buildpulse_mcp.Oauth.Cognito.{refresh_cognito}
use buildpulse_mcp.Oauth.Server.{
  OauthServer, World, Call, CognitoError, Response, oauth_error, issued, literal, value, random_hex,
  Handler, pure, answer, answer_if, answer_first, popped, serve, ◌>>=◌, ◌>>◌,
}

-- A 400 with the code invalid_grant.
abbrev pub invalid_grant : String → Response
invalid_grant description = oauth_error 400 "invalid_grant" (literal description)

module _ {S D : Type 0} (lib : Library) (srv : OauthServer S D) (call : Call) where
  -- The access token is the first random text of the request, the refresh token the second.
  abbrev pub access_token : Text
  access_token = random_hex lib call 0 20

  abbrev pub next_refresh : Text
  next_refresh = random_hex lib call 1 32

  -- An error is only logged.
  unfoldable persist : Text → Text → List Text → Handler S D (Unit {0})
  persist sub email orgs w =
      let r =
        persist_mcp_session lib srv.database w.sessions access_token sub email orgs call.later
          access_token_ttl in
      (ok tt, record w { sessions = r.1 })

  token_response : Text → Option Text → Response
  token_response scope refresh = issued (record {
    access_token = access_token;
    expires_in = access_token_ttl / second;
    scope = scope;
    refresh_token = refresh;
  })

  -- The refresh token is in the response if it was stored.
  offered : Option StoreError → Option Text
  offered none = some next_refresh
  offered (some e) = none

  offer : Text → RefreshToken → Handler S D Response
  unfolding offered token_response
  offer scope rt w =
      let (error, s) = srv.store.put_refresh w.store rt in
      (ok (token_response scope (offered error)), record w { store = s })

  -- The refresh token that a code exchange issues.
  unfoldable pub first_refresh : AuthorizationCode → RefreshToken
  first_refresh auth = record {
    hashed_token = hash_token_b64 lib next_refresh;
    client_id = auth.client_id;
    scope = auth.scope;
    user_subject = auth.user_subject;
    user_email = auth.user_email;
    organization_ids = auth.organization_ids;
    cognito_refresh_enc = auth.cognito_refresh_enc;
    expires = call.later + refresh_token_ttl;
  }

  unfoldable pop_code : Text → Handler S D AuthorizationCode
  pop_code code w =
      popped (invalid_grant "code is unknown or has already been used") w
        (srv.store.pop_code w.store code)

  unfoldable pub grant_code : AuthorizationCode → Handler S D Response
  unfolding offer token_response
  grant_code auth =
      if is_empty auth.cognito_refresh_enc
      then pure (token_response auth.scope none)
      else offer auth.scope (first_refresh auth)

  -- The tests of a code that was popped, in their order.
  unfoldable pub code_tests : Map Text → AuthorizationCode → List (Bool × Response)
  code_tests form auth =
      (ltb auth.expires call.now, invalid_grant "code has expired (60s TTL)")
      ∷ (
        not (auth.client_id == value form "client_id"),
        invalid_grant "code was issued to a different client",
      )
      ∷ (
        not (is_empty (value form "redirect_uri"))
            && not (value form "redirect_uri" == auth.redirect_uri),
        invalid_grant "redirect_uri must match the one used in /authorize",
      )
      ∷ (is_empty (value form "code_verifier"), invalid_grant "code_verifier is required (PKCE)")
      ∷ (
        not (verify_pkce lib (value form "code_verifier") auth.code_challenge),
        invalid_grant "PKCE verification failed",
      )
      ∷ []

  pub exchanging : Map Text → Handler S D Response
  unfolding persist pop_code
  exchanging form = do
    auth ← pop_code (value form "code")
    answer_first (code_tests form auth)
    persist auth.user_subject auth.user_email auth.organization_ids
    grant_code auth

  unfoldable pub token_authorization_code : Map Text → World S D → Response × World S D
  unfolding exchanging
  token_authorization_code form = serve (exchanging form)

  pop_refresh : Text → Handler S D RefreshToken
  pop_refresh hashed w =
      popped (invalid_grant "refresh_token is unknown, already used, or expired") w
        (srv.store.pop_refresh w.store hashed)

  decrypted : Option Text → Handler S D Text
  decrypted none = answer (invalid_grant "could not refresh session; re-authenticate")
  decrypted (some plaintext) = pure plaintext

  reauthenticated : Result CognitoError Claims → Handler S D Claims
  reauthenticated (err e) = answer (invalid_grant "session is no longer valid; re-authenticate")
  reauthenticated (ok claims) = pure claims

  abbrev or_last : Text → Text → Text
  or_last t last = if is_empty t then last else t

  -- An error of the lookup keeps the last known organizations.
  orgs_or_last : Result SessionError (List Text) → List Text → List Text
  orgs_or_last (ok ids) last = ids
  orgs_or_last (err e) last = last

  unfoldable pub refreshed_orgs : World S D → RefreshToken → Claims → List Text
  unfolding orgs_or_last
  refreshed_orgs w rt claims =
      orgs_or_last
        (resolve_user_orgs srv.database w.sessions (or_last claims.sub rt.user_subject)
          (or_last claims.email rt.user_email))
        rt.organization_ids

  -- The token that replaces `rt`.
  unfoldable pub rotated : World S D → RefreshToken → Claims → RefreshToken
  rotated w rt claims = record {
    hashed_token = hash_token_b64 lib next_refresh;
    client_id = rt.client_id;
    scope = rt.scope;
    user_subject = or_last claims.sub rt.user_subject;
    user_email = or_last claims.email rt.user_email;
    organization_ids = refreshed_orgs w rt claims;
    cognito_refresh_enc = rt.cognito_refresh_enc;
    expires = rt.expires;
  }

  unfoldable pub renew : RefreshToken → Claims → Handler S D Response
  unfolding persist offer
  renew rt claims w =
      let rt' = rotated w rt claims in
      (persist rt'.user_subject rt'.user_email rt'.organization_ids >> offer rt.scope rt') w

  -- The tests of a refresh token that was popped, in their order.
  unfoldable pub refresh_tests : Map Text → RefreshToken → List (Bool × Response)
  refresh_tests form rt =
      (ltb rt.expires call.now, invalid_grant "refresh_token has expired; re-authenticate")
      ∷ (
        not (is_empty (value form "client_id")) && not (rt.client_id == value form "client_id"),
        invalid_grant "refresh_token was issued to a different client",
      )
      ∷ []

  pub refreshing : Map Text → Handler S D Response
  unfolding pop_refresh decrypted reauthenticated
  refreshing form = do
    answer_if (is_empty (value form "refresh_token"))
        (oauth_error 400 "invalid_request" (literal "refresh_token is required"))
    rt ← pop_refresh (hash_token_b64 lib (value form "refresh_token"))
    answer_first (refresh_tests form rt)
    cognito_refresh ← decrypted (srv.crypter.decrypt rt.cognito_refresh_enc)
    claims ← reauthenticated (refresh_cognito lib srv call cognito_refresh)
    renew rt claims

  unfoldable pub token_refresh : Map Text → World S D → Response × World S D
  unfolding refreshing
  token_refresh form = serve (refreshing form)

  -- `form` is `none` if the body does not parse.
  unfoldable pub token : Option (Map Text) → World S D → Response × World S D
  token none w = (oauth_error 400 "invalid_request" (literal "could not parse form body"), w)
  token (some form) w =
      if value form "grant_type" == codes "authorization_code"
      then token_authorization_code form w
      else if value form "grant_type" == codes "refresh_token"
      then token_refresh form w
      else (
        oauth_error 400 "unsupported_grant_type"
            (literal "only 'authorization_code' and 'refresh_token' are supported"),
        w,
      )
