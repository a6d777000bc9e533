-- ===== src/Oauth/Cognito.antt =====
-- The calls of Cognito's token endpoint, cmd/mcp-remote/oauth.go.
use buildpulse_mcp.Common.{
  Text, codes, is_empty, split, eqb, Option, none, some, List, [], ◌∷◌, ◌++◌, Result, ok, err,
  if◌then◌else◌,
}
use buildpulse_mcp.Library.{Library, Claims}
use buildpulse_mcp.Oauth.Model.{default_redirect_path}
use buildpulse_mcp.Oauth.Server.{
  OauthServer, Call, CognitoTokenResponse, HttpOutcome, unreachable, answered, CognitoError,
  request_failed, no_id_token, not_a_jwt, bad_payload, bad_claims, no_sub_claim, undecodable,
  status_code,
}

infixl 5 ◌>>=◌
abbrev ◌>>=◌ {ℓ κ} :
    {A : Type ℓ} {B : Type κ}
    → Result CognitoError A
    → (A → Result CognitoError B)
    → Result CognitoError B
ok a >>= f = f a
err e >>= f = err e

-- An absent value is the error `e`.
abbrev or_error : {A : Type 0} → Option A → CognitoError → Result CognitoError A
or_error none e = err e
or_error (some a) e = ok a

-- The answer to the POST; only a status of 200 has its body read.
received : HttpOutcome → Result CognitoError CognitoTokenResponse
received unreachable = err request_failed
received (answered status body) =
    if eqb status 200 then or_error body undecodable else err (status_code status)

module _ (lib : Library) where
  with_sub : Claims → Result CognitoError Claims
  with_sub claims = if is_empty claims.sub then err no_sub_claim else ok claims

  claims_of : List Text → Result CognitoError Claims
  unfolding with_sub
  claims_of (header ∷ middle ∷ signature ∷ []) = do
    payload ← or_error (lib.base64_raw_url_decode middle) bad_payload
    claims ← or_error (lib.unmarshal_claims payload) bad_claims
    with_sub claims
  claims_of _ = err not_a_jwt

  unfoldable pub parse_id_token_claims : Text → Result CognitoError Claims
  unfolding claims_of
  parse_id_token_claims id_token = claims_of (split b'.' id_token)

module _ {S D : Type 0} (lib : Library) (srv : OauthServer S D) where
  -- `form` is the url.Values to send.
  unfoldable pub post_cognito_token :
      Call → List (Text × Text) → Result CognitoError CognitoTokenResponse
  unfolding received
  post_cognito_token call form =
      let auth : Option (Text × Text) =
        if is_empty srv.cognito_secret
        then none
        else some (srv.cognito_client_id, srv.cognito_secret) in
      received
        (call.post (srv.cognito_domain ++ codes "/oauth2/token") auth (lib.encode_values form))

  require_id_token : CognitoTokenResponse → Result CognitoError Claims
  require_id_token body =
      if is_empty body.id_token then err no_id_token else parse_id_token_claims lib body.id_token

  -- The claims, and the refresh token, which may be empty.
  unfoldable pub exchange_cognito_code : Call → Text → Result CognitoError (Claims × Text)
  unfolding require_id_token
  exchange_cognito_code call code = do
    body ← post_cognito_token call (
        (codes "grant_type", codes "authorization_code")
        ∷ (codes "client_id", srv.cognito_client_id)
        ∷ (codes "code", code)
        ∷ (codes "redirect_uri", srv.issuer ++ default_redirect_path)
        ∷ [])
    claims ← require_id_token body
    ok (claims, body.refresh_token)

  unfoldable pub refresh_cognito : Call → Text → Result CognitoError Claims
  unfolding require_id_token
  refresh_cognito call refresh_token = do
    body ← post_cognito_token call (
        (codes "grant_type", codes "refresh_token")
        ∷ (codes "client_id", srv.cognito_client_id)
        ∷ (codes "refresh_token", refresh_token)
        ∷ [])
    require_id_token body
