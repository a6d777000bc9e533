-- ===== src/Oauth/Authorize.antt =====
-- GET /oauth/authorize, cmd/mcp-remote/oauth.go.
pub mod Hop
use buildpulse_mcp.Common.{
  ◌+◌, ◌*◌, Text, codes, ◌==◌, is_empty, contains, Map, not, ◌||◌, Bool, List, [], ◌∷◌, ◌++◌,
  if◌then◌else◌,
}
use buildpulse_mcp.Library.{Library}
use buildpulse_mcp.Oauth.Model.{
  RegisteredClient, PendingAuth, minute, default_scope, default_redirect_path,
}
use buildpulse_mcp.Oauth.Server.{
  OauthServer, World, Call, Response, oauth_error, redirect, literal, value, random_hex, Handler,
  pure, answer_first, or_answer, stored, serve, ◌>>=◌, ◌>>◌,
}

abbrev pub unknown_client : Response
unknown_client =
    oauth_error 400 "invalid_client"
      (literal "unknown client_id; register via /oauth/register first")

abbrev pub unsaved_state : Response
unsaved_state = oauth_error 500 "server_error" (literal "failed to persist authorization state")

module _ {S D : Type 0} (lib : Library) (srv : OauthServer S D) (call : Call) where
  get_client : Text → Handler S D RegisteredClient
  get_client client_id w = or_answer unknown_client w (srv.store.get_client w.store client_id)

  put_pending : Text → PendingAuth → Handler S D (Unit {0})
  put_pending state p w = stored unsaved_state w (srv.store.put_pending w.store state p)

  -- The record that /authorize stashes for the Cognito hop; the fields of the consent stage are
  -- empty.
  unfoldable pub hop_record : Map Text → PendingAuth
  hop_record q = record {
    client_id = value q "client_id";
    redirect_uri = value q "redirect_uri";
    code_challenge = value q "code_challenge";
    original_state = value q "state";
    scope = (let scope = value q "scope" in if is_empty scope then default_scope else scope);
    expires = call.now + 15 * minute;
    client_name = [];
    user_subject = [];
    user_email = [];
    organization_ids = [];
    cognito_refresh_enc = [];
  }

  unfoldable pub cognito_url : Text → Text
  cognito_url state =
      srv.cognito_domain
      ++ (codes "/oauth2/authorize?"
          ++ lib.encode_values (
              (codes "response_type", codes "code")
              ∷ (codes "client_id", srv.cognito_client_id)
              ∷ (codes "redirect_uri", srv.issuer ++ default_redirect_path)
              ∷ (codes "scope", codes "openid email profile")
              ∷ (codes "state", state)
              ∷ []))

  -- The tests before the client is looked up.
  unfoldable pub request_tests : Map Text → List (Bool × Response)
  request_tests q =
      (
        is_empty srv.cognito_domain || is_empty srv.cognito_client_id,
        oauth_error 501 "server_misconfigured" (
            literal
              "OAuth is not configured (COGNITO_DOMAIN / COGNITO_CLIENT_ID env vars). Use Bearer-token auth instead — see https://platform.buildpulse.io/docs/mcp"),
      )
      ∷ (
        not (value q "response_type" == codes "code"),
        oauth_error 400 "unsupported_response_type" (literal "only 'code' is supported"),
      )
      ∷ []

  -- The tests with the client.
  unfoldable pub client_tests : Map Text → RegisteredClient → List (Bool × Response)
  client_tests q client =
      (
        not (contains client.redirect_uris (value q "redirect_uri")),
        oauth_error 400 "invalid_redirect_uri" (literal "redirect_uri was not registered"),
      )
      ∷ (
        is_empty (value q "code_challenge"),
        oauth_error 400 "invalid_request" (literal "code_challenge is required (PKCE)"),
      )
      ∷ (
        not (value q "code_challenge_method" == codes "S256"),
        oauth_error 400 "invalid_request" (literal "code_challenge_method must be 'S256'"),
      )
      ∷ []

  pub authorizing : Map Text → Handler S D Response
  unfolding get_client put_pending
  authorizing q = do
    answer_first (request_tests q)
    client ← get_client (value q "client_id")
    answer_first (client_tests q client)
    put_pending (random_hex lib call 0 16) (hop_record q)
    pure (redirect (cognito_url (random_hex lib call 0 16)))

  -- `q` is the query of the URL.
  unfoldable pub authorize : Map Text → World S D → Response × World S D
  unfolding authorizing
  authorize q = serve (authorizing q)
