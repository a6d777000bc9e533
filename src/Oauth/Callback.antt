-- ===== src/Oauth/Callback.antt =====
-- GET /oauth/callback, cmd/mcp-remote/oauth.go, with stashConsent of consent.go.
pub mod Stage
use buildpulse_mcp.Common.{
  ◌+◌, ◌*◌, Text, codes, is_empty, Map, ltb, none, some, ◌||◌, List, [], ◌++◌, Result, ok, err,
  if◌then◌else◌,
}
use buildpulse_mcp.Library.{Library, Claims}
use buildpulse_mcp.Oauth.Model.{RegisteredClient, PendingAuth, minute}
use buildpulse_mcp.Oauth.Store.{StoreError}
use buildpulse_mcp.Oauth.Sessions.{SessionError, resolve_user_orgs}
use buildpulse_mcp.Oauth.Cognito.{exchange_cognito_code}
use buildpulse_mcp.Oauth.Destination.{classify_destination}
use buildpulse_mcp.Oauth.Server.{
  OauthServer, World, Call, CognitoError, Response, oauth_error, consent_page, literal, upstream,
  value, random_hex, Handler, pure, answer, answer_if, popped, stored, serve, ◌>>=◌, ◌>>◌,
}

abbrev pub consent_prefix : Text
consent_prefix = codes "consent:"

abbrev pub missing_code_or_state : Response
missing_code_or_state = oauth_error 400 "invalid_request" (literal "missing code or state")

abbrev pub unknown_state : Response
unknown_state =
    oauth_error 400 "invalid_request" (literal "no pending authorization for this state")

abbrev pub expired_request : Response
expired_request =
    oauth_error 400 "invalid_request"
      (literal "authorization request has expired; restart from /authorize")

abbrev pub failed_exchange : CognitoError → Response
failed_exchange e =
    oauth_error 502 "upstream_error" (upstream "failed to exchange Cognito code: " e)

abbrev pub unsaved_state : Response
unsaved_state = oauth_error 500 "server_error" (literal "failed to persist authorization state")

module _ {S D : Type 0} (lib : Library) (srv : OauthServer S D) (call : Call) where
  pop_pending : Text → Handler S D PendingAuth
  pop_pending state w = popped unknown_state w (srv.store.pop_pending w.store state)

  exchanged : Result CognitoError (Claims × Text) → Handler S D (Claims × Text)
  exchanged (ok r) = pure r
  exchanged (err e) = answer (failed_exchange e)

  -- The ciphertext of the refresh token; empty if there is none or it could not be encrypted.
  protect : Text → Text
  protect cognito_refresh =
      if is_empty cognito_refresh
      then []
      else elim (srv.crypter.encrypt cognito_refresh) [ none ↦ [] | some enc ↦ enc ]

  -- An error leaves no organization.
  orgs_or_none : Result SessionError (List Text) → List Text
  orgs_or_none (ok ids) = ids
  orgs_or_none (err e) = []

  -- The name that the consent page shows.
  shown_name : Text → Result StoreError RegisteredClient → Text
  shown_name client_id (ok c) = if is_empty c.client_name then client_id else c.client_name
  shown_name client_id (err e) = client_id

  -- The pending record with the authenticated user, and the deadline for the decision.
  unfoldable pub consent_record : World S D → PendingAuth → Claims → Text → PendingAuth
  unfolding protect orgs_or_none shown_name
  consent_record w p claims cognito_refresh = record p {
    client_name = shown_name p.client_id (srv.store.get_client w.store p.client_id);
    user_subject = claims.sub;
    user_email = claims.email;
    organization_ids =
        orgs_or_none (resolve_user_orgs srv.database w.sessions claims.sub claims.email);
    cognito_refresh_enc = protect cognito_refresh;
    expires = call.later + 15 * minute;
  }

  stash_consent : Text → PendingAuth → Handler S D (Unit {0})
  stash_consent key p w =
      stored unsaved_state w (srv.store.put_pending w.store (consent_prefix ++ key) p)

  pub page : PendingAuth → Text → Response
  page p key =
      let (label, recognised) = classify_destination lib p.redirect_uri in
      consent_page (record {
        client_name = p.client_name;
        redirect_uri = p.redirect_uri;
        user_email = p.user_email;
        consent_key = key;
        recognised = recognised;
        dest_label = label;
      })

  ask : PendingAuth → Claims × Text → Handler S D Response
  unfolding stash_consent page
  ask p (claims, cognito_refresh) w =
      let p' = consent_record w p claims cognito_refresh in
      let key = random_hex lib call 0 32 in (stash_consent key p' >> pure (page p' key)) w

  pub calling_back : Map Text → Handler S D Response
  unfolding pop_pending exchanged ask
  calling_back q = do
    answer_if (is_empty (value q "code") || is_empty (value q "state")) missing_code_or_state
    p ← pop_pending (value q "state")
    answer_if (ltb p.expires call.now) expired_request
    r ← exchanged (exchange_cognito_code lib srv call (value q "code"))
    ask p r

  -- `q` is the query of the URL.
  unfoldable pub callback : Map Text → World S D → Response × World S D
  unfolding calling_back
  callback q = serve (calling_back q)
