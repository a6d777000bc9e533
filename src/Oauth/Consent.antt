-- ===== src/Oauth/Consent.antt =====
-- POST /oauth/consent, cmd/mcp-remote/consent.go.
pub mod Decision
use buildpulse_mcp.Common.{
  ◌+◌, Text, codes, ◌==◌, is_empty, contains, Map, ltb, not, Bool, false, Option, none, some, List,
  [], ◌∷◌, ◌++◌, Result, ok, err,
}
use buildpulse_mcp.Library.{Library}
use buildpulse_mcp.Oauth.Model.{RegisteredClient, AuthorizationCode, PendingAuth, auth_code_ttl}
use buildpulse_mcp.Oauth.Store.{StoreError}
use buildpulse_mcp.Oauth.Destination.{append_query}
use buildpulse_mcp.Oauth.Callback.{consent_prefix}
use buildpulse_mcp.Oauth.Server.{
  OauthServer, World, Call, Response, oauth_error, consent_error, redirect, literal, value,
  random_hex, Handler, pure, answer_if, popped, stored, serve, ◌>>=◌, ◌>>◌,
}

abbrev pub unparsed_form : Response
unparsed_form = oauth_error 400 "invalid_request" (literal "could not parse form body")

abbrev pub missing_key : Response
missing_key = oauth_error 400 "invalid_request" (literal "missing consent_key")

abbrev pub already_used : Response
already_used =
    consent_error "This request has already been used"
      "Approvals can only be used once. If the application is still waiting, start the connection again from the app."

abbrev pub expired_decision : Response
expired_decision =
    consent_error "This request has expired"
      "Authorization requests are only valid for a short time. Start the connection again from the application."

abbrev pub no_longer_registered : Response
no_longer_registered =
    oauth_error 400 "invalid_redirect_uri"
      (literal "redirect_uri is no longer registered for this client")

abbrev pub unsaved_code : Response
unsaved_code = oauth_error 500 "server_error" (literal "failed to persist authorization code")

module _ {S D : Type 0} (lib : Library) (srv : OauthServer S D) (call : Call) where
  pop_decision : Text → Handler S D PendingAuth
  pop_decision key w = popped already_used w (srv.store.pop_pending w.store (consent_prefix ++ key))

  -- whether the client exists now, and has the URI
  abbrev pub registered_now : Result StoreError RegisteredClient → Text → Bool
  registered_now (err e) uri = false
  registered_now (ok client) uri = contains client.redirect_uris uri

  check_client : PendingAuth → Handler S D (Unit {0})
  check_client p w =
      answer_if (not (registered_now (srv.store.get_client w.store p.client_id) p.redirect_uri))
        no_longer_registered w

  unfoldable pub granted_code : PendingAuth → AuthorizationCode
  granted_code p = record {
    code = random_hex lib call 0 32;
    client_id = p.client_id;
    redirect_uri = p.redirect_uri;
    code_challenge = p.code_challenge;
    scope = p.scope;
    user_subject = p.user_subject;
    user_email = p.user_email;
    organization_ids = p.organization_ids;
    cognito_refresh_enc = p.cognito_refresh_enc;
    expires = call.later + auth_code_ttl;
  }

  abbrev pub denial_params : PendingAuth → List (Text × Text)
  denial_params p =
      (codes "error", codes "access_denied")
      ∷ (codes "error_description", codes "the user denied the authorization request")
      ∷ (codes "state", p.original_state)
      ∷ []

  unfoldable pub denial : PendingAuth → Response
  denial p = redirect (append_query lib p.redirect_uri (denial_params p))

  abbrev pub approval_params : PendingAuth → List (Text × Text)
  approval_params p =
      (codes "code", random_hex lib call 0 32) ∷ (codes "state", p.original_state) ∷ []

  unfoldable pub approval : PendingAuth → Response
  approval p = redirect (append_query lib p.redirect_uri (approval_params p))

  put_code : AuthorizationCode → Handler S D (Unit {0})
  put_code c w = stored unsaved_code w (srv.store.put_code w.store c)

  unfoldable pub deciding : Option (Map Text) → Handler S D Response
  unfolding pop_decision check_client put_code
  deciding none w = (err unparsed_form, w)
  deciding (some form) w =
      (do
        answer_if (is_empty (value form "consent_key")) missing_key
        p ← pop_decision (value form "consent_key")
        answer_if (ltb p.expires call.now) expired_decision
        check_client p
        answer_if (not (value form "action" == codes "approve")) (denial p)
        put_code (granted_code p)
        pure (approval p))
        w

  -- `form` is `none` if the body does not parse.
  unfoldable pub consent : Option (Map Text) → World S D → Response × World S D
  unfolding deciding
  consent form = serve (deciding form)
