-- ===== src/Oauth/Register.antt =====
-- POST /oauth/register, cmd/mcp-remote/oauth.go.
pub mod Outcome
use buildpulse_mcp.Common.{Text, codes, Bool, false, not, Option, none, some, List, [], ◌∷◌, ◌++◌}
use buildpulse_mcp.Library.{Library}
use buildpulse_mcp.Oauth.Model.{RegisteredClient}
use buildpulse_mcp.Oauth.Guard.{RegistrationError, client_ip, validate_registration}
use buildpulse_mcp.Oauth.Limiter.{RateLimiter, allow}
use buildpulse_mcp.Oauth.Server.{
  OauthServer, World, Call, Response, oauth_error, retry_after, created, literal, registration,
  random_hex, Handler, pure, answer, answer_if, stored, serve, ◌>>=◌, ◌>>◌,
}

-- The JSON body. The method for the token endpoint is decoded and not used.
pub record RegisterRequest : Type 0 where
  pub client_name : Text
  pub redirect_uris : List Text
  pub grant_types : List Text

abbrev pub default_if_empty : List Text → List Text → List Text
default_if_empty [] fallback = fallback
default_if_empty (s ∷ ss) fallback = s ∷ ss

abbrev pub too_many_registrations : Response
too_many_registrations = retry_after 600 (
    oauth_error 429 "temporarily_unavailable"
      (literal "too many client registrations from this address; try again later"))

abbrev pub undecoded_body : Response
undecoded_body = oauth_error 400 "invalid_request" (literal "could not decode JSON body")

abbrev pub invalid_registration : RegistrationError → Response
invalid_registration e = oauth_error 400 "invalid_redirect_uri" (registration e)

abbrev pub unsaved_client : Response
unsaved_client = oauth_error 500 "server_error" (literal "failed to persist client registration")

module _ {S D : Type 0} (lib : Library) (srv : OauthServer S D) (call : Call) where
  pub limited : Option RateLimiter → Text → World S D → Bool × World S D
  limited none ip w = (false, w)
  limited (some rl) ip w =
      let (admitted, rl') = allow rl ip call.now in (not admitted, record w { limiter = some rl' })

  -- `r.registerLimiter.allow`, answered by 429 if it refuses
  rate_limit : Text → Handler S D (Unit {0})
  rate_limit ip w = let r = limited w.limiter ip w in answer_if r.0 too_many_registrations r.1

  decode : Option RegisterRequest → Handler S D RegisterRequest
  decode none = answer undecoded_body
  decode (some req) = pure req

  validate : Option RegistrationError → Handler S D (Unit {0})
  validate none = pure tt
  validate (some e) = answer (invalid_registration e)

  unfoldable pub new_client : RegisterRequest → RegisteredClient
  new_client req = record {
    client_id = codes "mcp_" ++ random_hex lib call 0 16;
    client_name = req.client_name;
    redirect_uris = req.redirect_uris;
    grant_types =
        default_if_empty req.grant_types (codes "authorization_code" ∷ codes "refresh_token" ∷ []);
    created_at = call.later;
  }

  put_client : RegisteredClient → Handler S D (Unit {0})
  put_client c w = stored unsaved_client w (srv.store.put_client w.store c)

  -- `body` is `none` if it does not decode, or is longer than 16 KiB.
  pub registering : Text → Text → Option RegisterRequest → Handler S D Response
  unfolding rate_limit decode validate put_client
  registering xff remote body = do
    rate_limit (client_ip lib xff remote)
    req ← decode body
    validate (validate_registration lib req.client_name req.redirect_uris)
    put_client (new_client req)
    pure (created (new_client req))

  unfoldable pub register : Text → Text → Option RegisterRequest → World S D → Response × World S D
  unfolding registering
  register xff remote body = serve (registering xff remote body)
