-- ===== src/Oauth/System.antt =====
-- The OAuth routes of cmd/mcp-remote/oauth.go (Routes) as steps on the shared state, one after
-- another: each request meets the state that the one before it left.
pub mod Soundness
pub mod Handlers
pub mod Codes
pub mod Traces
pub mod SingleUse
pub mod Race
use buildpulse_mcp.Common.{Text, Map, Option}
use buildpulse_mcp.Library.{Library}
use buildpulse_mcp.Oauth.Server.{OauthServer, World, Call, Response}
use buildpulse_mcp.Oauth.Register.{RegisterRequest, register}
use buildpulse_mcp.Oauth.Authorize.{authorize}
use buildpulse_mcp.Oauth.Callback.{callback}
use buildpulse_mcp.Oauth.Consent.{consent}
use buildpulse_mcp.Oauth.Token.{token}
use buildpulse_mcp.Oauth.Revoke.{revoke}

-- X-Forwarded-For, the remote address and the body of a registration; the query of a GET; the form
-- of a POST.
pub data Request : Type 0 where
  to_register : Text → Text → Option RegisterRequest → Request
  to_authorize to_callback : Map Text → Request
  to_consent to_token to_revoke : Option (Map Text) → Request

module _ {S D : Type 0} (lib : Library) (srv : OauthServer S D) where
  unfoldable pub handle : Call → Request → World S D → Response × World S D
  handle call (to_register xff remote body) w = register lib srv call xff remote body w
  handle call (to_authorize q) w = authorize lib srv call q w
  handle call (to_callback q) w = callback lib srv call q w
  handle call (to_consent form) w = consent lib srv call form w
  handle call (to_token form) w = token lib srv call form w
  handle call (to_revoke form) w = revoke lib srv form w

  -- The requests that were served, in their order, each with what it took from outside.
  pub data Reach : World S D → World S D → Type 0 where
    start : {w : World S D} → Reach w w
    next :
        {w w' : World S D} (call : Call) (req : Request)
        → Reach w w'
        → Reach w (handle call req w').1
