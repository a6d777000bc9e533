-- ===== src/Oauth/Revoke.antt =====
-- POST /oauth/revoke, cmd/mcp-remote/oauth.go.
pub mod Complete
use buildpulse_mcp.Common.{
  Text, codes, ◌==◌, is_empty, Map, not, ◌&&◌, ◌||◌, Bool, Option, none, some, if◌then◌else◌,
}
use buildpulse_mcp.Library.{Library}
use buildpulse_mcp.Oauth.Sessions.{hash_token_b64, delete_mcp_session}
use buildpulse_mcp.Oauth.Server.{OauthServer, World, Response, oauth_error, empty, literal, value}

module _ {S D : Type 0} (lib : Library) (srv : OauthServer S D) where
  delete_access : Text → World S D → World S D
  delete_access token w = record w {
    sessions = delete_mcp_session lib srv.database w.sessions token;
  }

  -- An error is only logged.
  drop_refresh : Text → World S D → World S D
  drop_refresh token w = record w {
    store = (srv.store.pop_refresh w.store (hash_token_b64 lib token)).1;
  }

  abbrev when : Bool → (World S D → World S D) → World S D → World S D
  when b f w = if b then f w else w

  pub revoke_hinted : Text → Text → World S D → World S D
  unfolding delete_access drop_refresh
  revoke_hinted token hint w =
      let is_access = hint == codes "access_token" in
      let is_refresh = hint == codes "refresh_token" in
      let other = not (is_empty hint) && (not is_access && not is_refresh) in
      let w1 = when ((is_empty hint || is_access) || other) (delete_access token) w in
      let w2 = when ((is_empty hint || is_refresh) || other) (drop_refresh token) w1 in
      let w3 = when is_refresh (delete_access token) w2 in when is_access (drop_refresh token) w3

  -- `form` is `none` if the body does not parse.
  unfoldable pub revoke : Option (Map Text) → World S D → Response × World S D
  unfolding revoke_hinted
  revoke none w = (oauth_error 400 "invalid_request" (literal "could not parse form body"), w)
  revoke (some form) w =
      if is_empty (value form "token")
      then (oauth_error 400 "invalid_request" (literal "token is required"), w)
      else (empty, revoke_hinted (value form "token") (value form "token_type_hint") w)
