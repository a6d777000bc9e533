-- ===== src/Oauth/Model.antt =====
-- The records and the limits of cmd/mcp-remote/oauth.go. A time is a number of nanoseconds since
-- the Unix epoch.
use buildpulse_mcp.Common.{ℕ, ◌*◌, Text, codes, List}

abbrev pub second : ℕ
second = 1_000_000_000

abbrev pub minute : ℕ
minute = 60 * second

abbrev pub access_token_ttl : ℕ
access_token_ttl = 60 * minute

abbrev pub auth_code_ttl : ℕ
auth_code_ttl = 60 * second

abbrev pub refresh_token_ttl : ℕ
refresh_token_ttl = 30 * 24 * 60 * minute

abbrev pub default_scope : Text
default_scope = codes "buildpulse.read"

abbrev pub default_redirect_path : Text
default_redirect_path = codes "/oauth/callback"

pub record RegisteredClient : Type 0 where
  pub client_id : Text
  pub client_name : Text
  pub redirect_uris : List Text
  pub grant_types : List Text
  pub created_at : ℕ

pub record AuthorizationCode : Type 0 where
  pub code : Text
  pub client_id : Text
  pub redirect_uri : Text
  pub code_challenge : Text
  pub scope : Text
  pub user_subject : Text
  pub user_email : Text
  pub organization_ids : List Text
  pub cognito_refresh_enc : Text
  pub expires : ℕ

pub record RefreshToken : Type 0 where
  pub hashed_token : Text
  pub client_id : Text
  pub scope : Text
  pub user_subject : Text
  pub user_email : Text
  pub organization_ids : List Text
  pub cognito_refresh_enc : Text
  pub expires : ℕ

pub record PendingAuth : Type 0 where
  pub client_id : Text
  pub redirect_uri : Text
  pub code_challenge : Text
  pub original_state : Text
  pub scope : Text
  pub expires : ℕ
  pub client_name : Text
  pub user_subject : Text
  pub user_email : Text
  pub organization_ids : List Text
  pub cognito_refresh_enc : Text
