-- ===== src/Oauth/Setup.antt =====
-- What cmd/mcp-remote makes of its environment (newOAuthServer of oauth.go, store_init.go), and the
-- discovery documents of oauth.go and main.go.
use buildpulse_mcp.Common.{
  Text, codes, is_empty, has_suffix, length, take, ◌-◌, not, ◌&&◌, ◌||◌, Option, none, some, Bool,
  List, [], ◌∷◌, ◌++◌, if◌then◌else◌,
}
use buildpulse_mcp.Library.{Library}
use buildpulse_mcp.Oauth.Model.{default_scope}
use buildpulse_mcp.Oauth.Store.{Store}
use buildpulse_mcp.Oauth.Limiter.{register_rate_limit, register_rate_window, new_rate_limiter}
use buildpulse_mcp.Oauth.Crypter.{Crypter, plaintext_crypter}
use buildpulse_mcp.Oauth.Sessions.{Mongo}
use buildpulse_mcp.Oauth.Server.{OauthServer, World}

-- `getenv` is os.Getenv, empty if the variable is not set.
unfoldable pub env_or : (Text → Text) → Text → Text → Text
env_or getenv key fallback = let v = getenv key in if is_empty v then fallback else v

abbrev crypter_or_plaintext : Library → Option Crypter → Crypter
crypter_or_plaintext lib none = plaintext_crypter lib
crypter_or_plaintext lib (some crypter) = crypter

-- A nil crypter is `none`; the store that main passes is not nil.
unfoldable pub new_oauth_server :
    {S D : Type 0}
    → Library
    → (Text → Text)
    → Store S
    → Option Crypter
    → Option (Mongo D)
    → OauthServer S D
new_oauth_server lib getenv store crypter database = record {
  issuer = env_or getenv (codes "MCP_ISSUER") (codes "https://mcp.buildpulse.io");
  cognito_domain = env_or getenv (codes "COGNITO_DOMAIN") [];
  cognito_client_id = env_or getenv (codes "COGNITO_CLIENT_ID") [];
  cognito_secret = env_or getenv (codes "COGNITO_CLIENT_SECRET") [];
  store = store;
  crypter = crypter_or_plaintext lib crypter;
  database = database;
}

-- The state of a server that has served nothing.
abbrev pub new_world : {S D : Type 0} → S → D → World S D
new_world store sessions = record {
  store = store;
  sessions = sessions;
  limiter = some (new_rate_limiter register_rate_limit register_rate_window);
}

-- The backend, with the names of its tables.
pub data StoreChoice : Type 0 where
  in_memory : StoreChoice
  in_dynamo : Text → Text → Text → Text → StoreChoice

-- `config_loads` is whether the AWS configuration can be loaded.
unfoldable pub build_oauth_store : (Text → Text) → Bool → StoreChoice
build_oauth_store getenv config_loads =
    let clients = getenv (codes "OAUTH_CLIENTS_TABLE") in
    let code_table = getenv (codes "OAUTH_CODES_TABLE") in
    let pending = getenv (codes "OAUTH_PENDING_TABLE") in
    let refresh = getenv (codes "OAUTH_REFRESH_TABLE") in
    if is_empty clients || (is_empty code_table || is_empty pending)
    then in_memory
    else if not config_loads
    then in_memory
    else in_dynamo clients code_table pending refresh

-- The members of a JSON document that are texts or lists of texts.
pub data Member : Type 0 where
  text : Text → Member
  texts : List Text → Member

abbrev pub Document : Type 0
Document = List (Text × Member)

abbrev unconfigured : Document
unconfigured =
    (codes "x-buildpulse-oauth-status", text (codes "unconfigured"))
    ∷ (
      codes "x-buildpulse-oauth-fallback",
      text (
          codes
            "Use `Authorization: Bearer <BuildPulse API token>` directly (either `bp_<64-hex>` or legacy `<40-hex>` shape) until COGNITO_DOMAIN and COGNITO_CLIENT_ID are set."),
    )
    ∷ []

abbrev docs_url : Text
docs_url = codes "https://platform.buildpulse.io/docs/mcp"

module _ {S D : Type 0} (srv : OauthServer S D) where
  unfoldable pub metadata : Document
  metadata =
      (codes "issuer", text srv.issuer)
      ∷ (codes "authorization_endpoint", text (srv.issuer ++ codes "/oauth/authorize"))
      ∷ (codes "token_endpoint", text (srv.issuer ++ codes "/oauth/token"))
      ∷ (codes "revocation_endpoint", text (srv.issuer ++ codes "/oauth/revoke"))
      ∷ (codes "registration_endpoint", text (srv.issuer ++ codes "/oauth/register"))
      ∷ (codes "response_types_supported", texts (codes "code" ∷ []))
      ∷ (
        codes "grant_types_supported",
        texts (codes "authorization_code" ∷ codes "refresh_token" ∷ []),
      )
      ∷ (codes "code_challenge_methods_supported", texts (codes "S256" ∷ []))
      ∷ (codes "token_endpoint_auth_methods_supported", texts (codes "none" ∷ []))
      ∷ (codes "revocation_endpoint_auth_methods_supported", texts (codes "none" ∷ []))
      ∷ (codes "scopes_supported", texts (default_scope ∷ []))
      ∷ (codes "service_documentation", text docs_url)
      ∷ (if not (is_empty srv.cognito_domain) && not (is_empty srv.cognito_client_id)
          then []
          else unconfigured)

  -- The issuer without a slash at its end.
  unfoldable pub trimmed_issuer : Text
  trimmed_issuer =
      if has_suffix srv.issuer (codes "/")
      then take (length srv.issuer - 1) srv.issuer
      else srv.issuer

  unfoldable pub protected_resource : Document
  unfolding trimmed_issuer
  protected_resource =
      (codes "resource", text (trimmed_issuer ++ codes "/mcp"))
      ∷ (codes "authorization_servers", texts (trimmed_issuer ∷ []))
      ∷ (codes "bearer_methods_supported", texts (codes "header" ∷ []))
      ∷ (codes "resource_documentation", text docs_url)
      ∷ []
