-- ===== src/Oauth.antt =====
-- The OAuth 2.1 authorization server of cmd/mcp-remote.
pub mod Model
pub mod Store
pub mod Guard
pub mod Limiter
pub mod Crypter
pub mod Sessions
pub mod Pkce
pub mod Cognito
pub mod Destination
pub mod Register
pub mod Authorize
pub mod Callback
pub mod Consent
pub mod Token
pub mod Revoke
pub mod Server
pub mod Setup
pub mod System
pub mod Examples
