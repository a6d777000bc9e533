-- ===== src/Oauth/Store.antt =====
-- The Store interface of cmd/mcp-remote/store.go, over the type of its states. A method returns
-- the new state beside its error, since a call that fails may have had its effect.
pub mod Contract
pub mod Memory
pub mod MemoryContract
pub mod Dynamo
pub mod DynamoContract
use buildpulse_mcp.Common.{Text, Option, Result}
use buildpulse_mcp.Oauth.Model.{RegisteredClient, AuthorizationCode, PendingAuth, RefreshToken}

-- ErrNotFound, or any other error of the backend.
pub data StoreError : Type 0 where
  not_found failed : StoreError

-- For a Put, `none` is the nil error.
pub record Store (S : Type 0) : Type 0 where
  pub put_client : S → RegisteredClient → Option StoreError × S
  pub get_client : S → Text → Result StoreError RegisteredClient
  pub put_code : S → AuthorizationCode → Option StoreError × S
  pub pop_code : S → Text → Result StoreError AuthorizationCode × S
  pub put_pending : S → Text → PendingAuth → Option StoreError × S
  pub pop_pending : S → Text → Result StoreError PendingAuth × S
  pub put_refresh : S → RefreshToken → Option StoreError × S
  pub pop_refresh : S → Text → Result StoreError RefreshToken × S
