-- ===== src/Oauth/Store/Memory.antt =====
-- The in-memory backend, cmd/mcp-remote/store_memory.go: four maps, and no expiry. A record is
-- stored by pointer there; no caller changes a record after it put it or while it is stored.
use buildpulse_mcp.Common.{Text, Map, get, put, delete, Option, none, some, [], Result, ok, err}
use buildpulse_mcp.Oauth.Model.{RegisteredClient, AuthorizationCode, PendingAuth, RefreshToken}
use buildpulse_mcp.Oauth.Store.{Store, StoreError, not_found}

pub record MemoryStore : Type 0 where
  pub clients : Map RegisteredClient
  pub codes : Map AuthorizationCode
  pub pending : Map PendingAuth
  pub refresh : Map RefreshToken

abbrev pub new_memory_store : MemoryStore
new_memory_store = record { clients = []; codes = []; pending = []; refresh = [] }

-- what Load and LoadAndDelete found
abbrev pub found {ℓ} : {A : Type ℓ} → Option A → Result StoreError A
found none = err not_found
found (some a) = ok a

unfoldable pub put_client : MemoryStore → RegisteredClient → Option StoreError × MemoryStore
put_client m c = (none, record m { clients = put m.clients c.client_id c })

unfoldable pub get_client : MemoryStore → Text → Result StoreError RegisteredClient
get_client m id = found (get m.clients id)

unfoldable pub put_code : MemoryStore → AuthorizationCode → Option StoreError × MemoryStore
put_code m c = (none, record m { codes = put m.codes c.code c })

unfoldable pub pop_code : MemoryStore → Text → Result StoreError AuthorizationCode × MemoryStore
pop_code m code = (found (get m.codes code), record m { codes = delete m.codes code })

unfoldable pub put_pending : MemoryStore → Text → PendingAuth → Option StoreError × MemoryStore
put_pending m state p = (none, record m { pending = put m.pending state p })

unfoldable pub pop_pending : MemoryStore → Text → Result StoreError PendingAuth × MemoryStore
pop_pending m state = (found (get m.pending state), record m { pending = delete m.pending state })

unfoldable pub put_refresh : MemoryStore → RefreshToken → Option StoreError × MemoryStore
put_refresh m rt = (none, record m { refresh = put m.refresh rt.hashed_token rt })

unfoldable pub pop_refresh : MemoryStore → Text → Result StoreError RefreshToken × MemoryStore
pop_refresh m hashed =
    (found (get m.refresh hashed), record m { refresh = delete m.refresh hashed })

-- The backend behind the interface.
abbrev pub memory_store : Store MemoryStore
memory_store = record {
  put_client = put_client;
  get_client = get_client;
  put_code = put_code;
  pop_code = pop_code;
  put_pending = put_pending;
  pop_pending = pop_pending;
  put_refresh = put_refresh;
  pop_refresh = pop_refresh;
}
