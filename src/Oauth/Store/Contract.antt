-- ===== src/Oauth/Store/Contract.antt =====
-- What store.go promises of every backend, over a view of its four tables: Put adds at most the
-- record that it is given, Pop returns what is stored and leaves nothing under the key, and no
-- method touches another table. A backend may round a time that it is given down, and a Get of a
-- client, which is never deleted, may return one that was put under its id before.
use buildpulse_mcp.Common.{ℕ, ◌≤◌, ◌≡◌, ◌≢◌, ◌⊎◌, ◌↔◌, Text, Option, none, some, ok, err}
use buildpulse_mcp.Oauth.Model.{RegisteredClient, AuthorizationCode, PendingAuth, RefreshToken}
use buildpulse_mcp.Oauth.Store.{Store, not_found}

pub record View (S : Type 0) : Type 1 where
  -- the clients that a Get may return
  pub clients : S → Text → RegisteredClient → Type 0
  pub codes : S → Text → Option AuthorizationCode
  pub pending : S → Text → Option PendingAuth
  pub refresh : S → Text → Option RefreshToken
  -- how a stored time reads when it comes back
  pub stamp : ℕ → ℕ

module _ {A : Type 0} where
  -- Every entry of `new` is one of `old`, or is `v` under the key `k`.
  abbrev pub Adds : (Text → Option A) → (Text → Option A) → Text → A → Type 0
  Adds old new k v = (j : Text) (a : A) → new j ≡ some a → (old j ≡ some a) ⊎ ((j ≡ k) × (a ≡ v))

  -- Every entry of `new` is one of `old`.
  abbrev pub Within : (Text → Option A) → (Text → Option A) → Type 0
  Within old new = (j : Text) (a : A) → new j ≡ some a → old j ≡ some a

  -- A successful Pop of `k` read the entry and removed it.
  abbrev pub Takes : (Text → Option A) → (Text → Option A) → Text → A → Type 0
  Takes old new k a = (old k ≡ some a) × (new k ≡ none)

module _ {S : Type 0} (v : View S) where
  pub record SameClients (s t : S) : Type 0 where
    pub at : (k : Text) (c : RegisteredClient) → v.clients t k c ↔ v.clients s k c

  pub record SameCodes (s t : S) : Type 0 where
    pub at : (k : Text) → v.codes t k ≡ v.codes s k

  pub record SamePending (s t : S) : Type 0 where
    pub at : (k : Text) → v.pending t k ≡ v.pending s k

  pub record SameRefresh (s t : S) : Type 0 where
    pub at : (k : Text) → v.refresh t k ≡ v.refresh s k

  abbrev pub stamped_client : RegisteredClient → RegisteredClient
  stamped_client c = record c { created_at = v.stamp c.created_at }

  abbrev pub stamped_code : AuthorizationCode → AuthorizationCode
  stamped_code c = record c { expires = v.stamp c.expires }

  abbrev pub stamped_pending : PendingAuth → PendingAuth
  stamped_pending p = record p { expires = v.stamp p.expires }

  abbrev pub stamped_refresh : RefreshToken → RefreshToken
  stamped_refresh r = record r { expires = v.stamp r.expires }

module _ {S : Type 0} (db : Store S) (v : View S) where
  pub record Contract : Type 0 where
    pub stamp_le : (t : ℕ) → v.stamp t ≤ t
    pub get_client_reads :
        (s : S) (k : Text) (c : RegisteredClient) → db.get_client s k ≡ ok c → v.clients s k c
    pub put_client_keeps :
        (s : S) (c r : RegisteredClient) (k : Text)
        → k ≢ c.client_id
        → v.clients (db.put_client s c).1 k r ↔ v.clients s k r
    pub put_client_adds :
        (s : S) (c r : RegisteredClient) (k : Text)
        → v.clients (db.put_client s c).1 k r
        → v.clients s k r ⊎ ((k ≡ c.client_id) × (r ≡ stamped_client v c))
    pub put_client_codes : (s : S) (c : RegisteredClient) → SameCodes v s (db.put_client s c).1
    pub put_client_pending : (s : S) (c : RegisteredClient) → SamePending v s (db.put_client s c).1
    pub put_client_refresh : (s : S) (c : RegisteredClient) → SameRefresh v s (db.put_client s c).1
    pub put_code_adds :
        (s : S) (c : AuthorizationCode)
        → Adds (v.codes s) (v.codes (db.put_code s c).1) c.code (stamped_code v c)
    pub put_code_clients : (s : S) (c : AuthorizationCode) → SameClients v s (db.put_code s c).1
    pub put_code_pending : (s : S) (c : AuthorizationCode) → SamePending v s (db.put_code s c).1
    pub put_code_refresh : (s : S) (c : AuthorizationCode) → SameRefresh v s (db.put_code s c).1
    pub pop_code_takes :
        (s : S) (k : Text) (c : AuthorizationCode)
        → (db.pop_code s k).0 ≡ ok c
        → Takes (v.codes s) (v.codes (db.pop_code s k).1) k c
    pub pop_code_within : (s : S) (k : Text) → Within (v.codes s) (v.codes (db.pop_code s k).1)
    pub pop_code_clients : (s : S) (k : Text) → SameClients v s (db.pop_code s k).1
    pub pop_code_pending : (s : S) (k : Text) → SamePending v s (db.pop_code s k).1
    pub pop_code_refresh : (s : S) (k : Text) → SameRefresh v s (db.pop_code s k).1
    pub put_pending_adds :
        (s : S) (k : Text) (p : PendingAuth)
        → Adds (v.pending s) (v.pending (db.put_pending s k p).1) k (stamped_pending v p)
    pub put_pending_clients :
        (s : S) (k : Text) (p : PendingAuth) → SameClients v s (db.put_pending s k p).1
    pub put_pending_codes :
        (s : S) (k : Text) (p : PendingAuth) → SameCodes v s (db.put_pending s k p).1
    pub put_pending_refresh :
        (s : S) (k : Text) (p : PendingAuth) → SameRefresh v s (db.put_pending s k p).1
    pub pop_pending_takes :
        (s : S) (k : Text) (p : PendingAuth)
        → (db.pop_pending s k).0 ≡ ok p
        → Takes (v.pending s) (v.pending (db.pop_pending s k).1) k p
    pub pop_pending_within :
        (s : S) (k : Text) → Within (v.pending s) (v.pending (db.pop_pending s k).1)
    pub pop_pending_clients : (s : S) (k : Text) → SameClients v s (db.pop_pending s k).1
    pub pop_pending_codes : (s : S) (k : Text) → SameCodes v s (db.pop_pending s k).1
    pub pop_pending_refresh : (s : S) (k : Text) → SameRefresh v s (db.pop_pending s k).1
    pub put_refresh_adds :
        (s : S) (r : RefreshToken)
        → Adds (v.refresh s) (v.refresh (db.put_refresh s r).1) r.hashed_token (stamped_refresh v r)
    pub put_refresh_clients : (s : S) (r : RefreshToken) → SameClients v s (db.put_refresh s r).1
    pub put_refresh_codes : (s : S) (r : RefreshToken) → SameCodes v s (db.put_refresh s r).1
    pub put_refresh_pending : (s : S) (r : RefreshToken) → SamePending v s (db.put_refresh s r).1
    pub pop_refresh_takes :
        (s : S) (k : Text) (r : RefreshToken)
        → (db.pop_refresh s k).0 ≡ ok r
        → Takes (v.refresh s) (v.refresh (db.pop_refresh s k).1) k r
    pub pop_refresh_misses :
        (s : S) (k : Text)
        → (db.pop_refresh s k).0 ≡ err not_found
        → v.refresh (db.pop_refresh s k).1 k ≡ none
    pub pop_refresh_within :
        (s : S) (k : Text) → Within (v.refresh s) (v.refresh (db.pop_refresh s k).1)
    pub pop_refresh_clients : (s : S) (k : Text) → SameClients v s (db.pop_refresh s k).1
    pub pop_refresh_codes : (s : S) (k : Text) → SameCodes v s (db.pop_refresh s k).1
    pub pop_refresh_pending : (s : S) (k : Text) → SamePending v s (db.pop_refresh s k).1
