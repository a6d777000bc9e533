-- ===== src/Oauth/Store/Dynamo.antt =====
-- The DynamoDB backend, cmd/mcp-remote/store_dynamo.go: what it writes to each table, and what it
-- reads back. A time is kept in whole seconds.
use buildpulse_mcp.Common.{
  ℕ, ◌*◌, ◌/◌, Text, Option, none, some, Bool, true, false, List, Result, ok, err, eqb,
  if◌then◌else◌,
}
use buildpulse_mcp.Oauth.Model.{
  second, RegisteredClient, AuthorizationCode, PendingAuth, RefreshToken,
}
use buildpulse_mcp.Oauth.Store.{Store, StoreError, not_found, failed}

pub record DynamoClientItem : Type 0 where
  pub client_id : Text
  pub client_name : Text
  pub redirect_uris : List Text
  pub grant_types : List Text
  pub created_unix : ℕ

pub record DynamoCodeItem : Type 0 where
  pub code : Text
  pub client_id : Text
  pub redirect_uri : Text
  pub code_challenge : Text
  pub scope : Text
  pub user_subject : Text
  pub user_email : Text
  pub organization_ids : List Text
  pub cognito_refresh_enc : Text
  pub expires_unix : ℕ

pub record DynamoPendingItem : Type 0 where
  pub state : Text
  pub client_id : Text
  pub redirect_uri : Text
  pub code_challenge : Text
  pub original_state : Text
  pub scope : Text
  pub expires_unix : ℕ
  pub client_name : Text
  pub user_subject : Text
  pub user_email : Text
  pub organization_ids : List Text
  pub cognito_refresh_enc : Text

pub record DynamoRefreshItem : Type 0 where
  pub hashed_token : Text
  pub client_id : Text
  pub scope : Text
  pub user_subject : Text
  pub user_email : Text
  pub organization_ids : List Text
  pub cognito_refresh_enc : Text
  pub expires_unix : ℕ

-- The SDK's calls on one table of items, which it marshals and unmarshals. PutItem answers whether
-- it succeeded. GetItem, and DeleteItem with ReturnValues=ALL_OLD, are `none` on an error, one in
-- unmarshalling included, and `some none` if there was no item.
pub record Table (D V : Type 0) : Type 0 where
  pub put_item : D → V → Bool × D
  pub get_item : D → Text → Option (Option V)
  pub delete_item : D → Text → Option (Option V) × D

-- The refresh table may be missing.
pub record DynamoStore (D : Type 0) : Type 0 where
  pub clients : Table D DynamoClientItem
  pub codes : Table D DynamoCodeItem
  pub pending : Table D DynamoPendingItem
  pub refresh : Option (Table D DynamoRefreshItem)

-- Time.Unix()
abbrev pub unix : ℕ → ℕ
unix t = t / second

-- Go's zero time, long before 1970, is the time 0 here.
abbrev pub unix_to_time : ℕ → ℕ
unix_to_time n = if eqb n 0 then 0 else n * second

unfoldable pub client_item : RegisteredClient → DynamoClientItem
client_item c = record {
  client_id = c.client_id;
  client_name = c.client_name;
  redirect_uris = c.redirect_uris;
  grant_types = c.grant_types;
  created_unix = unix c.created_at;
}

unfoldable pub read_client : DynamoClientItem → RegisteredClient
read_client raw = record {
  client_id = raw.client_id;
  client_name = raw.client_name;
  redirect_uris = raw.redirect_uris;
  grant_types = raw.grant_types;
  created_at = unix_to_time raw.created_unix;
}

unfoldable pub code_item : AuthorizationCode → DynamoCodeItem
code_item c = record {
  code = c.code;
  client_id = c.client_id;
  redirect_uri = c.redirect_uri;
  code_challenge = c.code_challenge;
  scope = c.scope;
  user_subject = c.user_subject;
  user_email = c.user_email;
  organization_ids = c.organization_ids;
  cognito_refresh_enc = c.cognito_refresh_enc;
  expires_unix = unix c.expires;
}

unfoldable pub read_code : DynamoCodeItem → AuthorizationCode
read_code raw = record {
  code = raw.code;
  client_id = raw.client_id;
  redirect_uri = raw.redirect_uri;
  code_challenge = raw.code_challenge;
  scope = raw.scope;
  user_subject = raw.user_subject;
  user_email = raw.user_email;
  organization_ids = raw.organization_ids;
  cognito_refresh_enc = raw.cognito_refresh_enc;
  expires = unix_to_time raw.expires_unix;
}

unfoldable pub pending_item : Text → PendingAuth → DynamoPendingItem
pending_item state p = record {
  state = state;
  client_id = p.client_id;
  redirect_uri = p.redirect_uri;
  code_challenge = p.code_challenge;
  original_state = p.original_state;
  scope = p.scope;
  expires_unix = unix p.expires;
  client_name = p.client_name;
  user_subject = p.user_subject;
  user_email = p.user_email;
  organization_ids = p.organization_ids;
  cognito_refresh_enc = p.cognito_refresh_enc;
}

unfoldable pub read_pending : DynamoPendingItem → PendingAuth
read_pending raw = record {
  client_id = raw.client_id;
  redirect_uri = raw.redirect_uri;
  code_challenge = raw.code_challenge;
  original_state = raw.original_state;
  scope = raw.scope;
  expires = unix_to_time raw.expires_unix;
  client_name = raw.client_name;
  user_subject = raw.user_subject;
  user_email = raw.user_email;
  organization_ids = raw.organization_ids;
  cognito_refresh_enc = raw.cognito_refresh_enc;
}

unfoldable pub refresh_item : RefreshToken → DynamoRefreshItem
refresh_item rt = record {
  hashed_token = rt.hashed_token;
  client_id = rt.client_id;
  scope = rt.scope;
  user_subject = rt.user_subject;
  user_email = rt.user_email;
  organization_ids = rt.organization_ids;
  cognito_refresh_enc = rt.cognito_refresh_enc;
  expires_unix = unix rt.expires;
}

unfoldable pub read_refresh : DynamoRefreshItem → RefreshToken
read_refresh raw = record {
  hashed_token = raw.hashed_token;
  client_id = raw.client_id;
  scope = raw.scope;
  user_subject = raw.user_subject;
  user_email = raw.user_email;
  organization_ids = raw.organization_ids;
  cognito_refresh_enc = raw.cognito_refresh_enc;
  expires = unix_to_time raw.expires_unix;
}

-- The error that a Put returns.
abbrev pub put_error : Bool → Option StoreError
put_error true = none
put_error false = some failed

-- What a Get or a Pop returns.
abbrev pub fetched : {V A : Type 0} → (V → A) → Option (Option V) → Result StoreError A
fetched read none = err failed
fetched read (some none) = err not_found
fetched read (some (some raw)) = ok (read raw)

abbrev pub put_row : {D V : Type 0} → Table D V → D → V → Option StoreError × D
put_row t s raw = let r = t.put_item s raw in (put_error r.0, r.1)

abbrev pub pop_row : {D V A : Type 0} → Table D V → (V → A) → D → Text → Result StoreError A × D
pop_row t read s key = let r = t.delete_item s key in (fetched read r.0, r.1)

abbrev pub put_refresh_row :
    {D : Type 0} → D → RefreshToken → Option (Table D DynamoRefreshItem) → Option StoreError × D
put_refresh_row s rt none = (some failed, s)
put_refresh_row s rt (some t) = put_row t s (refresh_item rt)

abbrev pub pop_refresh_row :
    {D : Type 0}
    → D
    → Text
    → Option (Table D DynamoRefreshItem)
    → Result StoreError RefreshToken × D
pop_refresh_row s hashed none = (err not_found, s)
pop_refresh_row s hashed (some t) = pop_row t read_refresh s hashed

-- The backend behind the interface.
unfoldable pub dynamo_store : {D : Type 0} → DynamoStore D → Store D
dynamo_store d = record {
  put_client = λ s c. put_row d.clients s (client_item c);
  get_client = λ s id. fetched read_client (d.clients.get_item s id);
  put_code = λ s c. put_row d.codes s (code_item c);
  pop_code = pop_row d.codes read_code;
  put_pending = λ s state p. put_row d.pending s (pending_item state p);
  pop_pending = pop_row d.pending read_pending;
  put_refresh = λ s rt. put_refresh_row s rt d.refresh;
  pop_refresh = λ s hashed. pop_refresh_row s hashed d.refresh;
}
