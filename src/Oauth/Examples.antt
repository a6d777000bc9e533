-- ===== src/Oauth/Examples.antt =====
-- A server with the in-memory store on which the theorems about the OAuth routes are run.
pub mod Tables
pub mod Flow
pub mod Race
pub mod Revoke
pub mod Parts
pub mod Dynamo
use buildpulse_mcp.Common.{Text, codes, to_lower, ◌==◌, Map, put, none, some, List, [], ◌∷◌}
use buildpulse_mcp.Library.{Library, Url}
use buildpulse_mcp.Oauth.Model.{RegisteredClient, AuthorizationCode, PendingAuth, RefreshToken}
use buildpulse_mcp.Oauth.Store.Memory.{MemoryStore, new_memory_store, memory_store}
use buildpulse_mcp.Oauth.Server.{OauthServer, World, Call, unreachable, answered}

abbrev pub page_url : Url
page_url = record {
  scheme = codes "https";
  user = none;
  host = codes "a.co";
  hostname = codes "a.co";
  path = codes "/cb";
  raw_query = [];
  fragment = [];
}

abbrev pub lib : Library
lib = record {
  parse_url = λ raw. some page_url;
  to_lower = λ t. to_lower t;
  equal_fold = λ s t. to_lower s == to_lower t;
  parse_ip_loopback = λ ip. none;
  split_host = λ addr. none;
  encode_values = λ params. [];
  sha256 = λ t. t;
  base64_std = λ t. t;
  base64_std_decode = λ t. some t;
  base64_raw_url = λ t. t;
  base64_raw_url_decode = λ t. some t;
  hex = λ t. t;
  unmarshal_claims = λ t. some (record { sub = codes "u"; email = codes "u@a.co" });
}

abbrev pub srv : OauthServer MemoryStore (Unit {0})
srv = record {
  issuer = codes "https://mcp";
  cognito_domain = codes "https://cog";
  cognito_client_id = codes "cid";
  cognito_secret = [];
  store = memory_store;
  crypter = record { encrypt = λ t. some t; decrypt = λ t. some t };
  database = none;
}

-- Cognito answers with tokens.
abbrev pub call : Call
call = record {
  now = 10;
  later = 11;
  rand_read = λ i n. codes "r";
  post = λ url auth body.
      answered 200 (some (record { id_token = codes "h.p.s"; refresh_token = codes "up" }));
}

-- Cognito cannot be reached, and the random texts are others.
abbrev pub broken_call : Call
broken_call = record {
  now = 20;
  later = 21;
  rand_read = λ i n. codes "q";
  post = λ url auth body. unreachable;
}

abbrev pub uri : Text
uri = codes "https://a.co/cb"

abbrev pub client : RegisteredClient
client = record {
  client_id = codes "c";
  client_name = codes "App";
  redirect_uris = uri ∷ [];
  grant_types = [];
  created_at = 1;
}

abbrev pub stored_code : AuthorizationCode
stored_code = record {
  code = codes "k";
  client_id = codes "c";
  redirect_uri = uri;
  code_challenge = codes "v";
  scope = codes "s";
  user_subject = codes "u";
  user_email = codes "u@a.co";
  organization_ids = [];
  cognito_refresh_enc = [];
  expires = 50;
}

abbrev pub stored_refresh : RefreshToken
stored_refresh = record {
  hashed_token = codes "t";
  client_id = codes "c";
  scope = codes "s";
  user_subject = codes "u";
  user_email = codes "u@a.co";
  organization_ids = [];
  cognito_refresh_enc = codes "up";
  expires = 50;
}

-- Waiting for a decision.
abbrev pub stored_pending : PendingAuth
stored_pending = record {
  client_id = codes "c";
  redirect_uri = uri;
  code_challenge = codes "v";
  original_state = codes "st";
  scope = codes "s";
  expires = 50;
  client_name = codes "App";
  user_subject = codes "u";
  user_email = codes "u@a.co";
  organization_ids = [];
  cognito_refresh_enc = [];
}

abbrev pub world : World MemoryStore (Unit {0})
world = record {
  store = record {
    clients = put [] (codes "c") client;
    codes = put [] (codes "k") stored_code;
    pending = put [] (codes "consent:x") stored_pending;
    refresh = put [] (codes "t") stored_refresh;
  };
  sessions = tt;
  limiter = none;
}

abbrev pub empty_world : World MemoryStore (Unit {0})
empty_world = record { store = new_memory_store; sessions = tt; limiter = none }

abbrev pub form_of : List (Text × Text) → Map Text
form_of [] = []
form_of ((k, v) ∷ rest) = put (form_of rest) k v
