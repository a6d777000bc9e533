-- ===== src/Oauth/Examples/Revoke.antt =====
-- A revocation on a server with DocumentDB, whose state is here the hashes of its sessions.
use buildpulse_mcp.Common.{
  ℕ, ◌-◌, ◌≡◌, ◌≢◌, ◌⊎◌, refl, Text, codes, ◌==◌, eq_iff, eq_refl, Map, get, put, delete,
  get-delete, Option, none, some, [], ◌∷◌, true, false, err, arith,
}
use buildpulse_mcp.Oauth.Store.{failed}
use buildpulse_mcp.Oauth.Store.Contract.{Within}
use buildpulse_mcp.Oauth.Store.Memory.{MemoryStore}
use buildpulse_mcp.Oauth.Store.MemoryContract.{memory_view, memory-Contract}
use buildpulse_mcp.Oauth.Sessions.{Mongo}
use buildpulse_mcp.Oauth.Server.{OauthServer, World, empty, value}
use buildpulse_mcp.Oauth.Revoke.{revoke}
use buildpulse_mcp.Oauth.Revoke.Complete.{IsCollection, revoke_deletes}
use buildpulse_mcp.Oauth.Examples.{lib, srv, world, form_of}

abbrev Sessions : Type 0
Sessions = Map Text

abbrev number : Option Text → ℕ
number none = 0
number (some user) = 1

abbrev held : Sessions → Text → ℕ
held d h = number (get d h)

abbrev mongo : Mongo Sessions
mongo = record {
  find_user_by_id = λ d sub. none;
  find_user_by_email = λ d email. none;
  find_memberships = λ d filter. none;
  insert_session = λ d s. (true, put d s.hashed_token s.cognito_sub);
  delete_session = λ d h. (true, delete d h);
}

number-minus : (o : Option Text) → 0 ≡ number o - 1
number-minus none = omega arith
number-minus (some user) = omega arith

mongo-IsCollection : IsCollection mongo held
mongo-IsCollection = record {
  deletes = λ d h done. rw (get-delete d h h, eq_refl h) (number-minus (get d h));
  keeps = λ d h j ne. rw (get-delete d h j, different h j ne) refl;
}
  where
    different : (h j : Text) → j ≢ h → (h == j) ≡ false
    different h j ne = ground (arith, eq_iff h j)

abbrev session_srv : OauthServer MemoryStore Sessions
session_srv = record {
  issuer = srv.issuer;
  cognito_domain = srv.cognito_domain;
  cognito_client_id = srv.cognito_client_id;
  cognito_secret = srv.cognito_secret;
  store = srv.store;
  crypter = srv.crypter;
  database = some mongo;
}

-- The refresh token `t`, and a session under each of two tokens.
abbrev session_world : World MemoryStore Sessions
session_world = record {
  store = world.store;
  sessions = put (put [] (codes "t") (codes "u")) (codes "tt") (codes "u");
  limiter = none;
}

abbrev revoking : Map Text
revoking =
    form_of ((codes "token", codes "t") ∷ (codes "token_type_hint", codes "refresh_token") ∷ [])

has_token : value revoking "token" ≢ []
unfolding get put value ◌==◌
has_token e = cc

another : codes "tt" ≢ value revoking "token"
unfolding get put value ◌==◌
another e = cc

revoke_deletes_example :
    ((revoke lib session_srv (some revoking) session_world).0 ≡ empty)
    × (((session_srv.store.pop_refresh session_world.store (value revoking "token")).0 ≡ err failed)
        ⊎ (get
              (revoke lib session_srv (some revoking) session_world).1.store.refresh
              (value revoking "token")
            ≡ none))
    × ((true ≡ false)
        ⊎ (held
              (revoke lib session_srv (some revoking) session_world).1.sessions
              (value revoking "token")
            ≡ held session_world.sessions (value revoking "token") - 1))
    × (held (revoke lib session_srv (some revoking) session_world).1.sessions (codes "tt")
        ≡ held session_world.sessions (codes "tt"))
    × Within
        (get session_world.store.refresh)
        (get (revoke lib session_srv (some revoking) session_world).1.store.refresh)
revoke_deletes_example =
    revoke_deletes lib session_srv memory_view memory-Contract mongo held mongo-IsCollection
      revoking session_world (codes "tt") refl has_token another
