-- ===== src/Oauth/Sessions.antt =====
-- The users, memberships and sessions in DocumentDB, cmd/mcp-remote/mongo.go, over the type of the
-- database's states. A database that is `none` is a nil dbClient.
use buildpulse_mcp.Common.{
  ℕ, ◌+◌, Text, codes, is_empty, Bool, true, false, Option, none, some, List, [], ◌∷◌, Result, ok,
  err, if◌then◌else◌,
}
use buildpulse_mcp.Library.{Library}

-- The filter of the memberships query: userId, status, and sandbox not true.
pub record MembershipFilter : Type 0 where
  pub user_id : Text
  pub status : Text
  pub sandbox_not : Bool

pub record McpSession : Type 0 where
  pub hashed_token : Text
  pub organization_ids : List Text
  pub cognito_sub : Text
  pub cognito_email : Text
  pub created_at : ℕ
  pub expires_at : ℕ

-- The driver's calls. A lookup is `none` on an error, no document included; a membership is `none`
-- if its document does not decode; an insertion and a deletion answer whether they
-- succeeded.
pub record Mongo (D : Type 0) : Type 0 where
  pub find_user_by_id : D → Text → Option Text
  pub find_user_by_email : D → Text → Option Text
  pub find_memberships : D → MembershipFilter → Option (List (Option Text))
  pub insert_session : D → McpSession → Bool × D
  pub delete_session : D → Text → Bool × D

pub data SessionError : Type 0 where
  not_configured no_user_record memberships_query insert_failed : SessionError

unfoldable pub hash_token_b64 : Library → Text → Text
hash_token_b64 lib token = lib.base64_std (lib.sha256 token)

-- the loop over the cursor
unfoldable pub org_ids : List (Option Text) → List Text
org_ids [] = []
org_ids (none ∷ ms) = org_ids ms
org_ids (some id ∷ ms) = let rest = org_ids ms in if is_empty id then rest else id ∷ rest

module _ {D : Type 0} where
  memberships_of : Mongo D → D → Text → Result SessionError (List Text)
  memberships_of m d user_id =
      let filter : MembershipFilter = record {
        user_id = user_id;
        status = codes "active";
        sandbox_not = true;
      } in
      elim (m.find_memberships d filter) [
        | none ↦ err memberships_query
        | some ms ↦ ok (org_ids ms)
      ]

  find_user : Mongo D → D → Text → Text → Option Text
  find_user m d sub email = elim (m.find_user_by_id d sub) [
    | some id ↦ some id
    | none ↦ m.find_user_by_email d email
  ]

  resolve_in : Mongo D → D → Option Text → Result SessionError (List Text)
  unfolding memberships_of
  resolve_in m d none = err no_user_record
  resolve_in m d (some id) = memberships_of m d id

  unfoldable pub resolve_user_orgs :
      Option (Mongo D) → D → Text → Text → Result SessionError (List Text)
  unfolding find_user resolve_in
  resolve_user_orgs none d sub email = err not_configured
  resolve_user_orgs (some m) d sub email = resolve_in m d (find_user m d sub email)

  inserted : Bool × D → Option SessionError × D
  inserted (true, d) = (none, d)
  inserted (false, d) = (some insert_failed, d)

  unfoldable pub persist_mcp_session :
      Library
      → Option (Mongo D)
      → D
      → Text
      → Text
      → Text
      → List Text
      → ℕ
      → ℕ
      → Option SessionError × D
  unfolding inserted hash_token_b64
  persist_mcp_session lib none d token sub email orgs now ttl = (some not_configured, d)
  persist_mcp_session lib (some m) d token sub email orgs now ttl = inserted (
      m.insert_session d (record {
        hashed_token = hash_token_b64 lib token;
        organization_ids = orgs;
        cognito_sub = sub;
        cognito_email = email;
        created_at = now;
        expires_at = now + ttl;
      }))

  -- An error of the deletion is only logged.
  unfoldable pub delete_mcp_session : Library → Option (Mongo D) → D → Text → D
  unfolding hash_token_b64
  delete_mcp_session lib none d token = d
  delete_mcp_session lib (some m) d token =
      if is_empty token then d else (m.delete_session d (hash_token_b64 lib token)).1
