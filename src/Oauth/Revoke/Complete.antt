-- ===== src/Oauth/Revoke/Complete.antt =====
-- What /oauth/revoke leaves of a token.
use buildpulse_mcp.Common.{
  ℕ, ◌-◌, ◌≡◌, ◌≢◌, ◌⊎◌, ◌∙◌, ap, inl, inr, refl, Text, codes, ◌==◌, eq_iff, is_empty, is_empty_iff,
  Map, [], false, true, none, some, err, Bool-cases, Result-cases, arith,
}
use buildpulse_mcp.Library.{Library}
use buildpulse_mcp.Oauth.Store.{not_found, failed}
use buildpulse_mcp.Oauth.Store.Contract.{View, Within, Contract}
use buildpulse_mcp.Oauth.Sessions.{Mongo, hash_token_b64, delete_mcp_session}
use buildpulse_mcp.Oauth.Server.{OauthServer, World, empty, value}
use buildpulse_mcp.Oauth.Revoke.{revoke_hinted, revoke}

module _ {S D : Type 0} (lib : Library) (srv : OauthServer S D) where
  -- The state without the session and without the refresh token of `token`.
  abbrev pub without : Text → World S D → World S D
  without token w = record w {
    store = (srv.store.pop_refresh w.store (hash_token_b64 lib token)).1;
    sessions = delete_mcp_session lib srv.database w.sessions token;
  }

  not_both :
      (hint : Text)
      → (hint == codes "access_token") ≡ true
      → (hint == codes "refresh_token") ≡ false
  unfolding ◌==◌
  not_both hint h = rw ((eq_iff hint (codes "access_token")).0 h)

  given_of :
      (hint : Text) (name : Text)
      → (hint == name) ≡ true
      → is_empty name ≡ false
      → is_empty hint ≡ false
  given_of hint name h g = rw ((eq_iff hint name).0 h) g

  revoke_hinted-eq :
      (token hint : Text) (w : World S D) → revoke_hinted lib srv token hint w ≡ without token w
  unfolding revoke_hinted
  revoke_hinted-eq token hint w = elim (Bool-cases (hint == codes "access_token")) [
    | inl access ↦
        rw (access, not_both hint access, given_of hint (codes "access_token") access refl)
    | inr other ↦ elim (Bool-cases (hint == codes "refresh_token")) [
      | inl refresh ↦ rw (other, refresh, given_of hint (codes "refresh_token") refresh refl)
      | inr another ↦ elim (Bool-cases (is_empty hint)) [
        | inl bare ↦ rw (other, another, bare)
        | inr given ↦ rw (other, another, given)
      ]
    ]
  ]

  -- Whatever the hint says, the answer to a form with a token is 200, and both deletions are tried.
  pub revoke-without :
      (form : Map Text) (w : World S D)
      → value form "token" ≢ []
      → revoke lib srv (some form) w ≡ (empty, without (value form "token") w)
  unfolding revoke
  revoke-without form w given =
      let has : is_empty (value form "token") ≡ false =
        ground (arith, is_empty_iff (value form "token")) in
      rw (has, revoke_hinted-eq (value form "token") (value form "token_type_hint") w)

  pub revoke_without_token :
      (form : Map Text) (w : World S D)
      → value form "token" ≡ []
      → (revoke lib srv (some form) w).1 ≡ w
  unfolding revoke
  revoke_without_token form w bare =
      let has : is_empty (value form "token") ≡ true =
        ground (arith, is_empty_iff (value form "token")) in
      rw has

-- DeleteOne, if it succeeds, deletes one of the sessions with the hash, if there is one; `held` counts
-- these.
pub record IsCollection {D : Type 0} (m : Mongo D) (held : D → Text → ℕ) : Type 0 where
  pub deletes :
      (d : D) (h : Text)
      → (m.delete_session d h).0 ≡ true
      → held (m.delete_session d h).1 h ≡ held d h - 1
  pub keeps : (d : D) (h j : Text) → j ≢ h → held (m.delete_session d h).1 j ≡ held d j

module _ {S D : Type 0} (lib : Library) (srv : OauthServer S D) (v : View S)
    (ct : Contract srv.store v) (m : Mongo D) (held : D → Text → ℕ)
    (sessions : IsCollection m held) where
  abbrev pub hash_of : Text → Text
  hash_of token = lib.base64_std (lib.sha256 token)

  -- The refresh token is gone, unless the backend failed to pop it.
  pub refresh_gone :
      (token : Text) (w : World S D)
      → ((srv.store.pop_refresh w.store (hash_of token)).0 ≡ err failed)
        ⊎ (v.refresh (without lib srv token w).store (hash_of token) ≡ none)
  unfolding hash_token_b64
  refresh_gone token w = elim (Result-cases (srv.store.pop_refresh w.store (hash_of token)).0) [
    | inl (failed, e) ↦ inl e
    | inl (not_found, e) ↦ inr (ct.pop_refresh_misses w.store (hash_of token) e)
    | inr (rt, e) ↦ inr (ct.pop_refresh_takes w.store (hash_of token) rt e).1
  ]

  -- The database is asked to delete one session with the hash.
  sessions-without :
      (token : Text) (w : World S D)
      → srv.database ≡ some m
      → token ≢ []
      → (without lib srv token w).sessions ≡ (m.delete_session w.sessions (hash_of token)).1
  unfolding delete_mcp_session hash_token_b64
  sessions-without token w configured given =
      let has : is_empty token ≡ false = ground (arith, is_empty_iff token) in
      rw (configured, has) refl

  session_gone :
      (token : Text) (w : World S D)
      → srv.database ≡ some m
      → token ≢ []
      → ((m.delete_session w.sessions (hash_of token)).0 ≡ false)
        ⊎ (held (without lib srv token w).sessions (hash_of token)
            ≡ held w.sessions (hash_of token) - 1)
  session_gone token w configured given =
      elim (Bool-cases (m.delete_session w.sessions (hash_of token)).0) [
        | inr failed_to ↦ inl failed_to
        | inl deleted ↦ inr (
            ap (λ d. held d (hash_of token)) (sessions-without token w configured given)
            ∙ sessions.deletes w.sessions (hash_of token) deleted)
      ]

  session_kept :
      (token : Text) (w : World S D) (j : Text)
      → srv.database ≡ some m
      → token ≢ []
      → j ≢ hash_of token
      → held (without lib srv token w).sessions j ≡ held w.sessions j
  session_kept token w j configured given other =
      ap (λ d. held d j) (sessions-without token w configured given)
      ∙ sessions.keeps w.sessions (hash_of token) j other

  -- Of a server with a store that keeps its contract and with DocumentDB: whatever the hint of a form
  -- with a token says, the answer is 200. The refresh token with the hash of the token is gone from
  -- the store, unless the backend failed to pop it; one session with that hash is gone, if there was
  -- any, unless its deletion failed; the sessions with other hashes stay, and no refresh token is added.
  pub revoke_deletes :
      (form : Map Text) (w : World S D) (j : Text)
      → srv.database ≡ some m
      → value form "token" ≢ []
      → j ≢ hash_of (value form "token")
      → (revoke lib srv (some form) w).0 ≡ empty
        × (((srv.store.pop_refresh w.store (hash_of (value form "token"))).0 ≡ err failed)
            ⊎ (v.refresh (revoke lib srv (some form) w).1.store (hash_of (value form "token"))
                ≡ none))
        × (((m.delete_session w.sessions (hash_of (value form "token"))).0 ≡ false)
            ⊎ (held (revoke lib srv (some form) w).1.sessions (hash_of (value form "token"))
                ≡ held w.sessions (hash_of (value form "token")) - 1))
        × (held (revoke lib srv (some form) w).1.sessions j ≡ held w.sessions j)
        × Within (v.refresh w.store) (v.refresh (revoke lib srv (some form) w).1.store)
  revoke_deletes form w j configured given other =
      let token = value form "token" in
      rw (revoke-without lib srv form w given) (
        refl,
        refresh_gone token w,
        session_gone token w configured given,
        session_kept token w j configured given other,
        ct.pop_refresh_within w.store (hash_token_b64 lib token),
      )
