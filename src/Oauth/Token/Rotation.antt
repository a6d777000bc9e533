-- ===== src/Oauth/Token/Rotation.antt =====
-- What a refresh leaves in the table of refresh tokens.
use buildpulse_mcp.Common.{
  ◌≤◌, ◌≡◌, ◌≢◌, ◌⊎◌, inl, inr, Text, Map, none, some, Option-cases, ok, err, arith,
}
use buildpulse_mcp.Library.{Library, Claims}
use buildpulse_mcp.Oauth.Model.{RefreshToken}
use buildpulse_mcp.Oauth.Store.Contract.{View, Contract, Within, stamped_refresh}
use buildpulse_mcp.Oauth.Sessions.{hash_token_b64}
use buildpulse_mcp.Oauth.Cognito.{refresh_cognito}
use buildpulse_mcp.Oauth.Server.{
  OauthServer, World, Call, CognitoError, TokenResponse, issued, value,
}
use buildpulse_mcp.Oauth.Token.{next_refresh, rotated, renew, token_refresh}
use buildpulse_mcp.Oauth.Token.Refresh

module _ {S D : Type 0} (lib : Library) (srv : OauthServer S D) (v : View S)
    (ct : Contract srv.store v) (call : Call) (form : Map Text) where
  abbrev pub presented : Text
  presented = hash_token_b64 lib (value form "refresh_token")

  -- `r` replaces a token that was stored under the hash of the one presented, and grants no more.
  pub record Rotates (w : World S D) (r : RefreshToken) : Type 0 where
    pub rt : RefreshToken
    pub stored : v.refresh w.store presented ≡ some rt
    pub client : r.client_id ≡ rt.client_id
    pub scope : r.scope ≡ rt.scope
    pub upstream : r.cognito_refresh_enc ≡ rt.cognito_refresh_enc
    pub deadline : r.expires ≤ rt.expires
    pub in_time : call.now ≤ rt.expires

  rotated-Rotates :
      (w w' : World S D) (rt r : RefreshToken) (claims : Claims)
      → v.refresh w.store presented ≡ some rt
      → call.now ≤ rt.expires
      → r ≡ stamped_refresh v (rotated lib srv call w' rt claims)
      → Rotates w r
  unfolding rotated
  rotated-Rotates w w' rt r claims stored in_time same = record {
    rt = rt;
    stored = stored;
    client = cc same;
    scope = cc same;
    upstream = cc same;
    deadline = rw same (ct.stamp_le rt.expires);
    in_time = in_time;
  }

  -- With a store that keeps its contract: a refresh token in the store after a refresh was there before, or it replaces the one that was
  -- presented, which was not expired: it has its client, its scope and its upstream token, and
  -- expires no later, so that refreshing never prolongs a session.
  pub refresh_never_prolongs :
      (w : World S D) (k : Text) (r : RefreshToken)
      → v.refresh (token_refresh lib srv call form w).1.store k ≡ some r
      → (v.refresh w.store k ≡ some r) ⊎ Rotates w r
  unfolding token_refresh renew
  refresh_never_prolongs w k r = elim (Refresh.refreshing_cases lib srv call form w) [
    | inl (Refresh.missing _ h) ↦ rw h (λ g. inl g)
    | inl (Refresh.refused _ _ h) ↦ rw h (λ g. inl (ct.pop_refresh_within w.store presented k r g))
    | inr (rt, claims, (_, taken, revives, h)) ↦
        let w' = Refresh.after_pop lib srv call form w in
        rw h (λ g. elim (ct.put_refresh_adds w'.store (rotated lib srv call w' rt claims) k r g) [
          | inl old ↦ inl (ct.pop_refresh_within w.store presented k r old)
          | inr (_, same) ↦ inr (
              rotated-Rotates w w' rt r claims (ct.pop_refresh_takes w.store presented rt taken).0
                revives.in_time same)
        ])
  ]

  -- With a store that keeps its contract: after a refresh issued a token, the refresh token that was presented is gone, unless the new
  -- one happens to have the same hash.
  pub refresh_spends :
      (w : World S D) (r : TokenResponse)
      → (token_refresh lib srv call form w).0 ≡ issued r
      → presented ≢ hash_token_b64 lib (next_refresh lib srv call)
      → v.refresh (token_refresh lib srv call form w).1.store presented ≡ none
  unfolding token_refresh renew rotated
  refresh_spends w r issues other = elim (Refresh.refreshing_cases lib srv call form w) [
    | inl (Refresh.missing _ h) ↦ absurd (ground arith)
    | inl (Refresh.refused _ (_, is_grant) h) ↦ absurd (ground arith)
    | inr (rt, claims, (_, taken, revives, h)) ↦
        let w' = Refresh.after_pop lib srv call form w in
        let (_, gone) = ct.pop_refresh_takes w.store presented rt taken in
        let rt' = rotated lib srv call w' rt claims in
        rw h (elim (Option-cases (v.refresh (srv.store.put_refresh w'.store rt').1 presented)) [
          | inl left ↦ left
          | inr (a, found) ↦ elim (ct.put_refresh_adds w'.store rt' presented a found) [
            | inl old ↦ absurd (ground arith)
            | inr (same, _) ↦ absurd (other same)
          ]
        ])
  ]

  -- With a store that keeps its contract: a refresh whose token is popped, and whose upstream token
  -- decrypts and is rejected by Cognito, issues nothing, writes no session, and adds no
  -- refresh token: a user who was deleted or disabled upstream is out at the next refresh.
  pub rejected_upstream_ends_session :
      (w : World S D) (rt : RefreshToken) (upstream : Text) (e : CognitoError)
      → (Refresh.taken_by lib srv call form w).0 ≡ ok rt
      → srv.crypter.decrypt rt.cognito_refresh_enc ≡ some upstream
      → refresh_cognito lib srv call upstream ≡ err e
      → ((r : TokenResponse) → (token_refresh lib srv call form w).0 ≢ issued r)
        × ((token_refresh lib srv call form w).1.sessions ≡ w.sessions)
        × Within (v.refresh w.store) (v.refresh (token_refresh lib srv call form w).1.store)
  unfolding token_refresh
  rejected_upstream_ends_session w rt upstream e taken decrypted rejected =
      elim (Refresh.refreshing_cases lib srv call form w) [
        | inl (Refresh.missing _ h) ↦ (λ r. ground arith, rw h, rw h (λ j a g. g))
        | inl (Refresh.refused _ (_, is_grant) h) ↦
            (λ r. ground arith, rw h, rw h (ct.pop_refresh_within w.store presented))
        | inr (rt', claims, (_, taken', revives, h)) ↦
            let same : rt ≡ rt' = cc (taken, taken') in
            let decrypted' : srv.crypter.decrypt rt.cognito_refresh_enc ≡ some revives.upstream =
              rw same revives.decrypted in
            let same_upstream : upstream ≡ revives.upstream = cc (decrypted, decrypted') in
            absurd (ground (arith, rejected, revives.accepted, same_upstream))
      ]
