-- ===== src/Oauth/System/Handlers.antt =====
-- Each handler of the OAuth routes keeps the tables sound.
use buildpulse_mcp.Common.{
  ◌≡◌, inl, inr, Text, Map, Option, none, some, ◌==◌, is_empty, is_empty_iff, Bool-cases, codes, ok,
  arith,
}
use buildpulse_mcp.Library.{Library, Claims}
use buildpulse_mcp.Oauth.Model.{AuthorizationCode, RefreshToken, PendingAuth, RegisteredClient}
use buildpulse_mcp.Oauth.Store.Contract.{View, Contract}
use buildpulse_mcp.Oauth.Guard.Safety.{safe_of_contains}
use buildpulse_mcp.Oauth.Server.{OauthServer, World, Call, value}
use buildpulse_mcp.Oauth.Register.{RegisterRequest, new_client, register}
use buildpulse_mcp.Oauth.Register.Outcome.{refused, unsaved, registered, registering_cases}
use buildpulse_mcp.Oauth.Authorize.{hop_record, authorize}
use buildpulse_mcp.Oauth.Authorize.Hop
use buildpulse_mcp.Oauth.Callback
use buildpulse_mcp.Oauth.Callback.{callback}
use buildpulse_mcp.Oauth.Callback.Stage
use buildpulse_mcp.Oauth.Consent
use buildpulse_mcp.Oauth.Consent.{granted_code, consent}
use buildpulse_mcp.Oauth.Consent.Decision
use buildpulse_mcp.Oauth.Token.{
  first_refresh, grant_code, renew, rotated, token_authorization_code, token_refresh, token,
}
use buildpulse_mcp.Oauth.Token.Exchange.{granting, exchanging_cases}
use buildpulse_mcp.Oauth.Token.Refresh
use buildpulse_mcp.Oauth.Revoke.{revoke}
use buildpulse_mcp.Oauth.Revoke.Complete.{revoke-without, revoke_without_token}
use buildpulse_mcp.Oauth.System.Soundness.{
  IsSound, put_client-IsSound, put_code-IsSound, put_pending-IsSound, put_refresh-IsSound,
  pop_code-IsSound, pop_pending-IsSound, pop_refresh-IsSound,
}

module _ {S D : Type 0} (lib : Library) (srv : OauthServer S D) (v : View S)
    (ct : Contract srv.store v) (call : Call) (w : World S D) (sound : IsSound lib v w.store) where
  pub register-IsSound :
      (xff remote : Text) (body : Option RegisterRequest)
      → IsSound lib v (register lib srv call xff remote body w).1.store
  unfolding register new_client
  register-IsSound xff remote body = elim (registering_cases lib srv call xff remote body w) [
    | refused r _ same ↦ rw same sound
    | unsaved req _ fine _ e ↦
        rw e
          (put_client-IsSound lib srv.store v ct w.store sound (new_client lib srv call req) fine)
    | registered req _ _ fine _ _ e ↦
        rw e
          (put_client-IsSound lib srv.store v ct w.store sound (new_client lib srv call req) fine)
  ]

  hop-IsSound :
      (q : Map Text) (c : RegisteredClient)
      → srv.store.get_client w.store (value q "client_id") ≡ ok c
      → Hop.MayAuthorize lib srv call q c
      → IsSound lib v (Hop.stashed lib srv call q w).1
  unfolding hop_record
  hop-IsSound q c found may =
      let registrable = sound.clients _ c (ct.get_client_reads w.store _ c found) in
      put_pending-IsSound lib srv.store v ct w.store sound _ (hop_record lib srv call q) (
        safe_of_contains lib c.redirect_uris _ registrable.safe_uris may.registered,
        may.challenged,
      )

  pub authorize-IsSound : (q : Map Text) → IsSound lib v (authorize lib srv call q w).1.store
  unfolding authorize
  authorize-IsSound q = elim (Hop.authorizing_cases lib srv call q w) [
    | Hop.refused r _ h ↦ rw h sound
    | Hop.unsaved c r found may _ h ↦ rw h (hop-IsSound q c found may)
    | Hop.sent c found may _ h ↦ rw h (hop-IsSound q c found may)
  ]

  staging-IsSound :
      (q : Map Text) (p : PendingAuth) (claims : Claims) (upstream : Text)
      → Stage.IsAuthenticated lib srv call q w p claims upstream
      → IsSound lib v (Stage.staged lib srv call q w p claims upstream).1
  unfolding Callback.consent_record
  staging-IsSound q p claims upstream came =
      put_pending-IsSound lib srv.store v ct (Stage.awaited lib srv call q w).1
        (pop_pending-IsSound lib srv.store v ct w.store sound (value q "state")) _
        (Stage.asked lib srv call q w p claims upstream)
        (sound.pending (value q "state") p (ct.pop_pending_takes w.store _ p came.taken).0)

  pub callback-IsSound : (q : Map Text) → IsSound lib v (callback lib srv call q w).1.store
  unfolding callback
  callback-IsSound q = elim (Stage.calling_back_cases lib srv call q w) [
    | Stage.stopped r _ h ↦ rw h sound
    | Stage.dropped r _ h ↦
        rw h (pop_pending-IsSound lib srv.store v ct w.store sound (value q "state"))
    | Stage.unsaved p claims upstream came h ↦ rw h (staging-IsSound q p claims upstream came)
    | Stage.asking p claims upstream came h ↦ rw h (staging-IsSound q p claims upstream came)
  ]

  grant-IsSound :
      (form : Map Text) (p : PendingAuth)
      → Decision.IsDecidable lib srv call form w p
      → IsSound lib v (Decision.coded lib srv call form w p).1
  unfolding granted_code
  grant-IsSound form p may =
      let key = Decision.decision_key lib srv call form in
      put_code-IsSound lib srv.store v ct (Decision.decided lib srv call form w).1
        (pop_pending-IsSound lib srv.store v ct w.store sound key) (granted_code lib srv call p)
        (sound.pending key p (ct.pop_pending_takes w.store key p may.taken).0)

  pub consent-IsSound :
      (form : Option (Map Text)) → IsSound lib v (consent lib srv call form w).1.store
  unfolding consent Consent.deciding
  consent-IsSound none = sound
  consent-IsSound (some form) =
      let popped =
        pop_pending-IsSound lib srv.store v ct w.store sound
          (Decision.decision_key lib srv call form) in
      elim (Decision.deciding_cases lib srv call form w) [
        | Decision.stopped r _ h ↦ rw h sound
        | Decision.dropped r _ h ↦ rw h popped
        | Decision.denied p _ _ h ↦ rw h popped
        | Decision.unsaved p may _ h ↦ rw h (grant-IsSound form p may)
        | Decision.approved p may _ _ h ↦ rw h (grant-IsSound form p may)
      ]

module _ {S D : Type 0} (lib : Library) (srv : OauthServer S D) (v : View S)
    (ct : Contract srv.store v) (call : Call) where
  grant_code-IsSound :
      (auth : AuthorizationCode) (w : World S D)
      → IsSound lib v w.store
      → IsSound lib v (grant_code lib srv call auth w).1.store
  unfolding grant_code
  grant_code-IsSound auth w sound = elim (Bool-cases (is_empty auth.cognito_refresh_enc)) [
    | inl bare ↦ rw bare sound
    | inr full ↦
        rw full
          (put_refresh-IsSound lib srv.store v ct w.store sound (first_refresh lib srv call auth))
  ]

  renew-IsSound :
      (rt : RefreshToken) (claims : Claims) (w : World S D)
      → IsSound lib v w.store
      → IsSound lib v (renew lib srv call rt claims w).1.store
  unfolding renew
  renew-IsSound rt claims w sound =
      put_refresh-IsSound lib srv.store v ct w.store sound (rotated lib srv call w rt claims)

  exchange-IsSound :
      (form : Map Text) (w : World S D)
      → IsSound lib v w.store
      → IsSound lib v (token_authorization_code lib srv call form w).1.store
  unfolding token_authorization_code
  exchange-IsSound form w sound =
      let popped = pop_code-IsSound lib srv.store v ct w.store sound (value form "code") in
      elim (exchanging_cases lib srv call form w) [
        | inl (_, (_, h)) ↦ rw h popped
        | inr (auth, _, inl (_, (_, h))) ↦ rw h popped
        | inr (auth, _, inr (_, h)) ↦
            rw h (grant_code-IsSound auth (granting lib srv call form w auth) popped)
      ]

  refresh-IsSound :
      (form : Map Text) (w : World S D)
      → IsSound lib v w.store
      → IsSound lib v (token_refresh lib srv call form w).1.store
  unfolding token_refresh
  refresh-IsSound form w sound =
      let popped = pop_refresh-IsSound lib srv.store v ct w.store sound _ in
      elim (Refresh.refreshing_cases lib srv call form w) [
        | inl (Refresh.missing _ h) ↦ rw h sound
        | inl (Refresh.refused _ _ h) ↦ rw h popped
        | inr (rt, claims, (_, _, _, h)) ↦
            rw h (renew-IsSound rt claims (Refresh.after_pop lib srv call form w) popped)
      ]

  pub token-IsSound :
      (form : Option (Map Text)) (w : World S D)
      → IsSound lib v w.store
      → IsSound lib v (token lib srv call form w).1.store
  unfolding token
  token-IsSound none w sound = sound
  token-IsSound (some form) w sound =
      elim (Bool-cases (value form "grant_type" == codes "authorization_code")) [
        | inl exchanges ↦ rw exchanges (exchange-IsSound form w sound)
        | inr other ↦ elim (Bool-cases (value form "grant_type" == codes "refresh_token")) [
          | inl refreshes ↦ rw (other, refreshes) (refresh-IsSound form w sound)
          | inr unknown ↦ rw (other, unknown) sound
        ]
      ]

  pub revoke-IsSound :
      (form : Option (Map Text)) (w : World S D)
      → IsSound lib v w.store
      → IsSound lib v (revoke lib srv form w).1.store
  unfolding revoke
  revoke-IsSound none w sound = sound
  revoke-IsSound (some form) w sound = elim (Bool-cases (is_empty (value form "token"))) [
    | inl bare ↦
        rw (revoke_without_token lib srv form w ((is_empty_iff (value form "token")).0 bare)) sound
    | inr given ↦
        rw (revoke-without lib srv form w (ground (arith, is_empty_iff (value form "token"))))
          (pop_refresh-IsSound lib srv.store v ct w.store sound _)
  ]
