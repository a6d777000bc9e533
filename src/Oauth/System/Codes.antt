-- ===== src/Oauth/System/Codes.antt =====
-- Where authorization codes come from and where they go.
use buildpulse_mcp.Common.{
  ◌≡◌, ◌⊎◌, inl, inr, refl, Text, codes, ◌==◌, Map, Option, none, some, is_empty, is_empty_iff,
  Bool-cases, arith,
}
use buildpulse_mcp.Library.{Library, Claims}
use buildpulse_mcp.Oauth.Model.{AuthorizationCode, PendingAuth}
use buildpulse_mcp.Oauth.Store.Contract.{View, Contract, Within, stamped_code}
use buildpulse_mcp.Oauth.Sessions.{hash_token_b64}
use buildpulse_mcp.Oauth.Server.{OauthServer, World, Call, value}
use buildpulse_mcp.Oauth.Register.{RegisterRequest, new_client, register}
use buildpulse_mcp.Oauth.Register.Outcome.{refused, unsaved, registered, registering_cases}
use buildpulse_mcp.Oauth.Authorize.{hop_record, authorize}
use buildpulse_mcp.Oauth.Authorize.Hop
use buildpulse_mcp.Oauth.Callback.{callback}
use buildpulse_mcp.Oauth.Callback.Stage
use buildpulse_mcp.Oauth.Consent.{granted_code, deciding, consent}
use buildpulse_mcp.Oauth.Consent.Decision
use buildpulse_mcp.Oauth.Token.{
  first_refresh, grant_code, renew, rotated, token_authorization_code, token_refresh, token,
}
use buildpulse_mcp.Oauth.Token.Exchange.{granting, exchanging_cases}
use buildpulse_mcp.Oauth.Token.Refresh
use buildpulse_mcp.Oauth.Revoke.{revoke}
use buildpulse_mcp.Oauth.Revoke.Complete.{revoke-without, revoke_without_token}
use buildpulse_mcp.Oauth.System.{
  Request, to_register, to_authorize, to_callback, to_consent, to_token, to_revoke, handle,
}

module _ {S D : Type 0} (lib : Library) (srv : OauthServer S D) (v : View S)
    (ct : Contract srv.store v) (call : Call) where
  -- No code is added.
  abbrev pub AddsNone : S → S → Type 0
  AddsNone s t = Within (v.codes s) (v.codes t)

  register-AddsNone :
      (xff remote : Text) (body : Option RegisterRequest) (w : World S D)
      → AddsNone w.store (register lib srv call xff remote body w).1.store
  unfolding register
  register-AddsNone xff remote body w k a =
      elim (registering_cases lib srv call xff remote body w) [
        | refused r _ same ↦ rw same (λ h. h)
        | unsaved req _ _ _ e ↦
            rw (e, (ct.put_client_codes w.store (new_client lib srv call req)).at k) (λ h. h)
        | registered req _ _ _ _ _ e ↦
            rw (e, (ct.put_client_codes w.store (new_client lib srv call req)).at k) (λ h. h)
      ]

  authorize-AddsNone :
      (q : Map Text) (w : World S D) → AddsNone w.store (authorize lib srv call q w).1.store
  unfolding authorize
  authorize-AddsNone q w k a = elim (Hop.authorizing_cases lib srv call q w) [
    | Hop.refused r _ h ↦ rw h (λ g. g)
    | Hop.unsaved c r _ _ _ h ↦
        rw (h, (ct.put_pending_codes w.store _ (hop_record lib srv call q)).at k) (λ g. g)
    | Hop.sent c _ _ _ h ↦
        rw (h, (ct.put_pending_codes w.store _ (hop_record lib srv call q)).at k) (λ g. g)
  ]

  callback-AddsNone :
      (q : Map Text) (w : World S D) → AddsNone w.store (callback lib srv call q w).1.store
  unfolding callback
  callback-AddsNone q w k a =
      let popped = (ct.pop_pending_codes w.store (value q "state")).at k in
      let staged = λ (p : PendingAuth) (claims : Claims) (upstream : Text).
        (ct.put_pending_codes (Stage.awaited lib srv call q w).1 (Stage.staged_key lib srv call q)
            (Stage.asked lib srv call q w p claims upstream)).at
          k in
      elim (Stage.calling_back_cases lib srv call q w) [
        | Stage.stopped r _ h ↦ rw h (λ g. g)
        | Stage.dropped r _ h ↦ rw (h, popped) (λ g. g)
        | Stage.unsaved p claims upstream _ h ↦ rw (h, staged p claims upstream, popped) (λ g. g)
        | Stage.asking p claims upstream _ h ↦ rw (h, staged p claims upstream, popped) (λ g. g)
      ]

  pub grant_code-AddsNone :
      (auth : AuthorizationCode) (w : World S D)
      → AddsNone w.store (grant_code lib srv call auth w).1.store
  unfolding grant_code
  grant_code-AddsNone auth w k a = elim (Bool-cases (is_empty auth.cognito_refresh_enc)) [
    | inl bare ↦ rw bare (λ h. h)
    | inr full ↦
        rw (full, (ct.put_refresh_codes w.store (first_refresh lib srv call auth)).at k) (λ h. h)
  ]

  pub exchange-AddsNone :
      (form : Map Text) (w : World S D)
      → AddsNone
          (srv.store.pop_code w.store (value form "code")).1
          (token_authorization_code lib srv call form w).1.store
  unfolding token_authorization_code
  exchange-AddsNone form w k a = elim (exchanging_cases lib srv call form w) [
    | inl (_, (_, h)) ↦ rw h (λ g. g)
    | inr (auth, _, inl (_, (_, h))) ↦ rw h (λ g. g)
    | inr (auth, _, inr (_, h)) ↦
        rw h (grant_code-AddsNone auth (granting lib srv call form w auth) k a)
  ]

  refresh-AddsNone :
      (form : Map Text) (w : World S D)
      → AddsNone w.store (token_refresh lib srv call form w).1.store
  unfolding token_refresh renew
  refresh-AddsNone form w k a =
      let popped =
        (ct.pop_refresh_codes w.store (hash_token_b64 lib (value form "refresh_token"))).at k in
      elim (Refresh.refreshing_cases lib srv call form w) [
        | inl (Refresh.missing _ h) ↦ rw h (λ g. g)
        | inl (Refresh.refused _ _ h) ↦ rw (h, popped) (λ g. g)
        | inr (rt, claims, (_, _, _, h)) ↦
            rw
              (
                h,
                (ct.put_refresh_codes (Refresh.taken_by lib srv call form w).1
                      (rotated lib srv call (Refresh.after_pop lib srv call form w) rt claims)).at
                    k,
                popped,
              )
              (λ g. g)
      ]

  token-AddsNone :
      (form : Option (Map Text)) (w : World S D)
      → AddsNone w.store (token lib srv call form w).1.store
  unfolding token
  token-AddsNone none w k a = λ h. h
  token-AddsNone (some form) w k a =
      elim (Bool-cases (value form "grant_type" == codes "authorization_code")) [
        | inl exchanges ↦ rw exchanges (λ h.
            ct.pop_code_within w.store (value form "code") k a (exchange-AddsNone form w k a h))
        | inr other ↦ elim (Bool-cases (value form "grant_type" == codes "refresh_token")) [
          | inl refreshes ↦ rw (other, refreshes) (refresh-AddsNone form w k a)
          | inr unknown ↦ rw (other, unknown) (λ h. h)
        ]
      ]

  revoke-AddsNone :
      (form : Option (Map Text)) (w : World S D) → AddsNone w.store (revoke lib srv form w).1.store
  unfolding revoke
  revoke-AddsNone none w k a = λ h. h
  revoke-AddsNone (some form) w k a = elim (Bool-cases (is_empty (value form "token"))) [
    | inl bare ↦
        rw (revoke_without_token lib srv form w ((is_empty_iff (value form "token")).0 bare))
          (λ h. h)
    | inr given ↦
        rw
          (
            revoke-without lib srv form w (ground (arith, is_empty_iff (value form "token"))),
            (ct.pop_refresh_codes w.store _).at k,
          )
          (λ h. h)
  ]

  -- The user approved the record `p`, and `a` is its code as the store keeps it, under `k`.
  pub record IsApproved (form : Map Text) (w : World S D) (k : Text) (a : AuthorizationCode)
      : Type 0 where
    pub p : PendingAuth
    pub decidable : Decision.IsDecidable lib srv call form w p
    pub approves : value form "action" ≡ codes "approve"
    pub keyed : k ≡ (granted_code lib srv call p).code
    pub same : a ≡ stamped_code v (granted_code lib srv call p)

  coded-codes :
      (form : Map Text) (w : World S D) (p : PendingAuth) (k : Text) (a : AuthorizationCode)
      → Decision.IsDecidable lib srv call form w p
      → value form "action" ≡ codes "approve"
      → v.codes (Decision.coded lib srv call form w p).1 k ≡ some a
      → (v.codes w.store k ≡ some a) ⊎ IsApproved form w k a
  coded-codes form w p k a may approves h =
      let popped = (ct.pop_pending_codes w.store (Decision.decision_key lib srv call form)).at k in
      elim (ct.put_code_adds (Decision.decided lib srv call form w).1 (granted_code lib srv call p)
        k a h) [
          | inl old ↦ inl (rw (← popped) old)
          | inr (keyed, same) ↦
              inr
                (record { keyed = keyed; p = p; decidable = may; approves = approves; same = same })
        ]

  consent-codes :
      (form : Map Text) (w : World S D) (k : Text) (a : AuthorizationCode)
      → v.codes (consent lib srv call (some form) w).1.store k ≡ some a
      → (v.codes w.store k ≡ some a) ⊎ IsApproved form w k a
  unfolding consent
  consent-codes form w k a =
      let popped = (ct.pop_pending_codes w.store (Decision.decision_key lib srv call form)).at k in
      elim (Decision.deciding_cases lib srv call form w) [
        | Decision.stopped r _ h ↦ rw h (λ g. inl g)
        | Decision.dropped r _ h ↦ rw (h, popped) (λ g. inl g)
        | Decision.denied p _ _ h ↦ rw (h, popped) (λ g. inl g)
        | Decision.unsaved p may approves h ↦ rw h (coded-codes form w p k a may approves)
        | Decision.approved p may approves _ h ↦ rw h (coded-codes form w p k a may approves)
      ]

  -- With a store that keeps its contract, whatever request is served: a code in the store was there before, or the request is a consent
  -- form whose action is "approve", on a record that was staged under its key, is not expired and
  -- whose client still has the redirect URI, and the code carries the user, the redirect URI and
  -- the challenge of that record.
  pub code_needs_approval :
      (req : Request) (w : World S D) (k : Text) (a : AuthorizationCode)
      → v.codes (handle lib srv call req w).1.store k ≡ some a
      → (v.codes w.store k ≡ some a)
        ⊎ ((form : Map Text) × (req ≡ to_consent (some form)) × IsApproved form w k a)
  unfolding handle consent deciding
  code_needs_approval (to_register xff remote body) w k a h =
      inl (register-AddsNone xff remote body w k a h)
  code_needs_approval (to_authorize q) w k a h = inl (authorize-AddsNone q w k a h)
  code_needs_approval (to_callback q) w k a h = inl (callback-AddsNone q w k a h)
  code_needs_approval (to_consent none) w k a h = inl h
  code_needs_approval (to_consent (some form)) w k a h = elim (consent-codes form w k a h) [
    | inl old ↦ inl old
    | inr approved ↦ inr (form, refl, approved)
  ]
  code_needs_approval (to_token form) w k a h = inl (token-AddsNone form w k a h)
  code_needs_approval (to_revoke form) w k a h = inl (revoke-AddsNone form w k a h)
