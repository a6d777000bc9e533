-- ===== src/Oauth/System/Traces.antt =====
-- What holds after any number of requests.
use buildpulse_mcp.Common.{◌≡◌, inl, inr, Text, Map, some, List, arith}
use buildpulse_mcp.Library.{Library}
use buildpulse_mcp.Oauth.Model.{PendingAuth}
use buildpulse_mcp.Oauth.Store.Contract.{View, Contract}
use buildpulse_mcp.Oauth.Guard.Safety.{IsSafeUri}
use buildpulse_mcp.Oauth.Destination.{append_query}
use buildpulse_mcp.Oauth.Server.{OauthServer, World, Call, redirect}
use buildpulse_mcp.Oauth.Consent.{denial, denial_params, approval, approval_params, consent}
use buildpulse_mcp.Oauth.Consent.Decision
use buildpulse_mcp.Oauth.System.{
  Request, to_register, to_authorize, to_callback, to_consent, to_token, to_revoke, handle, Reach,
  start, next,
}
use buildpulse_mcp.Oauth.System.Soundness.{IsSound}
use buildpulse_mcp.Oauth.System.Handlers.{
  register-IsSound, authorize-IsSound, callback-IsSound, consent-IsSound, token-IsSound,
  revoke-IsSound,
}

module _ {S D : Type 0} (lib : Library) (srv : OauthServer S D) (v : View S)
    (ct : Contract srv.store v) where
  -- Every request keeps the tables sound: clients stay registrable, and every pending request and
  -- every code is bound to a safe redirect URI and a challenge.
  pub handle-IsSound :
      (call : Call) (req : Request) (w : World S D)
      → IsSound lib v w.store
      → IsSound lib v (handle lib srv call req w).1.store
  unfolding handle
  handle-IsSound call (to_register xff remote body) w sound =
      register-IsSound lib srv v ct call w sound xff remote body
  handle-IsSound call (to_authorize q) w sound = authorize-IsSound lib srv v ct call w sound q
  handle-IsSound call (to_callback q) w sound = callback-IsSound lib srv v ct call w sound q
  handle-IsSound call (to_consent form) w sound = consent-IsSound lib srv v ct call w sound form
  handle-IsSound call (to_token form) w sound = token-IsSound lib srv v ct call form w sound
  handle-IsSound call (to_revoke form) w sound = revoke-IsSound lib srv v ct call form w sound

  -- With a store that keeps its contract, every state that any row of requests leads to from a sound
  -- one is sound: each client has one to five redirect URIs, all safe, and a short name, and each
  -- pending request and each code is bound to a safe redirect URI and to a PKCE challenge.
  pub Reach-IsSound :
      {w w' : World S D} → Reach lib srv w w' → IsSound lib v w.store → IsSound lib v w'.store
  Reach-IsSound start sound = sound
  Reach-IsSound (next call req r) sound = handle-IsSound call req _ (Reach-IsSound r sound)

  -- Where a decision sends the browser.
  pub record Destination (w : World S D) (url : Text) : Type 0 where
    pub uri : Text
    pub params : List (Text × Text)
    pub safe : IsSafeUri lib uri
    pub at_uri : url ≡ append_query lib uri params

  decidable_safe :
      (call : Call) (form : Map Text) (w : World S D) (p : PendingAuth)
      → IsSound lib v w.store
      → Decision.IsDecidable lib srv call form w p
      → IsSafeUri lib p.redirect_uri
  decidable_safe call form w p sound may =
      let key = Decision.decision_key lib srv call form in
      (sound.pending key p (ct.pop_pending_takes w.store key p may.taken).0).0

  -- With a store that keeps its contract, and in a sound state: whatever a consent form decides, a
  -- redirect goes to a redirect URI that
  -- registration accepts, with a query appended.
  pub consent_redirect_safe :
      (call : Call) (form : Map Text) (w : World S D) (url : Text)
      → IsSound lib v w.store
      → (consent lib srv call (some form) w).0 ≡ redirect url
      → Destination w url
  unfolding consent denial approval
  consent_redirect_safe call form w url sound e =
      elim (Decision.deciding_cases lib srv call form w) [
        | Decision.stopped r (inl (_, _, _, is_error)) h ↦ absurd (ground arith)
        | Decision.stopped r (inr (_, _, is_error)) h ↦ absurd (ground arith)
        | Decision.dropped r (inl (_, _, _, is_error)) h ↦ absurd (ground arith)
        | Decision.dropped r (inr (_, _, is_error)) h ↦ absurd (ground arith)
        | Decision.denied p may _ h ↦ record {
          uri = p.redirect_uri;
          params = denial_params lib srv call p;
          safe = decidable_safe call form w p sound may;
          at_uri = cc;
        }
        | Decision.unsaved p may _ h ↦ absurd (ground arith)
        | Decision.approved p may _ _ h ↦ record {
          uri = p.redirect_uri;
          params = approval_params lib srv call p;
          safe = decidable_safe call form w p sound may;
          at_uri = cc;
        }
      ]
