-- ===== src/Oauth/System/SingleUse.antt =====
-- A code that was presented once is spent.
use buildpulse_mcp.Common.{◌≡◌, ◌≢◌, inl, inr, Text, Map, none, some, Option-cases, arith}
use buildpulse_mcp.Library.{Library}
use buildpulse_mcp.Oauth.Model.{AuthorizationCode}
use buildpulse_mcp.Oauth.Store.Contract.{View, Contract}
use buildpulse_mcp.Oauth.Server.{OauthServer, World, Call, TokenResponse, issued, value, random_hex}
use buildpulse_mcp.Oauth.Consent.{granted_code}
use buildpulse_mcp.Oauth.Token.{token_authorization_code}
use buildpulse_mcp.Oauth.Token.Exchange.{exchange_issues_iff}
use buildpulse_mcp.Oauth.System.{Request, handle}
use buildpulse_mcp.Oauth.System.Codes.{exchange-AddsNone, code_needs_approval}

module _ {S D : Type 0} (lib : Library) (srv : OauthServer S D) where
  -- A trace in which no consent draws the code `k` again.
  pub data ReachWithout (k : Text) : World S D → World S D → Type 0 where
    start_without : {w : World S D} → ReachWithout k w w
    next_without :
        {w w' : World S D} (call : Call) (req : Request)
        → random_hex lib call 0 32 ≢ k
        → ReachWithout k w w'
        → ReachWithout k w (handle lib srv call req w').1

module _ {S D : Type 0} (lib : Library) (srv : OauthServer S D) (v : View S)
    (ct : Contract srv.store v) (k : Text) where
  -- No code is stored under `k`.
  abbrev pub IsSpent : World S D → Type 0
  IsSpent w = v.codes w.store k ≡ none

  -- A request adds no code `k` if it does not draw it.
  pub handle-AddsNone :
      (call : Call) (req : Request) (w : World S D) (a : AuthorizationCode)
      → random_hex lib call 0 32 ≢ k
      → v.codes (handle lib srv call req w).1.store k ≡ some a
      → v.codes w.store k ≡ some a
  unfolding granted_code
  handle-AddsNone call req w a other found =
      elim (code_needs_approval lib srv v ct call req w k a found) [
        | inl old ↦ old
        | inr (form, _, approved) ↦ absurd (other (cc approved.keyed))
      ]

  handle-IsSpent :
      (call : Call) (req : Request) (w : World S D)
      → random_hex lib call 0 32 ≢ k
      → IsSpent w
      → IsSpent (handle lib srv call req w).1
  handle-IsSpent call req w other spent =
      elim (Option-cases (v.codes (handle lib srv call req w).1.store k)) [
        | inl gone ↦ gone
        | inr (a, found) ↦ absurd (cc (handle-AddsNone call req w a other found))
      ]

  Reach-IsSpent : {w w' : World S D} → ReachWithout lib srv k w w' → IsSpent w → IsSpent w'
  Reach-IsSpent start_without spent = spent
  Reach-IsSpent (next_without call req other r) spent =
      handle-IsSpent call req _ other (Reach-IsSpent r spent)

  presented-IsSpent :
      (call : Call) (form : Map Text) (w : World S D) (r : TokenResponse)
      → value form "code" ≡ k
      → (token_authorization_code lib srv call form w).0 ≡ issued r
      → IsSpent (token_authorization_code lib srv call form w).1
  presented-IsSpent call form w r same issues =
      let (auth, popped, _) = (exchange_issues_iff lib srv call form w).0 (r, issues) in
      let (_, gone) = ct.pop_code_takes w.store (value form "code") auth popped in
      elim (Option-cases (v.codes (token_authorization_code lib srv call form w).1.store k)) [
        | inl none_left ↦ none_left
        | inr (a, found) ↦
            let left = exchange-AddsNone lib srv v ct call form w k a found in
            absurd (ground (same, gone, left, arith))
      ]

  refused_when_spent :
      (call : Call) (form : Map Text) (w : World S D) (r : TokenResponse)
      → value form "code" ≡ k
      → IsSpent w
      → (token_authorization_code lib srv call form w).0 ≢ issued r
  refused_when_spent call form w r same spent issues =
      let (auth, popped, _) = (exchange_issues_iff lib srv call form w).0 (r, issues) in
      let (stored, _) = ct.pop_code_takes w.store (value form "code") auth popped in
      ground (same, stored, spent, arith)

  -- With a store that keeps its contract, a code is exchanged at most once: after a token was issued for it, and any requests in which no
  -- consent happens to draw the same random code, the same code is not exchanged again, whoever
  -- presents it and with whatever verifier.
  pub code_exchanged_once :
      (call call' : Call) (form form' : Map Text) (w w' : World S D) (r r' : TokenResponse)
      → value form "code" ≡ k
      → (token_authorization_code lib srv call form w).0 ≡ issued r
      → ReachWithout lib srv k (token_authorization_code lib srv call form w).1 w'
      → value form' "code" ≡ k
      → (token_authorization_code lib srv call' form' w').0 ≢ issued r'
  code_exchanged_once call call' form form' w w' r r' same issues reach same' =
      refused_when_spent call' form' w' r' same'
        (Reach-IsSpent reach (presented-IsSpent call form w r same issues))
