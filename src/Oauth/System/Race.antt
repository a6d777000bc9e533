-- ===== src/Oauth/System/Race.antt =====
-- Exchanges of one authorization code that run at the same time: their pieces (Oauth/Token/Steps)
-- come in any order, with whole requests of other kinds between them.
use buildpulse_mcp.Common.{
  ℕ, zero, suc, ◌+◌, ◌≤◌, ◌≡◌, ◌≢◌, inl, inr, refl, Text, Map, Option, none, some, Option-cases,
  Result-cases, List, [], ◌∷◌, map, All, arith,
}
use buildpulse_mcp.Library.{Library}
use buildpulse_mcp.Oauth.Model.{AuthorizationCode}
use buildpulse_mcp.Oauth.Store.Contract.{View, Contract}
use buildpulse_mcp.Oauth.Server.{
  OauthServer, World, Call, Response, issued, value, random_hex, first_answer,
}
use buildpulse_mcp.Oauth.Token.{code_tests, grant_code}
use buildpulse_mcp.Oauth.Token.Steps.{Stage, arrived, holding, tested, replied, Exchange, advance}
use buildpulse_mcp.Oauth.System.{Request, handle}
use buildpulse_mcp.Oauth.System.Codes.{grant_code-AddsNone}
use buildpulse_mcp.Oauth.System.SingleUse.{handle-AddsNone}

-- A request that has just come in.
abbrev pub arrive : Call × Map Text → Exchange
arrive c = record { call = c.0; form = c.1; stage = arrived }

-- 1 for the answer that carries tokens.
abbrev pub counted : Response → ℕ
counted (issued r) = 1
counted r = 0

abbrev issued_at : Stage → ℕ
issued_at (replied r) = counted r
issued_at st = 0

-- The exchanges that were answered with tokens.
abbrev pub issued_count : List Exchange → ℕ
issued_count [] = 0
issued_count (e ∷ es) = issued_at e.stage + issued_count es

module _ {S D : Type 0} (lib : Library) (srv : OauthServer S D) where
  abbrev moved : Exchange → List Exchange → Stage × World S D → List Exchange × World S D
  moved e es r = (record e { stage = r.0 } ∷ es, r.1)

  -- The i-th exchange does its next piece.
  unfoldable pub advance_at : ℕ → List Exchange → World S D → List Exchange × World S D
  advance_at i [] w = ([], w)
  advance_at zero (e ∷ es) w = moved e es (advance lib srv e.call e.form e.stage w)
  advance_at (suc i) (e ∷ es) w = let r = advance_at i es w in (e ∷ r.0, r.1)

  -- The pieces of the exchanges in any order, and between them any requests that do not draw `k`.
  pub data Interleaves (k : Text) (es : List Exchange) (w : World S D)
      : List Exchange → World S D → Type 0 where
    begin : Interleaves k es w es w
    advances :
        {es' : List Exchange} {w' : World S D} (i : ℕ)
        → Interleaves k es w es' w'
        → Interleaves k es w (advance_at i es' w').0 (advance_at i es' w').1
    serves :
        {es' : List Exchange} {w' : World S D} (call : Call) (req : Request)
        → random_hex lib call 0 32 ≢ k
        → Interleaves k es w es' w'
        → Interleaves k es w es' (handle lib srv call req w').1

-- The claims on the code: an exchange that took it from the store, or was answered with tokens.
abbrev claims : Stage → ℕ
claims arrived = 0
claims (holding auth) = 1
claims (tested auth) = 1
claims (replied r) = counted r

abbrev all_claims : List Exchange → ℕ
all_claims [] = 0
all_claims (e ∷ es) = claims e.stage + all_claims es

abbrev occupied : Option AuthorizationCode → ℕ
occupied none = 0
occupied (some a) = 1

counted-le : (r : Response) → counted r ≤ 1
counted-le (issued t) = omega arith
counted-le _ = omega arith

occupied-le : (o : Option AuthorizationCode) → occupied o ≤ 1
occupied-le none = omega arith
occupied-le (some a) = omega arith

occupied_mono :
    (new old : Option AuthorizationCode)
    → ((a : AuthorizationCode) → new ≡ some a → old ≡ some a)
    → occupied new ≤ occupied old
occupied_mono none old keeps = omega arith
occupied_mono (some a) old keeps = rw (keeps a refl) (omega arith)

issued-claims : (es : List Exchange) → issued_count es ≤ all_claims es
issued-claims [] = omega arith
issued-claims (e ∷ es) = omega (arith, issued-claims es, issued_at-claims e.stage)
  where
    issued_at-claims : (st : Stage) → issued_at st ≤ claims st
    issued_at-claims arrived = omega arith
    issued_at-claims (holding auth) = omega arith
    issued_at-claims (tested auth) = omega arith
    issued_at-claims (replied r) = omega arith

all_claims-arrive : (cs : List (Call × Map Text)) → all_claims (map arrive cs) ≡ 0
all_claims-arrive [] = refl
all_claims-arrive (c ∷ cs) = omega (arith, all_claims-arrive cs)

module _ {S D : Type 0} (lib : Library) (srv : OauthServer S D) (v : View S)
    (ct : Contract srv.store v) (k : Text) where
  abbrev stored : World S D → ℕ
  stored w = occupied (v.codes w.store k)

  advance-claims :
      (call : Call) (form : Map Text) (st : Stage) (w : World S D)
      → value form "code" ≡ k
      → claims (advance lib srv call form st w).0 + stored (advance lib srv call form st w).1
        ≤ claims st + stored w
  unfolding advance
  advance-claims call form arrived w same =
      elim (Result-cases (srv.store.pop_code w.store (value form "code")).0) [
        | inl (e, missing) ↦
            let kept =
              occupied_mono (v.codes (srv.store.pop_code w.store (value form "code")).1 k)
                (v.codes w.store k) (ct.pop_code_within w.store (value form "code") k) in
            rw missing (omega (arith, kept))
        | inr (auth, taken) ↦
            let (there, gone) = ct.pop_code_takes w.store (value form "code") auth taken in
            let there' : v.codes w.store k ≡ some auth = cc in
            let gone' : v.codes (srv.store.pop_code w.store (value form "code")).1 k ≡ none = cc in
            rw (taken, there', gone') (omega arith)
      ]
  advance-claims call form (holding auth) w same =
      elim (Option-cases (first_answer (code_tests lib srv call form auth))) [
        | inl passed ↦ rw passed (omega arith)
        | inr (r, failed) ↦ rw failed (omega (arith, counted-le r))
      ]
  advance-claims call form (tested auth) w same =
      let kept =
        occupied_mono (v.codes (grant_code lib srv call auth w).1.store k) (v.codes w.store k)
          (grant_code-AddsNone lib srv v ct call auth w k) in
      omega (arith, kept, counted-le _)
  advance-claims call form (replied r) w same = omega arith

  abbrev Presents : Exchange → Type 0
  Presents e = value e.form "code" ≡ k

  advance_at-claims :
      (i : ℕ) (es : List Exchange) (w : World S D)
      → All Presents es
      → All Presents (advance_at lib srv i es w).0
        × (all_claims (advance_at lib srv i es w).0 + stored (advance_at lib srv i es w).1
            ≤ all_claims es + stored w)
  unfolding advance_at
  advance_at-claims i [] w same = (tt, omega arith)
  advance_at-claims zero (e ∷ es) w (same, others) =
      ((same, others), omega (arith, advance-claims e.call e.form e.stage w same))
  advance_at-claims (suc i) (e ∷ es) w (same, others) =
      let (still, le) = advance_at-claims i es w others in ((same, still), omega (arith, le))

  Interleaves-claims :
      {es : List Exchange} {w : World S D} {es' : List Exchange} {w' : World S D}
      → Interleaves lib srv k es w es' w'
      → All Presents es
      → All Presents es' × (all_claims es' + stored w' ≤ all_claims es + stored w)
  Interleaves-claims begin same = (same, omega arith)
  Interleaves-claims (advances {es' = es'} {w' = w'} i runs) same =
      let (still, le) = Interleaves-claims runs same in
      let (now, le') = advance_at-claims i es' w' still in (now, omega (arith, le, le'))
  Interleaves-claims (serves {es' = es'} {w' = w'} call req other runs) same =
      let (still, le) = Interleaves-claims runs same in
      let kept =
        occupied_mono (v.codes (handle lib srv call req w').1.store k) (v.codes w'.store k)
          (λ a. handle-AddsNone lib srv v ct k call req w' a other) in
      (still, omega (arith, le, kept))

  Presents-arrive :
      (cs : List (Call × Map Text))
      → All (λ c. value c.1 "code" ≡ k) cs
      → All Presents (map arrive cs)
  Presents-arrive [] h = tt
  Presents-arrive (c ∷ cs) (same, others) = (same, Presents-arrive cs others)

  -- With a store that keeps its contract, any number of exchanges that present the same code, whose
  -- calls of the store and of DocumentDB come in any order, with whole requests between them in which no
  -- consent draws that code again: at most one of them is answered with tokens.
  pub racing_exchanges_once :
      (cs : List (Call × Map Text)) (es : List Exchange) (w w' : World S D)
      → All (λ c. value c.1 "code" ≡ k) cs
      → Interleaves lib srv k (map arrive cs) w es w'
      → issued_count es ≤ 1
  racing_exchanges_once cs es w w' same runs =
      let (_, le) = Interleaves-claims runs (Presents-arrive cs same) in
      omega (arith, le, all_claims-arrive cs, issued-claims es, occupied-le (v.codes w.store k))
