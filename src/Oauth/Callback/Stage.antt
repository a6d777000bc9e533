-- ===== src/Oauth/Callback/Stage.antt =====
-- What /oauth/callback can do.
use buildpulse_mcp.Common.{
  ◌≤◌, ◌≡◌, refl, Text, is_empty, Map, ltb, ◌||◌, ◌++◌, false, Option, inl, inr, Option-cases,
  Bool-cases, Result, ok, err, Result-cases, arith,
}
use buildpulse_mcp.Library.{Library, Claims}
use buildpulse_mcp.Oauth.Model.{PendingAuth}
use buildpulse_mcp.Oauth.Store.{StoreError}
use buildpulse_mcp.Oauth.Cognito.{exchange_cognito_code}
use buildpulse_mcp.Oauth.Server.{OauthServer, World, Call, Response, value, random_hex}
use buildpulse_mcp.Oauth.Authorize.Hop.{IsOauthError}
use buildpulse_mcp.Oauth.Callback.{
  consent_prefix, missing_code_or_state, unknown_state, expired_request, failed_exchange,
  unsaved_state, consent_record, page, calling_back,
}

module _ {S D : Type 0} (lib : Library) (srv : OauthServer S D) (call : Call) (q : Map Text) where
  abbrev pub awaited : World S D → Result StoreError PendingAuth × S
  awaited w = srv.store.pop_pending w.store (value q "state")

  abbrev pub after_hop : World S D → World S D
  after_hop w = record w { store = (awaited w).1 }

  abbrev pub staged_key : Text
  staged_key = consent_prefix ++ random_hex lib call 0 32

  -- The user came back from Cognito in time with a code that Cognito exchanges.
  pub record IsAuthenticated (w : World S D) (p : PendingAuth) (claims : Claims) (upstream : Text)
      : Type 0 where
    pub taken : (awaited w).0 ≡ ok p
    pub in_time : call.now ≤ p.expires
    pub exchanged : exchange_cognito_code lib srv call (value q "code") ≡ ok (claims, upstream)

  abbrev pub asked : World S D → PendingAuth → Claims → Text → PendingAuth
  asked w p claims upstream = consent_record lib srv call (after_hop w) p claims upstream

  abbrev pub staged : World S D → PendingAuth → Claims → Text → Option StoreError × S
  staged w p claims upstream =
      srv.store.put_pending (awaited w).1 staged_key (asked w p claims upstream)

  abbrev pub after_staging : World S D → PendingAuth → Claims → Text → World S D
  after_staging w p claims upstream = record w { store = (staged w p claims upstream).1 }

  -- Everything that the callback can do.
  pub data Stage (w : World S D) : Type 0 where
    stopped : (r : Response) → IsOauthError r → calling_back lib srv call q w ≡ (err r, w) → Stage w
    dropped :
        (r : Response)
        → IsOauthError r
        → calling_back lib srv call q w ≡ (err r, after_hop w)
        → Stage w
    unsaved :
        (p : PendingAuth) (claims : Claims) (upstream : Text)
        → IsAuthenticated w p claims upstream
        → calling_back lib srv call q w ≡ (err unsaved_state, after_staging w p claims upstream)
        → Stage w
    asking :
        (p : PendingAuth) (claims : Claims) (upstream : Text)
        → IsAuthenticated w p claims upstream
        → calling_back lib srv call q w ≡ (
          ok (page lib srv call (asked w p claims upstream) (random_hex lib call 0 32)),
          after_staging w p claims upstream,
        )
        → Stage w

  in_time_cases :
      (w : World S D) (p : PendingAuth)
      → (is_empty (value q "code") || is_empty (value q "state")) ≡ false
      → (awaited w).0 ≡ ok p
      → ltb p.expires call.now ≡ false
      → Stage w
  unfolding calling_back
  in_time_cases w p given taken in_time =
      elim (Result-cases (exchange_cognito_code lib srv call (value q "code"))) [
        | inl (e, failed) ↦
            dropped (failed_exchange e) (_, _, _, refl) (rw (given, taken, in_time, failed))
        | inr ((claims, upstream), exchanged) ↦
            let came : IsAuthenticated w p claims upstream = record {
              taken = taken;
              in_time = ground arith;
              exchanged = exchanged;
            } in
            elim (Option-cases (staged w p claims upstream).0) [
              | inl kept ↦
                  asking p claims upstream came (rw (given, taken, in_time, exchanged, kept))
              | inr (e, lost) ↦
                  unsaved p claims upstream came (rw (given, taken, in_time, exchanged, lost))
            ]
      ]

  pub calling_back_cases : (w : World S D) → Stage w
  unfolding calling_back
  calling_back_cases w =
      elim (Bool-cases (is_empty (value q "code") || is_empty (value q "state"))) [
        | inl bare ↦ stopped missing_code_or_state (_, _, _, refl) (rw bare)
        | inr given ↦ elim (Result-cases (awaited w).0) [
          | inl (e, unknown) ↦ dropped unknown_state (_, _, _, refl) (rw (given, unknown))
          | inr (p, taken) ↦ elim (Bool-cases (ltb p.expires call.now)) [
            | inl late ↦ dropped expired_request (_, _, _, refl) (rw (given, taken, late))
            | inr in_time ↦ in_time_cases w p given taken in_time
          ]
        ]
      ]
