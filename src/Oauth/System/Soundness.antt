-- ===== src/Oauth/System/Soundness.antt =====
-- What holds of the four tables at any time, and that each method of the store keeps it.
use buildpulse_mcp.Common.{◌≡◌, ◌≢◌, inl, inr, Text, [], some}
use buildpulse_mcp.Library.{Library}
use buildpulse_mcp.Oauth.Model.{RegisteredClient, AuthorizationCode, PendingAuth, RefreshToken}
use buildpulse_mcp.Oauth.Store.{Store}
use buildpulse_mcp.Oauth.Store.Contract.{View, Contract}
use buildpulse_mcp.Oauth.Guard.Safety.{IsSafeUri, IsRegistrable}

module _ (lib : Library) where
  -- The browser can be sent to the URI with a code, and the code needs a verifier.
  abbrev pub IsBound : Text → Text → Type 0
  IsBound uri challenge = IsSafeUri lib uri × (challenge ≢ [])

  -- Every client could be registered, and every pending request and every code is bound to a safe
  -- URI and to a challenge.
  pub record IsSound {S : Type 0} (v : View S) (s : S) : Type 0 where
    pub clients :
        (k : Text) (c : RegisteredClient)
        → v.clients s k c
        → IsRegistrable lib c.client_name c.redirect_uris
    pub pending :
        (k : Text) (p : PendingAuth)
        → v.pending s k ≡ some p
        → IsBound p.redirect_uri p.code_challenge
    pub codes :
        (k : Text) (c : AuthorizationCode)
        → v.codes s k ≡ some c
        → IsBound c.redirect_uri c.code_challenge

module _ {S : Type 0} (lib : Library) (db : Store S) (v : View S) (ct : Contract db v) (s : S)
    (sound : IsSound lib v s) where
  pub put_client-IsSound :
      (c : RegisteredClient)
      → IsRegistrable lib c.client_name c.redirect_uris
      → IsSound lib v (db.put_client s c).1
  put_client-IsSound c fine = record {
    clients = λ k r h. elim (ct.put_client_adds s c r k h) [
      | inl old ↦ sound.clients k r old
      | inr (_, same) ↦ rw same fine
    ];
    pending = λ k p h. sound.pending k p (rw (← (ct.put_client_pending s c).at k) h);
    codes = λ k a h. sound.codes k a (rw (← (ct.put_client_codes s c).at k) h);
  }

  pub put_code-IsSound :
      (c : AuthorizationCode)
      → IsBound lib c.redirect_uri c.code_challenge
      → IsSound lib v (db.put_code s c).1
  put_code-IsSound c bound = record {
    clients = λ k r h. sound.clients k r (((ct.put_code_clients s c).at k r).0 h);
    pending = λ k p h. sound.pending k p (rw (← (ct.put_code_pending s c).at k) h);
    codes = λ k a h. elim (ct.put_code_adds s c k a h) [
      | inl old ↦ sound.codes k a old
      | inr (_, same) ↦ rw same bound
    ];
  }

  pub put_pending-IsSound :
      (key : Text) (p : PendingAuth)
      → IsBound lib p.redirect_uri p.code_challenge
      → IsSound lib v (db.put_pending s key p).1
  put_pending-IsSound key p bound = record {
    clients = λ k r h. sound.clients k r (((ct.put_pending_clients s key p).at k r).0 h);
    pending = λ k a h. elim (ct.put_pending_adds s key p k a h) [
      | inl old ↦ sound.pending k a old
      | inr (_, same) ↦ rw same bound
    ];
    codes = λ k a h. sound.codes k a (rw (← (ct.put_pending_codes s key p).at k) h);
  }

  pub put_refresh-IsSound : (r : RefreshToken) → IsSound lib v (db.put_refresh s r).1
  put_refresh-IsSound r = record {
    clients = λ k c h. sound.clients k c (((ct.put_refresh_clients s r).at k c).0 h);
    pending = λ k p h. sound.pending k p (rw (← (ct.put_refresh_pending s r).at k) h);
    codes = λ k a h. sound.codes k a (rw (← (ct.put_refresh_codes s r).at k) h);
  }

  pub pop_code-IsSound : (key : Text) → IsSound lib v (db.pop_code s key).1
  pop_code-IsSound key = record {
    clients = λ k c h. sound.clients k c (((ct.pop_code_clients s key).at k c).0 h);
    pending = λ k p h. sound.pending k p (rw (← (ct.pop_code_pending s key).at k) h);
    codes = λ k a h. sound.codes k a (ct.pop_code_within s key k a h);
  }

  pub pop_pending-IsSound : (key : Text) → IsSound lib v (db.pop_pending s key).1
  pop_pending-IsSound key = record {
    clients = λ k c h. sound.clients k c (((ct.pop_pending_clients s key).at k c).0 h);
    pending = λ k p h. sound.pending k p (ct.pop_pending_within s key k p h);
    codes = λ k a h. sound.codes k a (rw (← (ct.pop_pending_codes s key).at k) h);
  }

  pub pop_refresh-IsSound : (key : Text) → IsSound lib v (db.pop_refresh s key).1
  pop_refresh-IsSound key = record {
    clients = λ k c h. sound.clients k c (((ct.pop_refresh_clients s key).at k c).0 h);
    pending = λ k p h. sound.pending k p (rw (← (ct.pop_refresh_pending s key).at k) h);
    codes = λ k a h. sound.codes k a (rw (← (ct.pop_refresh_codes s key).at k) h);
  }
