-- ===== src/McpServer/Client/Cache.antt =====
-- How old a remembered list of organizations can be.
use buildpulse_mcp.Common.{
  ℕ, ◌+◌, ◌≤◌, ◌<◌, ◌≡◌, inl, inr, refl, subst, ltb, ◌&&◌, Bool-cases, true, List, Result,
  Result-cases, ok, err, arith,
}
use buildpulse_mcp.McpServer.Client.{orgs_cache_ttl, OrgsCache, cached_organizations}

module _ {A : Type 0} (AnsweredAt : ℕ → List A → Type 0) where
  -- The API gave the list less than a minute before `now`, or after it.
  abbrev pub IsRecent : ℕ → List A → Type 0
  IsRecent now orgs = (t : ℕ) × AnsweredAt t orgs × (now < t + orgs_cache_ttl)

  -- What is remembered was answered a minute before it expires.
  abbrev pub IsFaithful : OrgsCache A → Type 0
  IsFaithful c = c.cached ≡ true → (t : ℕ) × AnsweredAt t c.orgs × (c.expires ≡ t + orgs_cache_ttl)

  -- The list that is returned is one that the API answered, never a minute or more ago, and an error
  -- is returned only if the API was asked and failed; what is remembered afterwards is again an
  -- answer of the API, so that an error is never remembered.
  pub cached_organizations-IsRecent :
      {E : Type 0} (now later : ℕ) (fetched : Result E (List A)) (c : OrgsCache A)
      → now ≤ later
      → IsFaithful c
      → ((orgs : List A) → fetched ≡ ok orgs → AnsweredAt later orgs)
      → IsFaithful (cached_organizations now later fetched c).1
        × ((orgs : List A)
            → (cached_organizations now later fetched c).0 ≡ ok orgs
            → IsRecent now orgs)
        × ((e : E) → (cached_organizations now later fetched c).0 ≡ err e → fetched ≡ err e)
  unfolding cached_organizations
  cached_organizations-IsRecent now later fetched c before faithful answers =
      elim (Bool-cases (c.cached && ltb now c.expires)) [
        | inl hit ↦
            let (t, answer, expiry) = faithful (ground arith) in
            let soon : now < t + orgs_cache_ttl = ground arith in
            (
              rw hit faithful,
              λ orgs. rw hit (λ e. (t, subst (AnsweredAt t) (cc e) answer, soon)),
              λ e. rw hit (λ h. absurd (cc)),
            )
        | inr miss ↦ elim (Result-cases fetched) [
          | inl (e, fails) ↦ (
            rw (miss, fails) faithful,
            λ orgs. rw (miss, fails) (λ h. absurd (cc)),
            λ e'. rw (miss, fails) (λ h. cc h),
          )
          | inr (orgs, got) ↦
              let soon : now < later + orgs_cache_ttl = omega (arith, before) in
              (
                rw (miss, got) (λ is_cached. (later, answers orgs got, refl)),
                λ orgs'.
                    rw (miss, got)
                      (λ h. (later, subst (AnsweredAt later) (cc h) (answers orgs got), soon)),
                λ e'. rw (miss, got) (λ h. absurd (cc)),
              )
        ]
      ]
