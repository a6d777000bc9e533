-- ===== src/Remote/Bearer.antt =====
-- Which requests reach the MCP endpoint.
use buildpulse_mcp.Common.{
  ℕ, Result-cases, ◌≡◌, ◌≢◌, ◌⊎◌, ◌↔◌, inl, inr, refl, Text, codes, eq_iff, is_empty, is_empty_iff,
  trim_space, to_lower, contains_byte, eqb, eqb_iff, Option, none, some, Option-cases, Bool-cases,
  [], ◌∷◌, ◌++◌, false, ok, arith,
}
use buildpulse_mcp.Remote.{
  AuthError, cut_space, parts, extract_token, served, challenge, require_bearer,
}

cut_space-append :
    (s before after : Text)
    → cut_space s ≡ some (before, after)
    → (s ≡ before ++ b' ' ∷ after) × (contains_byte before b' ' ≡ false)
unfolding cut_space contains_byte
cut_space-append [] before after h = absurd (cc)
cut_space-append (c ∷ s) before after h = elim (Bool-cases (eqb c b' ')) [
  | inl space ↦
      let is_before : [] ≡ before = ground arith in
      let is_after : s ≡ after = ground arith in
      let is_space : c ≡ b' ' = ground (arith, eqb_iff c b' ') in
      rw (← is_before, ← is_after, is_space) (refl, refl)
  | inr other ↦ elim (Option-cases (cut_space s)) [
    | inl none_left ↦ absurd (ground arith)
    | inr ((b, a), found) ↦
        let is_before : c ∷ b ≡ before = ground arith in
        let is_after : a ≡ after = ground arith in
        let (whole, spaceless) = cut_space-append s b a found in
        rw (← is_before, ← is_after) (cc whole, ground arith)
  ]
]

-- The header is a scheme, a space and a credential: the scheme is "bearer" or "token" in any case
-- and has no space, and the credential is not blank.
pub record Presents (header token : Text) : Type 0 where
  pub scheme : Text
  pub credential : Text
  pub whole : trim_space header ≡ scheme ++ b' ' ∷ credential
  pub spaceless : contains_byte scheme b' ' ≡ false
  pub known : (to_lower scheme ≡ codes "bearer") ⊎ (to_lower scheme ≡ codes "token")
  pub is_token : token ≡ trim_space credential
  pub given : token ≢ []

cut_space-eq :
    (before after : Text)
    → contains_byte before b' ' ≡ false
    → cut_space (before ++ b' ' ∷ after) ≡ some (before, after)
unfolding cut_space contains_byte
cut_space-eq [] after h = refl
cut_space-eq (c ∷ before) after h = ground (arith, cut_space-eq before after)

parts-Presents :
    (header token : Text) (o : Option (Text × Text))
    → cut_space (trim_space header) ≡ o
    → parts o ≡ ok token
    → Presents header token
unfolding parts
parts-Presents header token none e h = absurd (cc)
parts-Presents header token (some (scheme, after)) e h =
    let (whole, spaceless) = cut_space-append (trim_space header) scheme after e in
    record {
      scheme = scheme;
      credential = after;
      whole = whole;
      spaceless = spaceless;
      known = ground (
        arith,
        eq_iff (to_lower scheme) (codes "bearer"),
        eq_iff (to_lower scheme) (codes "token"),
      );
      is_token = ground arith;
      given = ground (arith, is_empty_iff (trim_space after));
    }

parts-eq-ok :
    (header token : Text)
    → (p : Presents header token) → parts (some (p.scheme, p.credential)) ≡ ok token
unfolding parts
parts-eq-ok header token p = ground (
  arith,
  eq_iff (to_lower p.scheme) (codes "bearer"),
  eq_iff (to_lower p.scheme) (codes "token"),
  is_empty_iff (trim_space p.credential),
)

is_empty-append : (s : Text) (c : ℕ) (t : Text) → is_empty (s ++ c ∷ t) ≡ false
is_empty-append [] c t = refl
is_empty-append (d ∷ s) c t = refl

-- A token is taken from a header exactly if the header, without the space around it, is a scheme
-- "bearer" or "token" in any case, a space and a credential that is not blank; it is the credential
-- without the space around it.
pub extract_token_iff :
    (header token : Text) → (extract_token header ≡ ok token) ↔ Presents header token
unfolding extract_token
extract_token_iff header token = (
  λ h. parts-Presents header token (cut_space (trim_space header)) refl (ground arith),
  λ p.
      rw
        (
          p.whole,
          is_empty-append p.scheme b' ' p.credential,
          cut_space-eq p.scheme p.credential p.spaceless,
        )
        (parts-eq-ok header token p),
)

-- The handler behind the check is reached exactly by the requests whose header presents a token, and
-- every other is answered by a challenge that names the metadata document.
require_bearer_cases :
    {A : Type 0} (metadata header : Text) (next : A)
    → (((token : Text) × Presents header token)
        × (require_bearer metadata header next ≡ served next))
      ⊎ (((token : Text) → ¬ Presents header token)
          × ((e : AuthError) × (require_bearer metadata header next ≡ challenge metadata e)))
unfolding require_bearer
require_bearer_cases metadata header next = elim (Result-cases (extract_token header)) [
  | inl (e, refused) ↦
      inr (λ token p. absurd (cc (refused, (extract_token_iff header token).1 p)), (e, rw refused))
  | inr (token, taken) ↦ inl ((token, (extract_token_iff header token).0 taken), rw taken)
]
