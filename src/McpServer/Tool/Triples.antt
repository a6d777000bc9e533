-- ===== src/McpServer/Tool/Triples.antt =====
-- What a tool does to the session and what it returns, composed over its steps.
use buildpulse_mcp.Common.{
  ◌≡◌, refl, subst, inl, inr, Bool, true, false, if◌then◌else◌, Option, none, some, Result,
  Result-cases, ok, err,
}
use buildpulse_mcp.McpServer.Validate.{ValidationError}
use buildpulse_mcp.McpServer.Tool.{ToolError, Session, Tool, pure, fail, ◌>>=◌, check, check_none}

-- From a session with `Pre` the call leaves one with `Post`, and a value it returns has `Q`.
abbrev pub Triple :
    {A : Type 0} → (Session → Type 0) → Tool A → (Session → Type 0) → (A → Type 0) → Type 0
Triple {A} Pre t Post Q = (s : Session) → Pre s → Post (t s).1 × ((a : A) → (t s).0 ≡ ok a → Q a)

-- Each value is as good as another.
abbrev pub Any : {A : Type 0} → A → Type 0
Any a = Unit

module _ {Pre Post : Session → Type 0} (weaker : (s : Session) → Pre s → Post s) where
  pub pure-Triple : {A : Type 0} {Q : A → Type 0} (a : A) → Q a → Triple Pre (pure a) Post Q
  pure-Triple {Q} a q s h = (weaker s h, λ b e. subst Q (cc) q)

  pub fail-Triple :
      {A : Type 0} {Q : A → Type 0} (e : ToolError) → Triple Pre (fail {A = A} e) Post Q
  fail-Triple e s h = (weaker s h, λ b g. absurd (cc))

  -- A check changes nothing, so that what follows starts from the same session.
  pub check-Triple :
      {A B : Type 0} {Q : B → Type 0} (r : Result ValidationError A) (f : A → Tool B)
      → ((a : A) → r ≡ ok a → Triple Pre (f a) Post Q)
      → Triple Pre (check r >>= f) Post Q
  check-Triple (ok a) f k s h = k a refl s h
  check-Triple (err e) f k s h = (weaker s h, λ b g. absurd (cc))

  pub check_none-Triple :
      {B : Type 0} {Q : B → Type 0} (o : Option ValidationError) (t : Tool B)
      → Triple Pre t Post Q
      → Triple Pre (check_none o >>= λ _. t) Post Q
  check_none-Triple none t k s h = k s h
  check_none-Triple (some e) t k s h = (weaker s h, λ b g. absurd (cc))

pub bind-Triple :
    {A B : Type 0} {Pre Mid Post : Session → Type 0} {P : A → Type 0} {Q : B → Type 0} (m : Tool A)
    (f : A → Tool B)
    → ((s : Session) → Mid s → Post s)
    → Triple Pre m Mid P
    → ((a : A) → P a → Triple Mid (f a) Post Q)
    → Triple Pre (m >>= f) Post Q
bind-Triple m f weaker first rest s h =
    let (mid, value) = first s h in
    elim (Result-cases (m s).0) [
      | inl (e, fails) ↦ rw fails (weaker _ mid, λ b g. absurd (cc))
      | inr (a, returns) ↦ rw returns (rest a (value a returns) (m s).1 mid)
    ]

pub if-Triple :
    {A : Type 0} {Pre : Session → Type 0} (Post : Session → Type 0) (Q : A → Type 0) (b : Bool)
    (t u : Tool A)
    → (b ≡ true → Triple Pre t Post Q)
    → (b ≡ false → Triple Pre u Post Q)
    → Triple Pre (if b then t else u) Post Q
if-Triple Post Q true t u on_true on_false = on_true refl
if-Triple Post Q false t u on_true on_false = on_false refl
