-- ===== src/McpServer/Prompts/Answers.antt =====
-- What the prompts answer, against the arguments that they declare.
use buildpulse_mcp.Common.{
  ◌≡◌, ◌⊎◌, inl, inr, refl, Text, codes, Map, is_empty, Bool, Bool-cases, true, false, ◌&&◌, ◌||◌,
  List, [], ◌∷◌, ◌++◌, Result, ok, err, if◌then◌else◌, All, any, contains_text, has_prefix,
  has_prefix-append, has_prefix-rest, append_assoc, append-nil, subst, arith,
}
use buildpulse_mcp.McpServer.Prompts.{
  GetPromptResult, PromptArgument, Prompt, argument, org_phrase, repo_phrase,
  estimate_runner_savings, triage_flaky_tests, ci_health_check, explain_test_failure, whats_red,
  prompts,
}
use buildpulse_mcp.McpServer.Prompts.Texts.{
  concat_texts, estimate_runner_savings_text, triage_flaky_tests_text, ci_health_check_text,
  explain_test_failure_text, whats_red_text,
}

-- A required argument is missing or empty.
unfoldable pub lacks : Map Text → List PromptArgument → Bool
lacks args declared = any (λ a. a.required && is_empty (argument args a.name)) declared

-- The value, if it is not empty, is in the text.
abbrev pub Names : Text → Text → Type 0
Names text v = (is_empty v || contains_text text v) ≡ true

abbrev pub Answers : Map Text → Prompt → Type 0
Answers args p =
    ((lacks args p.arguments ≡ true) × ((e : Text) × (p.handler args ≡ err e)))
    ⊎ ((lacks args p.arguments ≡ false)
        × ((r : GetPromptResult) × (p.handler args ≡ ok r)
            × All (λ a. Names r.text (argument args a.name)) p.arguments))

contains_first : (v rest : Text) → Names (v ++ rest) v
unfolding contains_text
contains_first [] rest = refl
contains_first (x ∷ v) rest = ground (arith, has_prefix-append (x ∷ v) rest)

contains_after : (before rest v : Text) → Names rest v → Names (before ++ rest) v
unfolding contains_text
contains_after [] rest v h = h
contains_after (x ∷ before) rest v h = ground (arith, contains_after before rest v h)

has_prefix_before :
    (front rest v : Text) → has_prefix front v ≡ true → has_prefix (front ++ rest) v ≡ true
has_prefix_before front rest v h =
    let (t, e) = has_prefix-rest front v h in
    rw (e, append_assoc v t rest) (has_prefix-append v (t ++ rest))

contains_before : (front rest v : Text) → Names front v → Names (front ++ rest) v
unfolding contains_text
contains_before [] rest [] h = refl
contains_before [] rest (y ∷ v) h = absurd (cc)
contains_before (x ∷ front) rest v h = elim (Bool-cases (has_prefix (x ∷ front) v)) [
  | inl starts ↦ ground (arith, has_prefix_before (x ∷ front) rest v starts)
  | inr other ↦ ground (arith, contains_before front rest v (ground arith))
]

org_phrase-Names : (org_id : Text) → Names (org_phrase org_id) org_id
unfolding org_phrase
org_phrase-Names [] = refl
org_phrase-Names (x ∷ v) =
    contains_after (codes " with `organization_id=\"") ((x ∷ v) ++ codes "\"`") (x ∷ v)
      (contains_first (x ∷ v) (codes "\"`"))

repo_phrase-Names : (repo org_arg : Text) → Names (repo_phrase repo org_arg) repo
unfolding repo_phrase
repo_phrase-Names [] org_arg = refl
repo_phrase-Names (x ∷ v) org_arg =
    contains_after (codes "use the repository **") ((x ∷ v) ++ codes "**") (x ∷ v)
      (contains_first (x ∷ v) (codes "**"))

abbrev OneNames : Text → List Text → Type 0
OneNames v [] = ⊥
OneNames v (p ∷ ps) = Names p v ⊎ OneNames v ps

-- A text names what one of its pieces names.
pieces-Names : (ps : List Text) (v : Text) → OneNames v ps → Names (concat_texts ps) v
unfolding concat_texts
pieces-Names [] v one = absurd one
pieces-Names (p ∷ ps) v (inl h) = contains_before p (concat_texts ps) v h
pieces-Names (p ∷ ps) v (inr one) = contains_after p (concat_texts ps) v (pieces-Names ps v one)

itself-Names : (v : Text) → Names v v
itself-Names v = subst (λ t. Names t v) (append-nil v) (contains_first v [])

estimate-Names :
    (org_id repo : Text)
    → (let text =
          estimate_runner_savings_text (org_phrase org_id) (repo_phrase repo (org_phrase org_id)) in
        Names text org_id × Names text repo)
unfolding estimate_runner_savings_text
estimate-Names org_id repo = (
  pieces-Names _ org_id (inr (inl (org_phrase-Names org_id))),
  pieces-Names _ repo
      (inr (inr (inr (inr (inr (inr (inr (inl (repo_phrase-Names repo (org_phrase org_id)))))))))),
)

triage-Names : (repo : Text) → Names (triage_flaky_tests_text repo) repo
unfolding triage_flaky_tests_text
triage-Names repo = pieces-Names _ repo (inr (inl (itself-Names repo)))

ci_health_check-Names : (repo : Text) → Names (ci_health_check_text repo) repo
unfolding ci_health_check_text
ci_health_check-Names repo = pieces-Names _ repo (inr (inl (itself-Names repo)))

explain_test_failure-Names : (test_id : Text) → Names (explain_test_failure_text test_id) test_id
unfolding explain_test_failure_text
explain_test_failure-Names test_id = pieces-Names _ test_id (inr (inl (itself-Names test_id)))

whats_red-Names :
    (owner name : Text)
    → Names (whats_red_text owner name) owner × Names (whats_red_text owner name) name
unfolding whats_red_text
whats_red-Names owner name = (
  pieces-Names _ owner (inr (inl (itself-Names owner))),
  pieces-Names _ name (inr (inr (inr (inl (itself-Names name))))),
)

abbrev refusing : Bool → Text → GetPromptResult → Result Text GetPromptResult
refusing test why r = if test then err why else ok r

-- A prompt that refuses exactly if a test holds.
refuses_or_names :
    (test : Bool) (why : Text) (r : GetPromptResult) (Named : Text → Type 0)
    → Named r.text
    → ((test ≡ true) × ((e : Text) × (refusing test why r ≡ err e)))
      ⊎ ((test ≡ false) × ((r' : GetPromptResult) × (refusing test why r ≡ ok r') × Named r'.text))
refuses_or_names true why r Named h = inl (refl, (why, refl))
refuses_or_names false why r Named h = inr (refl, (r, refl, h))

or-false : (b : Bool) → b || false ≡ b
or-false true = refl
or-false false = refl

-- Each prompt that the server registers, on any arguments: it answers with an error exactly if an argument
-- that it declares as required is missing or empty, and otherwise with a text in which the value of
-- every argument that it declares stands, if that is not empty.
pub prompts_answer : (args : Map Text) → All (Answers args) prompts
unfolding lacks estimate_runner_savings triage_flaky_tests ci_health_check explain_test_failure
    whats_red
prompts_answer args =
    let named = estimate-Names (argument args "organization_id") (argument args "repository") in
    let repo = argument args "repository" in
    let test_id = argument args "test_id" in
    let owner = argument args "owner" in
    let name = argument args "name" in
    (
      inr (refl, (_, refl, (named.0, (named.1, tt)))),
      (
        rw (or-false (is_empty repo)) (
            refuses_or_names (is_empty repo) _ _ (λ text. Names text repo × Unit)
              (triage-Names repo, tt)),
        (
          rw (or-false (is_empty repo)) (
              refuses_or_names (is_empty repo) _ _ (λ text. Names text repo × Unit)
                (ci_health_check-Names repo, tt)),
          (
            rw (or-false (is_empty test_id)) (
                refuses_or_names (is_empty test_id) _ _ (λ text. Names text test_id × Unit)
                  (explain_test_failure-Names test_id, tt)),
            (
              rw (or-false (is_empty name)) (
                  refuses_or_names (is_empty owner || is_empty name) _ _
                    (λ text. Names text owner × (Names text name × Unit))
                    ((whats_red-Names owner name).0, ((whats_red-Names owner name).1, tt))),
              tt,
            ),
          ),
        ),
      ),
    )
