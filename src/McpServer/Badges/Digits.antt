-- ===== src/McpServer/Badges/Digits.antt =====
-- What the regular expression of a badge matches.
use buildpulse_mcp.Common.{
  ℕ, ◌≡◌, ◌≢◌, ◌⊎◌, inl, inr, refl, sym, ap, subst, ◌∙◌, Text, is_empty, is_empty_iff, has_prefix,
  has_prefix-rest, has_prefix-append, eqb, eqb_iff, true, false, Bool-cases, All, none, some,
  Option-cases, [], ◌∷◌, ◌++◌, append_assoc, arith,
}
use buildpulse_mcp.McpServer.Badges.{
  is_digit, span_digits, close_mark, closed, fraction, match_number, find_percent, percent_of,
  percent_from_badge_svg,
}
use buildpulse_mcp.McpServer.Platform.{Numbers}

abbrev AllDigits : Text → Type 0
AllDigits = All (λ c. is_digit c ≡ true)

abbrev pub IsDigits : Text → Type 0
IsDigits t = (t ≢ []) × AllDigits t

-- Digits, and perhaps a point and digits.
pub data IsNumber : Text → Type 0 where
  whole : (n : Text) → IsDigits n → IsNumber n
  decimal : (n f : Text) → IsDigits n → IsDigits f → IsNumber (n ++ b'.' ∷ f)

-- A text that does not begin with a digit.
abbrev NoDigit : Text → Type 0
NoDigit [] = Unit
NoDigit (c ∷ s) = is_digit c ≡ false

span-append : (s : Text) → s ≡ (span_digits s).0 ++ (span_digits s).1
unfolding span_digits
span-append [] = refl
span-append (c ∷ s) = elim (Bool-cases (is_digit c)) [
  | inl digit ↦ rw digit (ap (◌∷◌ c) (span-append s))
  | inr other ↦ rw other refl
]

span-AllDigits : (s : Text) → AllDigits (span_digits s).0
unfolding span_digits
span-AllDigits [] = tt
span-AllDigits (c ∷ s) = elim (Bool-cases (is_digit c)) [
  | inl digit ↦ rw digit (digit, span-AllDigits s)
  | inr other ↦ rw other tt
]

-- The digits in front of anything else are those that are taken.
span-digits : (d r : Text) → AllDigits d → NoDigit r → span_digits (d ++ r) ≡ (d, r)
unfolding span_digits
span-digits [] [] h g = refl
span-digits [] (c ∷ r) h g = rw g refl
span-digits (c ∷ d) r (digit, h) g = rw (digit, span-digits d r h g) refl

-- A number, the closing mark, and what follows.
abbrev pub Opens : Text → Text → Type 0
Opens num s = IsNumber num × ((after : Text) × (s ≡ num ++ (close_mark ++ after)))

closed-ok :
    (number rest num : Text)
    → closed number rest ≡ some num
    → (number ≡ num) × ((after : Text) × (rest ≡ close_mark ++ after))
closed-ok number rest num h = elim (Bool-cases (has_prefix rest close_mark)) [
  | inl marked ↦ (ground arith, has_prefix-rest rest close_mark marked)
  | inr bare ↦ absurd (ground arith)
]

not_empty : (t : Text) → is_empty t ≡ false → t ≢ []
not_empty t h e = absurd (ground (arith, is_empty_iff t))

is_empty-IsDigits : (t : Text) → IsDigits t → is_empty t ≡ false
is_empty-IsDigits [] (given, h) = absurd (given refl)
is_empty-IsDigits (c ∷ t) d = refl

fraction-Opens : (d r num : Text) → IsDigits d → fraction d r ≡ some num → Opens num (d ++ r)
fraction-Opens d [] num h g = absurd (cc)
fraction-Opens d (c ∷ rest) num h g = elim (Bool-cases (eqb c b'.')) [
  | inr other ↦
      let (e, (after, k)) = closed-ok d (c ∷ rest) num (rw other at g) in
      (
        subst IsNumber e (whole d h),
        (after, ap (λ r. d ++ r) k ∙ ap (λ x. x ++ (close_mark ++ after)) e),
      )
  | inl point ↦ elim (Bool-cases (is_empty (span_digits rest).0)) [
    | inl bare ↦ absurd (ground arith)
    | inr given ↦
        let f = (span_digits rest).0 in
        let (e, (after, k)) =
          closed-ok (d ++ b'.' ∷ f) (span_digits rest).1 num (rw (point, given) at g) in
        (
          subst IsNumber e (decimal d f h (not_empty f given, span-AllDigits rest)),
          (
            after,
            ap (λ x. d ++ x ∷ rest) ((eqb_iff c b'.').0 point)
                ∙ ap (λ r. d ++ b'.' ∷ r) (span-append rest ∙ ap (λ a. f ++ a) k)
                ∙ sym (append_assoc d (b'.' ∷ f) (close_mark ++ after))
                ∙ ap (λ x. x ++ (close_mark ++ after)) e,
          ),
        )
  ]
]

match_number-Opens : (s num : Text) → match_number s ≡ some num → Opens num s
unfolding match_number
match_number-Opens s num h = elim (Bool-cases (is_empty (span_digits s).0)) [
  | inl bare ↦ absurd (ground arith)
  | inr given ↦ subst (Opens num) (sym (span-append s)) (
      fraction-Opens (span_digits s).0 (span_digits s).1 num
        (not_empty (span_digits s).0 given, span-AllDigits s) (rw given at h))
]

closed-marked : (number after : Text) → closed number (close_mark ++ after) ≡ some number
closed-marked number after = rw (has_prefix-append close_mark after) refl

match_number-IsNumber :
    (num after : Text) → IsNumber num → match_number (num ++ (close_mark ++ after)) ≡ some num
unfolding match_number
match_number-IsNumber _ after (whole n h) =
    rw (span-digits n (close_mark ++ after) h.1 refl, is_empty-IsDigits n h) (closed-marked n after)
match_number-IsNumber _ after (decimal n f h g) =
    rw
      (
        append_assoc n (b'.' ∷ f) (close_mark ++ after),
        span-digits n (b'.' ∷ f ++ (close_mark ++ after)) h.1 refl,
        is_empty-IsDigits n h,
        span-digits f (close_mark ++ after) g.1 refl,
        is_empty-IsDigits f g,
      )
      (closed-marked (n ++ b'.' ∷ f) after)

-- A number in a badge, between the marks.
abbrev pub Occurs : Text → Text → Type 0
Occurs num svg =
    IsNumber num × ((before after : Text) × (svg ≡ before ++ (b'>' ∷ num ++ (close_mark ++ after))))

Occurs-later : (num : Text) (c : ℕ) (s : Text) → Occurs num s → Occurs num (c ∷ s)
Occurs-later num c s (number, (before, after, e)) = (number, (c ∷ before, after, ap (◌∷◌ c) e))

Occurs-here : (num : Text) (c : ℕ) (s : Text) → c ≡ b'>' → Opens num s → Occurs num (c ∷ s)
Occurs-here num c s mark (number, (after, e)) =
    (number, ([], after, ap (λ x. x ∷ s) mark ∙ ap (◌∷◌ b'>') e))

find_percent-Occurs : (svg num : Text) → find_percent svg ≡ some num → Occurs num svg
unfolding find_percent
find_percent-Occurs [] num h = absurd (cc)
find_percent-Occurs (c ∷ s) num h = elim (Bool-cases (eqb c b'>')) [
  | inr other ↦ Occurs-later num c s (find_percent-Occurs s num (rw other at h))
  | inl mark ↦ elim (Option-cases (match_number s)) [
    | inl no_match ↦ Occurs-later num c s (find_percent-Occurs s num (rw (mark, no_match) at h))
    | inr (n, found) ↦
        let same : n ≡ num = ground arith in
        Occurs-here num c s ((eqb_iff c b'>').0 mark)
          (match_number-Opens s num (found ∙ ap some same))
  ]
]

found_before :
    (before num after : Text)
    → IsNumber num
    → find_percent (before ++ (b'>' ∷ num ++ (close_mark ++ after))) ≢ none
unfolding find_percent
found_before [] num after h g =
    let first = match_number-IsNumber num after h in absurd (ground arith)
found_before (c ∷ before) num after h g =
    let later = found_before before num after h in
    elim (Bool-cases (eqb c b'>')) [
      | inr other ↦ later (rw other at g)
      | inl mark ↦ later (ground arith)
    ]

module _ {N : Type 0} (numbers : Numbers N) (num : Text) where
  percent-none : numbers.parse_float num ≡ none → percent_of numbers (some num) ≡ numbers.minus_one
  percent-none bad = ground (arith, bad)

  percent-some : (v : N) → numbers.parse_float num ≡ some v → percent_of numbers (some num) ≡ v
  percent-some v parses = ground (arith, parses)

-- Whatever the SVG is, either a number stands in it between `>` and `%<`, and the percentage is what
-- that number parses to, or -1 if it does not parse, or no number stands so, and it is -1.
pub percent_from_badge_svg_cases :
    {N : Type 0} (numbers : Numbers N) (svg : Text)
    → ((num : Text) × Occurs num svg
        × (((v : N) × (numbers.parse_float num ≡ some v) × (percent_from_badge_svg numbers svg ≡ v))
            ⊎ ((numbers.parse_float num ≡ none)
                × (percent_from_badge_svg numbers svg ≡ numbers.minus_one))))
      ⊎ (((num : Text) → ¬ Occurs num svg)
          × (percent_from_badge_svg numbers svg ≡ numbers.minus_one))
unfolding percent_from_badge_svg
percent_from_badge_svg_cases numbers svg = elim (Option-cases (find_percent svg)) [
  | inr (num, found) ↦ inl (
    num,
    find_percent-Occurs svg num found,
    elim (Option-cases (numbers.parse_float num)) [
      | inl bad ↦ inr (bad, rw found (percent-none numbers num bad))
      | inr (v, parses) ↦ inl (v, parses, rw found (percent-some numbers num v parses))
    ],
  )
  | inl nothing ↦ inr (
    λ num (number, (before, after, e)).
        found_before before num after number (subst (λ x. find_percent x ≡ none) e nothing),
    rw nothing refl,
  )
]
