-- ===== src/Common/Texts.antt =====
-- Go's strings: sequences of bytes. Case and white space are those of ASCII.
use Prim.Native.Nat.{ℕ, ◌+◌}
use Prim.Native.Char.{code}
use Prim.Native.String.{String}
use mathlib.Core.Path.{◌≡◌, refl, sym, ap, subst, ◌∙◌}
use mathlib.Core.Logic.{◌↔◌, inl, inr}
use mathlib.Core.Bool.{Bool, true, false, ◌&&◌, ◌||◌}
use mathlib.Core.List.{List, [], ◌∷◌, ◌++◌, map, reverse, reverse-reverse, reverse-append}
use native.Mathlib.Omega.{arith}
use buildpulse_mcp.Common.Lists.{length, length-append}
use buildpulse_mcp.Common.Tests.{leb, eqb, Bool-cases, eqb_iff, and-eq-true, if◌then◌else◌}

abbrev pub Text : Type 0
Text = List ℕ

-- A literal, as its bytes.
abbrev pub codes : String → Text
codes String.[] = []
codes (String.◌∷◌ c s) = code c ∷ codes s

-- a == b
infix 50 ◌==◌
unfoldable pub ◌==◌ : Text → Text → Bool
[] == [] = true
(x ∷ xs) == (y ∷ ys) = eqb x y && (xs == ys)
_ == _ = false

pub eq_iff : (s t : Text) → ((s == t) ≡ true) ↔ (s ≡ t)
unfolding ◌==◌
eq_iff [] [] = ground arith
eq_iff [] (y ∷ ys) = ground arith
eq_iff (x ∷ xs) [] = ground arith
eq_iff (x ∷ xs) (y ∷ ys) = ground (arith, eq_iff xs ys)

pub eq_refl : (s : Text) → (s == s) ≡ true
eq_refl s = (eq_iff s s).1 refl

-- s == ""
abbrev pub is_empty : Text → Bool
is_empty [] = true
is_empty (_ ∷ _) = false

pub is_empty_iff : (s : Text) → (is_empty s ≡ true) ↔ (s ≡ [])
is_empty_iff [] = ground arith
is_empty_iff (c ∷ s) = ground arith

-- strings.HasPrefix(s, p)
unfoldable pub has_prefix : Text → Text → Bool
has_prefix s [] = true
has_prefix [] (_ ∷ _) = false
has_prefix (x ∷ s) (y ∷ p) = eqb x y && has_prefix s p

-- What follows the prefix.
pub has_prefix-rest : (s p : Text) → has_prefix s p ≡ true → (t : Text) × (s ≡ p ++ t)
unfolding has_prefix
has_prefix-rest s [] h = (s, refl)
has_prefix-rest [] (y ∷ p) h = absurd (cc)
has_prefix-rest (x ∷ s) (y ∷ p) h =
    let (same, rest) = and-eq-true (eqb x y) (has_prefix s p) h in
    let (t, e) = has_prefix-rest s p rest in
    (t, ap (λ c. c ∷ s) ((eqb_iff x y).0 same) ∙ ap (◌∷◌ y) e)

pub has_prefix-append : (p t : Text) → has_prefix (p ++ t) p ≡ true
unfolding has_prefix
has_prefix-append [] t = refl
has_prefix-append (x ∷ p) t = ground (arith, has_prefix-append p t)

-- strings.Contains(s, p), for a p that is not empty
unfoldable pub contains_text : Text → Text → Bool
unfolding has_prefix
contains_text [] p = false
contains_text (x ∷ s) p = has_prefix (x ∷ s) p || contains_text s p

-- strings.Contains(s, c) for a text of the one byte c
unfoldable pub contains_byte : Text → ℕ → Bool
contains_byte [] c = false
contains_byte (x ∷ s) c = eqb x c || contains_byte s c

-- strings.HasSuffix(s, p)
unfoldable pub has_suffix : Text → Text → Bool
unfolding ◌==◌
has_suffix [] p = [] == p
has_suffix (x ∷ s) p = ((x ∷ s) == p) || has_suffix s p

abbrev lower : ℕ → ℕ
lower c = if leb b'A' c && leb c b'Z' then c + 32 else c

-- strings.ToLower
unfoldable pub to_lower : Text → Text
to_lower s = map lower s

-- \t \n \v \f \r and the space
abbrev pub is_space : ℕ → Bool
is_space c = eqb c 32 || (leb 9 c && leb c 13)

unfoldable pub trim_left : Text → Text
trim_left [] = []
trim_left (c ∷ s) = if is_space c then trim_left s else c ∷ s

-- strings.TrimSpace
unfoldable pub trim_space : Text → Text
unfolding trim_left
trim_space s = reverse (trim_left (reverse (trim_left s)))

-- A text that begins with no white space.
abbrev IsTrimmed : Text → Type 0
IsTrimmed s = trim_left s ≡ s

trim_left-IsTrimmed : (s : Text) → IsTrimmed (trim_left s)
unfolding trim_left
trim_left-IsTrimmed [] = refl
trim_left-IsTrimmed (c ∷ s) = elim (Bool-cases (is_space c)) [
  | inl space ↦ rw space (trim_left-IsTrimmed s)
  | inr ink ↦ rw (ink, ink) refl
]

-- What trim_left takes off.
trim_left-rest : (s : Text) → (spaces : Text) × (s ≡ spaces ++ trim_left s)
unfolding trim_left
trim_left-rest [] = ([], refl)
trim_left-rest (c ∷ s) = elim (Bool-cases (is_space c)) [
  | inl space ↦ let (spaces, e) = trim_left-rest s in (c ∷ spaces, rw space (ap (◌∷◌ c) e))
  | inr ink ↦ ([], rw ink refl)
]

IsTrimmed-prefix : (s t : Text) → IsTrimmed (s ++ t) → IsTrimmed s
unfolding trim_left
IsTrimmed-prefix [] t h = refl
IsTrimmed-prefix (c ∷ s) t h = elim (Bool-cases (is_space c)) [
  | inr ink ↦ rw ink refl
  | inl space ↦
      let (spaces, e) = trim_left-rest (s ++ t) in
      let again : trim_left (s ++ t) ≡ c ∷ (s ++ t) = rw space at h in
      let longer = ap length (e ∙ ap (λ x. spaces ++ x) again) in
      absurd (omega (arith, longer, length-append spaces (c ∷ (s ++ t))))
]

pub trim_space-trim_space : (s : Text) → trim_space (trim_space s) ≡ trim_space s
unfolding trim_space
trim_space-trim_space s =
    let u = trim_left s in
    let v = trim_left (reverse u) in
    let (spaces, e) = trim_left-rest (reverse u) in
    let split_u : u ≡ reverse v ++ reverse spaces =
      sym (reverse-reverse u) ∙ ap reverse e ∙ reverse-append spaces v in
    let first : trim_left (reverse v) ≡ reverse v =
      IsTrimmed-prefix (reverse v) (reverse spaces)
        (subst IsTrimmed split_u (trim_left-IsTrimmed s)) in
    rw (first, reverse-reverse v, trim_left-IsTrimmed (reverse u)) refl

abbrev push_first : ℕ → List Text → List Text
push_first x [] = (x ∷ []) ∷ []
push_first x (p ∷ ps) = (x ∷ p) ∷ ps

-- strings.Split(s, sep) for a separator of the one byte c
unfoldable pub split : ℕ → Text → List Text
split c [] = [] ∷ []
split c (x ∷ s) = let rest = split c s in if eqb x c then [] ∷ rest else push_first x rest

-- parts[len(parts)-1], of a list that is not empty
unfoldable pub last : List Text → Text
last [] = []
last (p ∷ []) = p
last (p ∷ q ∷ ps) = last (q ∷ ps)

-- contains of oauth.go
unfoldable pub contains : List Text → Text → Bool
contains [] needle = false
contains (s ∷ haystack) needle = (s == needle) || contains haystack needle
