-- ===== src/McpServer/Badges.antt =====
-- The percentage in a badge, its color, and the base URL and its links, internal/mcpserver/client.go.
pub mod Digits
use buildpulse_mcp.Common.{
  ℕ, Text, codes, is_empty, has_prefix, length, leb, eqb, ◌&&◌, Option, none, some, Bool, true,
  false, List, [], ◌∷◌, ◌++◌, reverse, drop, if◌then◌else◌,
}
use buildpulse_mcp.McpServer.Validate.{default_platform_url}
use buildpulse_mcp.McpServer.Platform.{Numbers}

abbrev is_digit : ℕ → Bool
is_digit c = leb b'0' c && leb c b'9'

-- The digits at the front, and what follows them.
unfoldable pub span_digits : Text → Text × Text
span_digits [] = ([], [])
span_digits (c ∷ s) =
    let (digits, rest) = span_digits s in if is_digit c then (c ∷ digits, rest) else ([], c ∷ s)

abbrev pub close_mark : Text
close_mark = codes "%<"

-- The end of a match, with the number in front of it.
abbrev pub closed : Text → Text → Option Text
closed number rest = if has_prefix rest close_mark then some number else none

-- (\.[0-9]+)?%<
abbrev pub fraction : Text → Text → Option Text
fraction whole [] = none
fraction whole (c ∷ rest) =
    let (digits, after) = span_digits rest in
    if eqb c b'.'
    then (if is_empty digits then none else closed (whole ++ b'.' ∷ digits) after)
    else closed whole (c ∷ rest)

-- The regular expression badgePctRe after its first character.
unfoldable pub match_number : Text → Option Text
match_number s =
    let (digits, rest) = span_digits s in if is_empty digits then none else fraction digits rest

abbrev pub first_of : Option Text → Option Text → Option Text
first_of (some a) o = some a
first_of none o = o

-- The group of the first match.
unfoldable pub find_percent : Text → Option Text
find_percent [] = none
find_percent (c ∷ s) =
    let later = find_percent s in if eqb c b'>' then first_of (match_number s) later else later

-- Removes the slashes at the front.
abbrev pub drop_slashes : Text → Text
drop_slashes [] = []
drop_slashes (c ∷ s) = if eqb c b'/' then drop_slashes s else c ∷ s

-- The base URL of NewClient.
unfoldable pub client_base_url : Text → Text
client_base_url raw =
    reverse (drop_slashes (reverse (if is_empty raw then default_platform_url else raw)))

-- strings.Replace(s, "://platform.", "://", 1)
unfoldable pub strip_label : Text → Text
strip_label [] = []
strip_label (c ∷ s) =
    let rest = strip_label s in
    if has_prefix (c ∷ s) (codes "://platform.") then codes "://" ++ drop 12 (c ∷ s) else c ∷ rest

unfoldable pub web_url : Text → Text → Text
web_url base_url path = strip_label base_url ++ path

module _ {N : Type 0} (numbers : Numbers N) where
  abbrev pub percent_of : Option Text → N
  percent_of none = numbers.minus_one
  percent_of (some text) = elim (numbers.parse_float text) [ none ↦ numbers.minus_one | some v ↦ v ]

  unfoldable pub percent_from_badge_svg : Text → N
  percent_from_badge_svg svg = percent_of (find_percent svg)

  unfoldable pub flakiness_color : N → Text
  flakiness_color pct =
      if numbers.lt pct (numbers.of_nat 0)
      then codes "unknown"
      else if numbers.eq pct (numbers.of_nat 0)
      then codes "green"
      else if numbers.le pct (numbers.of_nat 20)
      then codes "yellow"
      else codes "red"

  unfoldable pub coverage_color : N → Text
  coverage_color pct =
      if numbers.lt pct (numbers.of_nat 0)
      then codes "unknown"
      else if numbers.eq pct (numbers.of_nat 100)
      then codes "green"
      else if numbers.le (numbers.of_nat 90) pct
      then codes "light_green"
      else if numbers.le (numbers.of_nat 70) pct
      then codes "yellow"
      else codes "red"
