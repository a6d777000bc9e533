-- ===== src/McpServer/Examples/Badges.antt =====
-- The theorem about badges on a small one.
use buildpulse_mcp.Common.{ℕ, none, ◌≡◌, ◌⊎◌, Text, codes, some}
use buildpulse_mcp.McpServer.Badges.{percent_from_badge_svg}
use buildpulse_mcp.McpServer.Badges.Digits.{Occurs, percent_from_badge_svg_cases}
use buildpulse_mcp.McpServer.Examples.Platform.{small}

abbrev svg : Text
svg = codes "<svg><text x=\"1\">flaky</text><text>12.3%</text></svg>"

percent_from_badge_svg_cases_example :
    ((num : Text) × Occurs num svg
      × (((v : ℕ) × (small.numbers.parse_float num ≡ some v)
            × (percent_from_badge_svg small.numbers svg ≡ v))
          ⊎ ((small.numbers.parse_float num ≡ none)
              × (percent_from_badge_svg small.numbers svg ≡ small.numbers.minus_one))))
    ⊎ (((num : Text) → ¬ Occurs num svg)
        × (percent_from_badge_svg small.numbers svg ≡ small.numbers.minus_one))
percent_from_badge_svg_cases_example = percent_from_badge_svg_cases small.numbers svg
