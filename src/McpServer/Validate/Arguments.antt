-- ===== src/McpServer/Validate/Arguments.antt =====
-- What the accepted tool arguments look like.
use buildpulse_mcp.Common.{
  ℕ, ◌≤◌, ◌≡◌, ◌≢◌, ◌⊎◌, ◌↔◌, refl, Text, codes, is_empty_iff, contains_byte, contains_text,
  trim_space, to_lower, length, none, String, true, false, and-eq-true, [], ◌∷◌, ok, All, arith,
}
use buildpulse_mcp.McpServer.Validate.{
  ℤ, pos, negsuc, is_hex, all_hex, is_object_id, has_control, validate_object_id,
  validate_repo_part, validate_optional_limit, out_of_range,
}

-- A digit or a lower-case letter of a hexadecimal number.
abbrev pub IsLowerHex : ℕ → Type 0
IsLowerHex c = ((48 ≤ c) × (c ≤ 57)) ⊎ ((97 ≤ c) × (c ≤ 102))

lower_hex : (s : Text) → all_hex s ≡ true → All IsLowerHex (to_lower s)
unfolding all_hex is_hex to_lower
lower_hex [] h = tt
lower_hex (c ∷ s) h = (ground arith, lower_hex s (and-eq-true (is_hex c) (all_hex s) h).1)

length-to_lower : (s : Text) → length (to_lower s) ≡ length s
unfolding to_lower
length-to_lower [] = refl
length-to_lower (c ∷ s) = ground (arith, length-to_lower s)

-- An object id that is accepted has 24 bytes, each a digit or one of a to f, so that it cannot change
-- the path of the URL that it is put into.
pub validate_object_id-IsLowerHex :
    (raw id : Text) (field : String)
    → validate_object_id raw field ≡ ok id
    → (length id ≡ 24) × All IsLowerHex id × (id ≡ to_lower (trim_space raw))
unfolding validate_object_id is_object_id
validate_object_id-IsLowerHex raw id field h =
    let s = trim_space raw in
    let is_lower : to_lower s ≡ id = ground arith in
    let is_hexadecimal : all_hex s ≡ true = ground arith in
    let is_long : length s ≡ 24 = ground arith in
    (
      rw (← is_lower) (ground (arith, length-to_lower s, is_long)),
      rw (← is_lower) (lower_hex s is_hexadecimal),
      ground (arith, is_lower),
    )

-- A part of a repository's name can be put into the path of a URL: it does not leave its segment.
pub record IsSegment (s : Text) : Type 0 where
  pub given : s ≢ []
  pub short : length s ≤ 200
  pub no_dots : contains_text s (codes "..") ≡ false
  pub no_slash : contains_byte s b'/' ≡ false
  pub no_backslash : contains_byte s 92 ≡ false
  pub no_at : contains_byte s b'@' ≡ false
  pub no_control : has_control s ≡ false

-- A part of a repository's name is accepted exactly if, without the space around it, it is not empty,
-- has at most 200 bytes, and has no "..", no slash, backslash or @, and no control character; and it
-- is returned without that space.
pub validate_repo_part_iff :
    (raw s : Text) (field : String)
    → (validate_repo_part raw field ≡ ok s) ↔ ((s ≡ trim_space raw) × IsSegment s)
unfolding validate_repo_part
validate_repo_part_iff raw s field = (
  λ h.
      let same : trim_space raw ≡ s = ground arith in
      (
        ground (arith, same),
        rw (← same) (record {
          given = ground (arith, is_empty_iff (trim_space raw));
          short = ground arith;
          no_dots = ground arith;
          no_slash = ground arith;
          no_backslash = ground arith;
          no_at = ground arith;
          no_control = ground arith;
        }),
      ),
  λ (same, seg). ground (
    arith,
    same,
    is_empty_iff s,
    is_empty_iff (trim_space raw),
    seg.given,
    seg.short,
    seg.no_dots,
    seg.no_slash,
    seg.no_backslash,
    seg.no_at,
    seg.no_control,
  ),
)

-- A limit is accepted exactly if it is 0, which stands for none, or between 1 and the maximum.
validate_optional_limit_iff :
    (max : ℕ) (n : ℤ)
    → (validate_optional_limit max n ≡ none)
      ↔ ((k : ℕ) × (n ≡ pos k) × ((k ≡ 0) ⊎ ((1 ≤ k) × (k ≤ max))))
unfolding validate_optional_limit out_of_range
validate_optional_limit_iff max (pos n) =
    (λ h. (n, refl, ground arith), λ (k, same, h). ground (arith, same))
validate_optional_limit_iff max (negsuc n) = (λ h. ground arith, λ (k, same, h). absurd (cc same))
