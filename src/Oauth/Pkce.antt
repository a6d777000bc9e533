-- ===== src/Oauth/Pkce.antt =====
-- The verification of a PKCE verifier, cmd/mcp-remote/oauth.go.
use Prim.Native.Nat.{bit_or, bit_xor, bit_or-bitwise, bit_xor-bitwise, digits, differ, max}
use buildpulse_mcp.Common.{
  ℕ, zero, suc, ◌/◌, ◌%◌, ◌≤◌, ◌≡◌, refl, ◌↔◌, Text, length, Bool, true, false, [], ◌∷◌, eqb, ap,
  sym, arith, if◌then◌else◌,
}
use buildpulse_mcp.Library.{Library}

-- the loop, over two texts of one length: diff |= a[i] ^ b[i]
diff_from : ℕ → Text → Text → ℕ
diff_from diff (x ∷ xs) (y ∷ ys) = diff_from (bit_or diff (bit_xor x y)) xs ys
diff_from diff _ _ = diff

unfoldable pub subtle_constant_time_eq : Text → Text → Bool
unfolding diff_from
subtle_constant_time_eq a b = if eqb (length a) (length b) then eqb (diff_from 0 a b) 0 else false

unfoldable pub verify_pkce : Library → Text → Text → Bool
verify_pkce lib verifier challenge =
    subtle_constant_time_eq (lib.base64_raw_url (lib.sha256 verifier)) challenge

or_digits_zero : (n a b : ℕ) → a ≤ n → digits (λ y. y) max n a b ≡ 0 → (a ≡ 0) × (b ≡ 0)
or_digits_zero zero a b h e = omega arith
or_digits_zero (suc n) zero b h e = omega arith
or_digits_zero (suc n) (suc a) b h e =
    absurd (omega (arith, or_digits_zero n (suc a / 2) (b / 2) (omega arith) (omega arith)))

-- A disjunction of digits is zero if both numbers are.
bit_or-eq-zero : (a b : ℕ) → bit_or a b ≡ 0 → (a ≡ 0) × (b ≡ 0)
bit_or-eq-zero a b h = or_digits_zero a a b (omega arith) (omega (arith, bit_or-bitwise a b))

differ-eq-zero : (x y : ℕ) → differ x y ≡ 0 → x ≡ y
differ-eq-zero zero y h = sym h
differ-eq-zero (suc x) zero h = h
differ-eq-zero (suc x) (suc y) h = ap suc (differ-eq-zero x y h)

differ_self : (x : ℕ) → differ x x ≡ 0
differ_self zero = refl
differ_self (suc x) = differ_self x

xor_digits_zero : (n a b : ℕ) → a ≤ n → digits (λ y. y) differ n a b ≡ 0 → a ≡ b
xor_digits_zero zero a b h e = omega arith
xor_digits_zero (suc n) zero b h e = omega arith
xor_digits_zero (suc n) (suc a) b h e = omega (
  arith,
  xor_digits_zero n (suc a / 2) (b / 2) (omega arith) (omega arith),
  differ-eq-zero (suc a % 2) (b % 2) (omega arith),
)

xor_digits_self : (n a : ℕ) → a ≤ n → digits (λ y. y) differ n a a ≡ 0
xor_digits_self zero a h = omega arith
xor_digits_self (suc n) zero h = omega arith
xor_digits_self (suc n) (suc a) h =
    omega (arith, xor_digits_self n (suc a / 2) (omega arith), differ_self (suc a % 2))

bit_xor-eq-zero : (a b : ℕ) → bit_xor a b ≡ 0 → a ≡ b
bit_xor-eq-zero a b h = xor_digits_zero a a b (omega arith) (omega (arith, bit_xor-bitwise a b))

bit_xor_self : (a : ℕ) → bit_xor a a ≡ 0
bit_xor_self a = omega (arith, bit_xor-bitwise a a, xor_digits_self a a (omega arith))

diff_from-eq-zero :
    (d : ℕ) (xs ys : Text) → length xs ≡ length ys → diff_from d xs ys ≡ 0 → (d ≡ 0) × (xs ≡ ys)
unfolding diff_from
diff_from-eq-zero d [] [] l h = (h, refl)
diff_from-eq-zero d [] (y ∷ ys) l h = absurd (omega arith)
diff_from-eq-zero d (x ∷ xs) [] l h = absurd (omega arith)
diff_from-eq-zero d (x ∷ xs) (y ∷ ys) l h =
    let (z, same) = diff_from-eq-zero (bit_or d (bit_xor x y)) xs ys (omega arith) h in
    let (d_zero, x_zero) = bit_or-eq-zero d (bit_xor x y) z in
    (d_zero, cc (bit_xor-eq-zero x y x_zero))

diff_from_self : (xs : Text) → diff_from 0 xs xs ≡ 0
unfolding diff_from
diff_from_self [] = refl
diff_from_self (x ∷ xs) = rw (bit_xor_self x) (diff_from_self xs)

-- The comparison that does not stop at the first difference answers true exactly on equal texts.
pub subtle_constant_time_eq_iff : (a b : Text) → (subtle_constant_time_eq a b ≡ true) ↔ (a ≡ b)
unfolding subtle_constant_time_eq
subtle_constant_time_eq_iff a b = (
  λ h. (diff_from-eq-zero 0 a b (ground arith) (ground arith)).1,
  λ e. rw (← e) (ground (arith, diff_from_self a)),
)

-- A verifier passes exactly if its challenge is the one that was stored.
pub verify_pkce_iff :
    (lib : Library) (verifier challenge : Text)
    → (verify_pkce lib verifier challenge ≡ true)
      ↔ (lib.base64_raw_url (lib.sha256 verifier) ≡ challenge)
unfolding verify_pkce
verify_pkce_iff lib verifier challenge = subtle_constant_time_eq_iff _ challenge
