-- ===== src/Tokeniser/CharsLaws.antt =====
-- The character tests of libelement/src/token_internal.cpp, as ranges of code points.
use element.Prelude.{ℕ, ◌^◌, ◌<◌, ◌≤◌, ◌≡◌, ◌↔◌, ◌⊎◌, true, arith}
use element.Tokeniser.Chars.{is_alpha, is_digit}

-- The test of a letter, which masks bit 5 and wraps around, accepts the ASCII letters of both cases
-- and no other 32-bit value.
pub is_alpha_iff :
    (c : ℕ)
    → c < 2 ^ 32
    → (is_alpha c ≡ true) ↔ (((b'A' ≤ c) × (c ≤ b'Z')) ⊎ ((b'a' ≤ c) × (c ≤ b'z')))
unfolding is_alpha
is_alpha_iff c h = (λ e. ground arith, λ e. ground arith)

pub is_digit_iff : (c : ℕ) → c < 2 ^ 32 → (is_digit c ≡ true) ↔ ((b'0' ≤ c) × (c ≤ b'9'))
unfolding is_digit
is_digit_iff c h = (λ e. ground arith, λ e. ground arith)
