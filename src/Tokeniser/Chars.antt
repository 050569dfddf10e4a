-- ===== src/Tokeniser/Chars.antt =====
-- The character tests at the top of libelement/src/token_internal.cpp, on `uint32_t` code points.
use element.Prelude.{ℕ, ◌+◌, ◌-◌, ◌*◌, ◌/◌, ◌%◌, ◌^◌, Bool, ◌&&◌, ◌||◌, leb, ◌==◌}

-- `c & ~(1 << 5)`: bit 5 is cleared.
abbrev pub clear_bit_five : ℕ → ℕ
clear_bit_five c = c - 32 * (c / 32 % 2)

-- `unsigned(a - b)`
abbrev pub sub_u32 : ℕ → ℕ → ℕ
sub_u32 a b = (a + 2 ^ 32 - b) % 2 ^ 32

unfoldable pub is_alpha : ℕ → Bool
is_alpha c = leb (sub_u32 (clear_bit_five c) b'A') (b'Z' - b'A')

unfoldable pub is_digit : ℕ → Bool
is_digit c = leb (sub_u32 c b'0') (b'9' - b'0')

unfoldable pub is_alnum : ℕ → Bool
unfolding is_alpha is_digit
is_alnum c = is_alpha c || is_digit c

unfoldable pub is_space : ℕ → Bool
is_space c = c == b' ' || (leb 0x09 c && leb c 0x0d)

unfoldable pub is_eol : ℕ → Bool
is_eol c = c == b'\n'

unfoldable pub isid_alpha : ℕ → Bool
unfolding is_alpha
isid_alpha c = is_alpha c || c == b'_' || (leb 0x00f0 c && leb c 0xffff)

unfoldable pub isid_alnum : ℕ → Bool
unfolding is_alnum
isid_alnum c = is_alnum c || (leb 0x00f0 c && leb c 0xffff)
