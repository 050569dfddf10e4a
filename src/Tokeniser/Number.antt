-- ===== src/Tokeniser/Number.antt =====
-- The scanning of `tokenise_number` (libelement/src/token_internal.cpp). `len` is the distance in
-- bytes from the start of the token.
use element.Prelude.{ℕ, ◌+◌, Bool, ◌||◌, List, length, ◌==◌, if◌then◌else◌}
use element.Result.{parse_error, bad_index_into_number, bad_number_exponent}
use element.Tokeniser.Chars.{is_alpha, is_digit}
use element.Tokeniser.Input.{
  Input, finish, invalid, glyph, Scan, scanned, failed, threw, ◌>>=◌, skip_while,
}

abbrev pub is_sign : ℕ → Bool
is_sign c = c == b'-' || c == b'+'

-- The digits of the exponent, the first of which is required.
unfoldable pub exponent_digits : ℕ → Input → Scan
exponent_digits len (glyph c bs it) =
    if is_digit c then skip_while is_digit len (glyph c bs it) else failed bad_number_exponent
exponent_digits len it = threw

-- Behind the `e`: an optional sign.
unfoldable pub exponent_sign : ℕ → Input → Scan
exponent_sign len (glyph c bs it) =
    if is_sign c then exponent_digits (len + length bs) it else exponent_digits len (glyph c bs it)
exponent_sign len it = threw

-- `if (it != end)`: an optional exponent.
unfoldable pub exponent : ℕ → Input → Scan
exponent len finish = scanned len finish
exponent len (invalid bs) = threw
exponent len (glyph c bs it) =
    if c == b'e' || c == b'E'
    then exponent_sign (len + length bs) it
    else scanned len (glyph c bs it)

-- At a point, which `bs` encodes: digits behind it belong to the number, a letter makes it an index
-- into the literal, and anything else is an error.
unfoldable pub fraction : ℕ → List ℕ → Input → Scan
fraction len bs (glyph d ds it) =
    if is_digit d
    then skip_while is_digit (len + length bs) (glyph d ds it) >>= (λ s. exponent s.0 s.1)
    else if is_alpha d
    then exponent len (glyph b'.' bs (glyph d ds it))
    else failed bad_index_into_number
fraction len bs it = threw

-- Behind the digits of the integral part.
unfoldable pub point : ℕ → Input → Scan
point len finish = scanned len finish
point len (invalid bs) = threw
point len (glyph c bs it) = if c == b'.' then fraction len bs it else exponent len (glyph c bs it)

-- The first digit is required.
unfoldable pub digits : ℕ → Input → Scan
digits len (glyph c bs it) =
    if is_digit c
    then skip_while is_digit len (glyph c bs it) >>= (λ s. point s.0 s.1)
    else failed parse_error
digits len it = threw

unfoldable pub scan_number : Input → Scan
scan_number (glyph c bs it) = if is_sign c then digits (length bs) it else digits 0 (glyph c bs it)
scan_number it = threw
