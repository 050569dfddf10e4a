-- ===== src/Tokeniser/Input.antt =====
-- The source text as libelement/src/token_internal.cpp reads it. The tokeniser moves through its
-- string only by `utf8::peek_next` and `utf8::next`, of a library that is not in the repository: what
-- these give from the first byte on is the parameter, a chain of code points with their bytes.
use element.Prelude.{ℕ, suc, ◌+◌, ◌<◌, ◌≡◌, ◌^◌, Bool, List, [], ◌∷◌, ◌++◌, length, if◌then◌else◌}
use element.Result.{ElementResult}

pub data Input : Type 0 where
  -- it == end
  finish : Input
  -- Bytes at which the library throws.
  invalid : List ℕ → Input
  -- A code point, the bytes that encode it, and what follows.
  glyph : ℕ → List ℕ → Input → Input

-- The bytes of the string.
abbrev pub bytes : Input → List ℕ
bytes finish = []
bytes (invalid bs) = bs
bytes (glyph c bs it) = bs ++ bytes it

-- What UTF-8 says of the bytes of a code point: an ASCII character is one byte, itself, no character
-- is without a byte, and code points have at most 21 bits.
abbrev pub IsUtf8 : Input → Type 0
IsUtf8 finish = Unit
IsUtf8 (invalid bs) = Unit
IsUtf8 (glyph c bs it) = (c < 2 ^ 21) × (0 < length bs) × (c < 128 → bs ≡ c ∷ []) × IsUtf8 it

-- The number of code points, by which the fuel of the main loop is chosen.
abbrev pub count : Input → ℕ
count finish = 0
count (invalid bs) = 0
count (glyph c bs it) = suc (count it)

-- What a scan over the iterator gives: the bytes passed and the new iterator, an error that the
-- caller returns, or an exception of the UTF-8 library.
pub data Scan : Type 0 where
  scanned : ℕ → Input → Scan
  failed : ElementResult → Scan
  threw : Scan

infixl 5 ◌>>=◌
abbrev pub ◌>>=◌ : Scan → (ℕ × Input → Scan) → Scan
scanned len it >>= f = f (len, it)
failed r >>= f = failed r
threw >>= f = threw

-- `while (it != end && p(UTF8_PEEK_NEXT(it, end))) c = UTF8_NEXT(it, end);`
unfoldable pub skip_while : (ℕ → Bool) → ℕ → Input → Scan
skip_while p len finish = scanned len finish
skip_while p len (invalid bs) = threw
skip_while p len (glyph c bs it) =
    if p c then skip_while p (len + length bs) it else scanned len (glyph c bs it)
