-- ===== src/Tokeniser/Ascii.antt =====
-- ASCII sources, as the UTF-8 library reads them for libelement/src/token_internal.cpp.
use Prim.Native.Char.{code}
use Prim.Native.String.{String}
use element.Prelude.{◌<◌, ◌≡◌, refl, Bool, true, ◌&&◌, ltb, and-true, arith, [], ◌∷◌}
use element.Tokeniser.Input.{Input, finish, glyph, IsUtf8}

-- An ASCII text as the UTF-8 library reads it.
abbrev pub ascii : String → Input
ascii String.[] = finish
ascii (String.◌∷◌ c s) = glyph (code c) (code c ∷ []) (ascii s)

unfoldable pub is_ascii : String → Bool
is_ascii String.[] = true
is_ascii (String.◌∷◌ c s) = ltb (code c) 128 && is_ascii s

pub ascii-IsUtf8 : (s : String) → is_ascii s ≡ true → IsUtf8 (ascii s)
unfolding is_ascii
ascii-IsUtf8 String.[] h = tt
ascii-IsUtf8 (String.◌∷◌ c s) h =
    let (a, b) = and-true (ltb (code c) 128) (is_ascii s) h in
    let l : code c < 128 = ground arith in (omega arith, omega arith, λ m. refl, ascii-IsUtf8 s b)
