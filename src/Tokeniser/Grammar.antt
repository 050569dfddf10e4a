-- ===== src/Tokeniser/Grammar.antt =====
-- The token grammar as the code has it, apart from the code that scans: what identifiers, numbers
-- and the other tokens are made of.
use element.Prelude.{ℕ, ◌≡◌, ◌≢◌, true, ◌||◌, List, [], ◌∷◌, ◌++◌, ◌==◌}
use element.Tokeniser.Chars.{is_digit, isid_alpha}
use element.Tokeniser.Number.{is_sign}
use element.Tokeniser.Run.{is_id}
use element.Tokeniser.Segment.{Each}
use element.Tokeniser.State.{
  TokenType, no_token, number, identifier, underscore, dot, bracketl, bracketr, colon, comma,
  bracel, bracer, equals, eof,
}

-- A letter, an underscore or a code point from U+00F0 to U+FFFF; behind it digits too.
pub data IsIdentifier : List ℕ → Type 0 where
  name : {c : ℕ} {cs : List ℕ} → isid_alpha c ≡ true → Each is_id cs → IsIdentifier (c ∷ cs)

abbrev pub IsDigits : List ℕ → Type 0
IsDigits cs = Each is_digit cs × (cs ≢ [])

pub data IsSign : List ℕ → Type 0 where
  unsigned : IsSign []
  signed : {c : ℕ} → is_sign c ≡ true → IsSign (c ∷ [])

pub data IsSignedDigits : List ℕ → Type 0 where
  power : {s ds : List ℕ} → IsSign s → IsDigits ds → IsSignedDigits (s ++ ds)

pub data IsExponent : List ℕ → Type 0 where
  no_exponent : IsExponent []
  scaled :
      {e : ℕ} {cs : List ℕ}
      → (e == b'e' || e == b'E') ≡ true
      → IsSignedDigits cs
      → IsExponent (e ∷ cs)

pub data IsFraction : List ℕ → Type 0 where
  no_fraction : IsFraction []
  decimals : {ds : List ℕ} → IsDigits ds → IsFraction (b'.' ∷ ds)

-- What follows the integral part.
pub data IsTail : List ℕ → Type 0 where
  tail : {f e : List ℕ} → IsFraction f → IsExponent e → IsTail (f ++ e)

pub data IsUnsigned : List ℕ → Type 0 where
  whole : {ds t : List ℕ} → IsDigits ds → IsTail t → IsUnsigned (ds ++ t)

-- [-+]? [0-9]+ ('.' [0-9]+)? ([eE] [-+]? [0-9]+)?
pub data IsNumber : List ℕ → Type 0 where
  literal : {s u : List ℕ} → IsSign s → IsUnsigned u → IsNumber (s ++ u)

-- The texts that a token of each type can have.
abbrev pub Spells : TokenType → List ℕ → Type 0
Spells no_token cs = ⊥
Spells number cs = IsNumber cs
Spells identifier cs = IsIdentifier cs
Spells underscore cs = cs ≡ b'_' ∷ []
Spells dot cs = cs ≡ b'.' ∷ []
Spells bracketl cs = cs ≡ b'(' ∷ []
Spells bracketr cs = cs ≡ b')' ∷ []
Spells colon cs = cs ≡ b':' ∷ []
Spells comma cs = cs ≡ b',' ∷ []
Spells bracel cs = cs ≡ b'{' ∷ []
Spells bracer cs = cs ≡ b'}' ∷ []
Spells equals cs = cs ≡ b'=' ∷ []
Spells eof cs = cs ≡ []
