-- ===== src/Tokeniser/SpellsLaws.antt =====
-- The texts of the token grammar, and newlines.
use element.Prelude.{ℕ, ◌≡◌, refl, Bool, true, ◌||◌, List, [], ◌∷◌, ◌++◌, arith, All-append, ◌==◌}
use element.Tokeniser.Chars.{is_digit, is_alpha, is_alnum, is_eol, isid_alpha, isid_alnum}
use element.Tokeniser.Grammar.{
  IsIdentifier, name, IsSign, unsigned, signed, IsSignedDigits, power, IsExponent, no_exponent,
  scaled, IsFraction, no_fraction, decimals, IsTail, tail, IsUnsigned, whole, IsNumber, literal,
  Spells,
}
use element.Tokeniser.Number.{is_sign}
use element.Tokeniser.Reading.{not_eol, IsComment, comment}
use element.Tokeniser.Run.{is_id}
use element.Tokeniser.Segment.{Each}
use element.Tokeniser.State.{TokenType, no_token, number, identifier, eof}

Each-map :
    {p q : ℕ → Bool} (cs : List ℕ) → ((c : ℕ) → p c ≡ true → q c ≡ true) → Each p cs → Each q cs
Each-map [] f h = tt
Each-map (c ∷ cs) f (h, hs) = (f c h, Each-map cs f hs)

digit-not_eol : (c : ℕ) → is_digit c ≡ true → not_eol c ≡ true
unfolding is_digit is_eol
digit-not_eol c h = ground arith

sign-not_eol : (c : ℕ) → is_sign c ≡ true → not_eol c ≡ true
unfolding is_eol
sign-not_eol c h = ground arith

id-not_eol : (c : ℕ) → is_id c ≡ true → not_eol c ≡ true
unfolding isid_alnum is_alnum is_alpha is_digit is_eol
id-not_eol c h = ground arith

isid_alpha-not_eol : (c : ℕ) → isid_alpha c ≡ true → not_eol c ≡ true
unfolding isid_alpha is_alpha is_eol
isid_alpha-not_eol c h = ground arith

exponent-not_eol : (c : ℕ) → (c == b'e' || c == b'E') ≡ true → not_eol c ≡ true
unfolding is_eol
exponent-not_eol c h = ground arith

abbrev IsOneLine : List ℕ → Type 0
IsOneLine = Each not_eol

join : (cs ds : List ℕ) → IsOneLine cs → IsOneLine ds → IsOneLine (cs ++ ds)
join = All-append (λ c. not_eol c ≡ true)

digits-IsOneLine : (cs : List ℕ) → Each is_digit cs → IsOneLine cs
digits-IsOneLine cs h = Each-map cs digit-not_eol h

sign-IsOneLine : {cs : List ℕ} → IsSign cs → IsOneLine cs
sign-IsOneLine unsigned = tt
sign-IsOneLine (signed {c} h) = (sign-not_eol c h, tt)

power-IsOneLine : {cs : List ℕ} → IsSignedDigits cs → IsOneLine cs
power-IsOneLine (power {s} {ds} h g) = join s ds (sign-IsOneLine h) (digits-IsOneLine ds g.0)

exponent-IsOneLine : {cs : List ℕ} → IsExponent cs → IsOneLine cs
exponent-IsOneLine no_exponent = tt
exponent-IsOneLine (scaled {e} h g) = (exponent-not_eol e h, power-IsOneLine g)

fraction-IsOneLine : {cs : List ℕ} → IsFraction cs → IsOneLine cs
unfolding is_eol
fraction-IsOneLine no_fraction = tt
fraction-IsOneLine (decimals {ds} h) = (refl, digits-IsOneLine ds h.0)

tail-IsOneLine : {cs : List ℕ} → IsTail cs → IsOneLine cs
tail-IsOneLine (tail {f} {e} h g) = join f e (fraction-IsOneLine h) (exponent-IsOneLine g)

unsigned-IsOneLine : {cs : List ℕ} → IsUnsigned cs → IsOneLine cs
unsigned-IsOneLine (whole {ds} {t} h g) = join ds t (digits-IsOneLine ds h.0) (tail-IsOneLine g)

number-IsOneLine : {cs : List ℕ} → IsNumber cs → IsOneLine cs
number-IsOneLine (literal {s} {u} h g) = join s u (sign-IsOneLine h) (unsigned-IsOneLine g)

identifier-IsOneLine : {cs : List ℕ} → IsIdentifier cs → IsOneLine cs
identifier-IsOneLine (name {c} {cs} h g) = (isid_alpha-not_eol c h, Each-map cs id-not_eol g)

-- The text of a token of any type is on one line.
pub Spells-IsOneLine : (t : TokenType) (cs : List ℕ) → Spells t cs → Each not_eol cs
unfolding is_eol
Spells-IsOneLine number cs h = number-IsOneLine h
Spells-IsOneLine identifier cs h = identifier-IsOneLine h
Spells-IsOneLine no_token cs h = absurd h
Spells-IsOneLine eof cs h = rw h tt
Spells-IsOneLine _ cs h = rw h (refl, tt)

pub IsComment-IsOneLine : (cs : List ℕ) → IsComment cs → Each not_eol cs
unfolding is_eol
IsComment-IsOneLine _ (comment h) = (refl, h)
