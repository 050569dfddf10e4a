-- ===== src/Tokeniser/ScanLaws.antt =====
-- The scans of numbers and identifiers in libelement/src/token_internal.cpp.
use element.Prelude.{
  ℕ, ◌+◌, ◌≡◌, Bool, true, ◌||◌, inl, inr, List, ◌∷◌, ◌++◌, arith, length, Bool-cases, ◌==◌, ==_iff,
  if◌then◌else◌,
}
use native.Mathlib.Nat.{zero-add}
use element.Tokeniser.Chars.{is_alpha, is_digit, is_alnum, isid_alpha, isid_alnum}
use element.Tokeniser.Grammar.{
  IsIdentifier, name, IsDigits, unsigned, signed, IsSignedDigits, power, IsExponent, no_exponent,
  scaled, no_fraction, decimals, IsTail, tail, IsUnsigned, whole, IsNumber, literal,
}
use element.Tokeniser.Input.{Input, finish, invalid, glyph, Scan, ◌>>=◌, skip_while}
use element.Tokeniser.Number.{
  is_sign, exponent_digits, exponent_sign, exponent, fraction, point, digits, scan_number,
}
use element.Tokeniser.Run.{is_id, scan_identifier}
use element.Tokeniser.Segment.{
  Passes, refused, raised, Passes-map, Passes-nil, Passes->>=, Passes-glyph, skip_while-Passes,
  skip_while-Passes_one,
}

exponent_digits-Passes : (len : ℕ) (it : Input) → Passes len it IsDigits (exponent_digits len it)
unfolding exponent_digits
exponent_digits-Passes len (glyph c bs it) = elim (Bool-cases (is_digit c)) [
  | inl h ↦ rw h (skip_while-Passes_one is_digit len c bs it h)
  | inr h ↦ rw h (refused λ e. cc)
]
exponent_digits-Passes len _ = raised

exponent_sign-Passes : (len : ℕ) (it : Input) → Passes len it IsSignedDigits (exponent_sign len it)
unfolding exponent_sign
exponent_sign-Passes len (glyph c bs it) = elim (Bool-cases (is_sign c)) [
  | inl h ↦
      rw (h, if◌then◌else◌)
        (Passes-glyph len c bs it (λ cs q. power (signed h) q)
          (exponent_digits-Passes (len + length bs) it))
  | inr h ↦
      rw (h, if◌then◌else◌)
        (Passes-map (λ cs q. power unsigned q) (exponent_digits-Passes len (glyph c bs it)))
]
exponent_sign-Passes len _ = raised

exponent-Passes : (len : ℕ) (it : Input) → Passes len it IsExponent (exponent len it)
unfolding exponent
exponent-Passes len finish = Passes-nil len finish no_exponent
exponent-Passes len (invalid bs) = raised
exponent-Passes len (glyph c bs it) = elim (Bool-cases (c == b'e' || c == b'E')) [
  | inl h ↦
      rw (h, if◌then◌else◌)
        (Passes-glyph len c bs it (λ cs q. scaled h q) (exponent_sign-Passes (len + length bs) it))
  | inr h ↦ rw (h, if◌then◌else◌) (Passes-nil len (glyph c bs it) no_exponent)
]

-- Digits, and what may follow them.
digits_then-Passes :
    {Q : List ℕ → Type 0} (len c : ℕ) (bs : List ℕ) (it : Input) (f : ℕ × Input → Scan)
    (R : List ℕ → Type 0)
    → is_digit c ≡ true
    → ((len' : ℕ) (it' : Input) → Passes len' it' R (f (len', it')))
    → ((ds cs : List ℕ) → IsDigits ds → R cs → Q (ds ++ cs))
    → Passes len (glyph c bs it) Q (skip_while is_digit len (glyph c bs it) >>= f)
digits_then-Passes len c bs it f R h k j =
    Passes->>= f (λ ds cs. IsDigits ds × R cs) (skip_while-Passes_one is_digit len c bs it h)
      (λ len' it' ds p. Passes-map (λ cs q. (p, q)) (k len' it')) (λ ds cs q. j ds cs q.0 q.1)

fraction-Passes :
    (len : ℕ) (bs : List ℕ) (it : Input) → Passes len (glyph b'.' bs it) IsTail (fraction len bs it)
unfolding fraction
fraction-Passes len bs (glyph d ds it) = elim (Bool-cases (is_digit d)) [
  | inl h ↦
      rw (h, if◌then◌else◌)
        (Passes-glyph len b'.' bs (glyph d ds it) (λ cs q. q)
          (digits_then-Passes {Q = λ cs. IsTail (b'.' ∷ cs)} (len + length bs) d ds it
            (λ s. exponent s.0 s.1) IsExponent h exponent-Passes
            (λ es cs p q. tail (decimals p) q)))
  | inr h ↦ elim (Bool-cases (is_alpha d)) [
    | inl g ↦
        rw (h, g, if◌then◌else◌)
          (Passes-map (λ cs q. tail no_fraction q)
            (exponent-Passes len (glyph b'.' bs (glyph d ds it))))
    | inr g ↦ rw (h, g, if◌then◌else◌) (refused λ e. cc)
  ]
]
fraction-Passes len bs _ = raised

point-Passes : (len : ℕ) (it : Input) → Passes len it IsTail (point len it)
unfolding point
point-Passes len finish = Passes-nil len finish (tail no_fraction no_exponent)
point-Passes len (invalid bs) = raised
point-Passes len (glyph c bs it) = elim (Bool-cases (c == b'.')) [
  | inl h ↦ rw (h, if◌then◌else◌) (rw ((==_iff c b'.').0 h) (fraction-Passes len bs it))
  | inr h ↦
      rw (h, if◌then◌else◌)
        (Passes-map (λ cs q. tail no_fraction q) (exponent-Passes len (glyph c bs it)))
]

digits-Passes : (len : ℕ) (it : Input) → Passes len it IsUnsigned (digits len it)
unfolding digits
digits-Passes len (glyph c bs it) = elim (Bool-cases (is_digit c)) [
  | inl h ↦
      rw (h, if◌then◌else◌)
        (digits_then-Passes len c bs it (λ s. point s.0 s.1) IsTail h point-Passes
          (λ ds cs p q. whole p q))
  | inr h ↦ rw (h, if◌then◌else◌) (refused λ e. cc)
]
digits-Passes len _ = raised

-- Where `tokenise_number` ends without an error it has passed a number.
pub scan_number-Passes : (it : Input) → Passes 0 it IsNumber (scan_number it)
unfolding scan_number
scan_number-Passes (glyph c bs it) = elim (Bool-cases (is_sign c)) [
  | inl h ↦
      rw (h, if◌then◌else◌)
        (Passes-glyph 0 c bs it (λ cs q. literal (signed h) q)
          (rw zero-add (digits-Passes (length bs) it)))
  | inr h ↦
      rw (h, if◌then◌else◌)
        (Passes-map (λ cs q. literal unsigned q) (digits-Passes 0 (glyph c bs it)))
]
scan_number-Passes _ = raised

pub is_id_of_isid_alpha : (c : ℕ) → isid_alpha c ≡ true → is_id c ≡ true
unfolding isid_alpha isid_alnum is_alnum
is_id_of_isid_alpha c h = ground arith

skip_while_step :
    (p : ℕ → Bool) (len c : ℕ) (bs : List ℕ) (it : Input)
    → p c ≡ true
    → skip_while p len (glyph c bs it) ≡ skip_while p (len + length bs) it
unfolding skip_while
skip_while_step p len c bs it h = rw h

-- The scan of an identifier passes one, if it begins at a letter or an underscore.
pub scan_identifier-Passes :
    (c : ℕ) (bs : List ℕ) (it : Input)
    → isid_alpha c ≡ true
    → Passes 0 (glyph c bs it) IsIdentifier (scan_identifier (glyph c bs it))
unfolding scan_identifier
scan_identifier-Passes c bs it h = elim (Bool-cases (c == b'_')) [
  | inl e ↦
      rw (e, if◌then◌else◌)
        (Passes-glyph 0 c bs it (λ cs q. name h q)
          (rw zero-add (skip_while-Passes is_id (length bs) it)))
  | inr e ↦
      rw (e, if◌then◌else◌)
        (rw (skip_while_step is_id 0 c bs it (is_id_of_isid_alpha c h))
          (Passes-glyph 0 c bs it (λ cs q. name h q) (skip_while-Passes is_id (0 + length bs) it)))
]
