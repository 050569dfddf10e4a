-- ===== src/Tokeniser/Reading.antt =====
-- What it means that a part of the source has been read into tokens: the specification of `run`
-- (libelement/src/token_internal.cpp), with the lines and columns that the tokens carry.
use mathlib.Core.List.{append-nil}
use native.Mathlib.Nat.{add-zero, add_assoc}
use element.Prelude.{
  ℕ, ◌+◌, ◌-◌, ◌≤◌, ◌≡◌, refl, ◌∙◌, Bool, true, inl, inr, not, List, [], ◌∷◌, ◌++◌, arith, length,
  Bool-cases, if◌then◌else◌,
}
use element.Prelude.Int.{ℤ}
use element.Tokeniser.Chars.{is_space, is_eol}
use element.Tokeniser.Grammar.{Spells}
use element.Tokeniser.Segment.{Segment, codes, width, Each}
use element.Tokeniser.State.{Token}

-- The positions behind the newlines of a segment that begins at the position `p`.
abbrev pub line_starts : ℕ → Segment → List ℕ
line_starts p [] = []
line_starts p ((c, bs) ∷ d) =
    let rest = line_starts (p + length bs) d in if is_eol c then (p + length bs) ∷ rest else rest

abbrev pub last_or : ℕ → List ℕ → ℕ
last_or n [] = n
last_or n (m ∷ ms) = last_or m ms

-- Where the line begins, and its number from 1, behind the segment.
abbrev pub line_start : Segment → ℕ
line_start d = last_or 0 (line_starts 0 d)

abbrev pub line_number : Segment → ℕ
line_number d = 1 + length (line_starts 0 d)

-- The fields of a token of `n` bytes that begins behind `d`. Columns count from 1.
pub record IsAt (d : Segment) (n : ℕ) (t : Token) : Type 0 where
  pub tok_pos : t.tok_pos ≡ ℤ.pos (width d)
  pub tok_len : t.tok_len ≡ ℤ.pos n
  pub line : t.line ≡ ℤ.pos (line_number d)
  pub line_start_position : t.line_start_position ≡ ℤ.pos (line_start d)
  pub character : t.character ≡ ℤ.pos (width d + 1 - line_start d)

abbrev pub not_eol : ℕ → Bool
not_eol c = not (is_eol c)

-- From the mark to the end of the line.
pub data IsComment : List ℕ → Type 0 where
  comment : {cs : List ℕ} → Each not_eol cs → IsComment (b'#' ∷ cs)

-- The segment is made of white space, comments and the texts of exactly these tokens, in this order;
-- each token has the type of its text and the place where that stands.
pub data Reads : Segment → List Token → Type 0 where
  nothing : Reads [] []
  blank :
      {d e : Segment} {ts : List Token} (c : ℕ) (bs : List ℕ)
      → Reads d ts
      → is_space c ≡ true
      → e ≡ d ++ (c, bs) ∷ []
      → Reads e ts
  remark :
      {d e : Segment} {ts : List Token} (g : Segment)
      → Reads d ts
      → IsComment (codes g)
      → e ≡ d ++ g
      → Reads e ts
  token :
      {d e : Segment} {ts us : List Token} (g : Segment) (t : Token)
      → Reads d ts
      → Spells t.type (codes g)
      → IsAt d (width g) t
      → e ≡ d ++ g
      → us ≡ ts ++ t ∷ []
      → Reads e us

pub line_starts-append :
    (p : ℕ) (d e : Segment)
    → line_starts p (d ++ e) ≡ line_starts p d ++ line_starts (p + width d) e
line_starts-append p [] e = rw add-zero
line_starts-append p ((c, bs) ∷ d) e = elim (Bool-cases (is_eol c)) [
  | inl h ↦ rw (h, if◌then◌else◌) (rw (line_starts-append (p + length bs) d e, add_assoc))
  | inr h ↦ rw (h, if◌then◌else◌) (rw (line_starts-append (p + length bs) d e, add_assoc))
]

pub line_starts-nil : (p : ℕ) (d : Segment) → Each not_eol (codes d) → line_starts p d ≡ []
line_starts-nil p [] h = refl
line_starts-nil p ((c, bs) ∷ d) (h, hs) = ground (arith, line_starts-nil (p + length bs) d hs)

-- A segment with no newline leaves the line as it is.
pub line_starts-same :
    (d e : Segment) → Each not_eol (codes e) → line_starts 0 (d ++ e) ≡ line_starts 0 d
line_starts-same d e h =
    line_starts-append 0 d e ∙ rw (line_starts-nil (0 + width d) e h) (append-nil (line_starts 0 d))

pub last_or-concat : (n m : ℕ) (ms : List ℕ) → last_or n (ms ++ m ∷ []) ≡ m
last_or-concat n m [] = refl
last_or-concat n m (k ∷ ms) = last_or-concat k m ms

last_or-le : (n p : ℕ) (d : Segment) → n ≤ p → last_or n (line_starts p d) ≤ p + width d
last_or-le n p [] l = omega arith
last_or-le n p ((c, bs) ∷ d) l = elim (Bool-cases (is_eol c)) [
  | inl h ↦
      rw (h, if◌then◌else◌)
        (omega (arith, last_or-le (p + length bs) (p + length bs) d (omega arith)))
  | inr h ↦ rw (h, if◌then◌else◌) (omega (arith, last_or-le n (p + length bs) d (omega arith)))
]

-- A line begins in what has been read.
pub line_start-le : (d : Segment) → line_start d ≤ width d
line_start-le d = omega (arith, last_or-le 0 0 d (omega arith))
