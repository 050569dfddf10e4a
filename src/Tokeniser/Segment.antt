-- ===== src/Tokeniser/Segment.antt =====
-- Runs of code points of the source, and what the scans of libelement/src/token_internal.cpp pass.
use mathlib.Core.List.{append_assoc}
use element.Prelude.{
  ℕ, ◌+◌, ◌≡◌, ◌≢◌, refl, sym, ap, ◌∙◌, Bool, true, inl, inr, List, [], ◌∷◌, ◌++◌, arith, length,
  length-append, All, Bool-cases,
}
use element.Result.{ElementResult, ok}
use element.Tokeniser.Input.{
  Input, finish, invalid, glyph, bytes, count, IsUtf8, Scan, scanned, failed, threw, ◌>>=◌,
  skip_while,
}

-- Code points with their bytes.
abbrev pub Segment : Type 0
Segment = List (ℕ × List ℕ)

abbrev pub prepend : Segment → Input → Input
prepend [] it = it
prepend ((c, bs) ∷ d) it = glyph c bs (prepend d it)

abbrev pub codes : Segment → List ℕ
codes [] = []
codes ((c, bs) ∷ d) = c ∷ codes d

abbrev pub segment_bytes : Segment → List ℕ
segment_bytes [] = []
segment_bytes ((c, bs) ∷ d) = bs ++ segment_bytes d

-- The number of bytes.
abbrev pub width : Segment → ℕ
width [] = 0
width ((c, bs) ∷ d) = length bs + width d

pub prepend-append : (d e : Segment) (it : Input) → prepend (d ++ e) it ≡ prepend d (prepend e it)
prepend-append [] e it = refl
prepend-append ((c, bs) ∷ d) e it = ap (glyph c bs) (prepend-append d e it)

pub codes-append : (d e : Segment) → codes (d ++ e) ≡ codes d ++ codes e
codes-append [] e = refl
codes-append ((c, bs) ∷ d) e = ap (◌∷◌ c) (codes-append d e)

pub width-append : (d e : Segment) → width (d ++ e) ≡ width d + width e
width-append [] e = omega arith
width-append ((c, bs) ∷ d) e = omega (arith, width-append d e)

pub bytes-prepend : (d : Segment) (it : Input) → bytes (prepend d it) ≡ segment_bytes d ++ bytes it
bytes-prepend [] it = refl
bytes-prepend ((c, bs) ∷ d) it =
    rw (bytes-prepend d it) (sym (append_assoc bs (segment_bytes d) (bytes it)))

pub length-segment_bytes : (d : Segment) → length (segment_bytes d) ≡ width d
length-segment_bytes [] = refl
length-segment_bytes ((c, bs) ∷ d) =
    omega (arith, length-append bs (segment_bytes d), length-segment_bytes d)

pub count-prepend : (d : Segment) (it : Input) → count (prepend d it) ≡ length d + count it
count-prepend [] it = omega arith
count-prepend ((c, bs) ∷ d) it = omega (arith, count-prepend d it)

pub prepend-IsUtf8 : (d : Segment) (it : Input) → IsUtf8 (prepend d it) → IsUtf8 it
prepend-IsUtf8 [] it h = h
prepend-IsUtf8 ((c, bs) ∷ d) it h = prepend-IsUtf8 d it h.3

-- What a scan that began at `it`, at the distance `len`, has passed, if it ends without an error:
-- a segment with the property, from which the distance follows.
pub data Passes (len : ℕ) (it : Input) (P : List ℕ → Type 0) : Scan → Type 0 where
  passed :
      {len' : ℕ} {it' : Input} (d : Segment)
      → it ≡ prepend d it'
      → len' ≡ len + width d
      → P (codes d)
      → Passes len it P (scanned len' it')
  refused : {r : ElementResult} → r ≢ ok → Passes len it P (failed r)
  raised : Passes len it P threw

pub Passes-map :
    {P Q : List ℕ → Type 0} {len : ℕ} {it : Input} {m : Scan}
    → ((cs : List ℕ) → P cs → Q cs)
    → Passes len it P m
    → Passes len it Q m
Passes-map f (passed d e w p) = passed d e w (f (codes d) p)
Passes-map f (refused n) = refused n
Passes-map f raised = raised

pub Passes-nil :
    {P : List ℕ → Type 0} (len : ℕ) (it : Input) → P [] → Passes len it P (scanned len it)
Passes-nil len it p = passed [] refl (omega arith) p

-- A scan behind what has been passed.
Passes-prepend :
    {P Q : List ℕ → Type 0} {len len₁ : ℕ} {it it₁ : Input} {m : Scan} (d : Segment)
    → it ≡ prepend d it₁
    → len₁ ≡ len + width d
    → ((cs : List ℕ) → P cs → Q (codes d ++ cs))
    → Passes len₁ it₁ P m
    → Passes len it Q m
Passes-prepend d e w f (passed {it' = it₂} d₂ e₂ w₂ p) =
    passed (d ++ d₂) (e ∙ ap (prepend d) e₂ ∙ sym (prepend-append d d₂ it₂))
      (omega (arith, width-append d d₂)) (rw codes-append (f (codes d₂) p))
Passes-prepend d e w f (refused n) = refused n
Passes-prepend d e w f raised = raised

-- A scan behind a scan.
pub Passes->>= :
    {P Q : List ℕ → Type 0} {len : ℕ} {it : Input} {m : Scan} (f : ℕ × Input → Scan)
    (R : List ℕ → List ℕ → Type 0)
    → Passes len it P m
    → ((len' : ℕ) (it' : Input) (cs : List ℕ) → P cs → Passes len' it' (R cs) (f (len', it')))
    → ((cs ds : List ℕ) → R cs ds → Q (cs ++ ds))
    → Passes len it Q (m >>= f)
Passes->>= f R (passed {len'} {it'} d e w p) k j =
    Passes-prepend d e w (j (codes d)) (k len' it' (codes d) p)
Passes->>= f R (refused n) k j = refused n
Passes->>= f R raised k j = raised

-- A scan behind one code point.
pub Passes-glyph :
    {P Q : List ℕ → Type 0} {m : Scan} (len c : ℕ) (bs : List ℕ) (it : Input)
    → ((cs : List ℕ) → P cs → Q (c ∷ cs))
    → Passes (len + length bs) it P m
    → Passes len (glyph c bs it) Q m
Passes-glyph len c bs it f h = Passes-prepend ((c, bs) ∷ []) refl (omega arith) f h

abbrev pub Each : (ℕ → Bool) → List ℕ → Type 0
Each p = All (λ c. p c ≡ true)

pub skip_while-Passes :
    (p : ℕ → Bool) (len : ℕ) (it : Input) → Passes len it (Each p) (skip_while p len it)
unfolding skip_while
skip_while-Passes p len finish = Passes-nil len finish tt
skip_while-Passes p len (invalid bs) = raised
skip_while-Passes p len (glyph c bs it) = elim (Bool-cases (p c)) [
  | inl h ↦
      rw h (Passes-glyph len c bs it (λ cs q. (h, q)) (skip_while-Passes p (len + length bs) it))
  | inr h ↦ rw h (Passes-nil len (glyph c bs it) tt)
]

-- Where the first code point passes the test the scan passes it too.
pub skip_while-Passes_one :
    (p : ℕ → Bool) (len c : ℕ) (bs : List ℕ) (it : Input)
    → p c ≡ true
    → Passes len (glyph c bs it) (λ cs. Each p cs × (cs ≢ [])) (skip_while p len (glyph c bs it))
unfolding skip_while
skip_while-Passes_one p len c bs it h = rw h (
    Passes-glyph len c bs it (λ cs q. ((h, q), λ e. cc)) (skip_while-Passes p (len + length bs) it))
