-- ===== src/Tokeniser/RunLaws.antt =====
-- The loop of `run` (libelement/src/token_internal.cpp).
use element.Prelude.{
  ℕ, ◌+◌, ◌-◌, ◌<◌, false, ltb, ◌≡◌, ◌≢◌, refl, ap, true, ◌||◌, inl, inr, List, [], ◌∷◌, ◌++◌, none,
  some, arith, length, Bool-cases, Option-cases, ◌==◌, ==_iff, if◌then◌else◌,
}
use element.Result.{ElementResult, ok}
use element.Tokeniser.Chars.{is_digit, is_space, is_eol, isid_alpha}
use element.Tokeniser.Grammar.{
  Spells, IsIdentifier, name, unsigned, signed, IsUnsigned, whole, IsNumber, literal,
}
use element.Tokeniser.Input.{Input, finish, invalid, glyph, Scan}
use element.Tokeniser.Number.{is_sign}
use element.Tokeniser.Reading.{not_eol, comment, Reads, line_start, line_start-le}
use element.Tokeniser.Run.{
  Step, next, stop, thrown, undefined, added, invalid_character, finish_token, tokenise_number,
  tokenise_identifier, skip_comment, tokenise_comment, tokenise_underscore, newline,
  tokenise_default, punctuation, dispatch,
}
use element.Tokeniser.ScanLaws.{scan_number-Passes, scan_identifier-Passes}
use element.Tokeniser.Segment.{
  Segment, prepend, codes, width, Passes, passed, refused, raised, Each,
}
use element.Tokeniser.State.{
  TokenType, Token, number, identifier, underscore, dot, Tokeniser, begin_token, add_token,
  is_unset,
}
use element.Tokeniser.StateLaws.{
  Holds, put_token-Holds, end_token-Holds, end_comment-Holds, blank-Holds,
}
use element.Tokeniser.StartLaws.{newline-Holds}

-- A character that is none of a token, a comment or white space.
abbrev pub IsStray : ℕ → Type 0
IsStray c =
    (punctuation c ≡ none)
    × ((c == b'#') ≡ false)
    × (isid_alpha c ≡ false)
    × ((is_digit c || is_sign c) ≡ false)
    × (is_space c ≡ false)

-- One pass of the loop at `it`, behind `d`: it goes on behind a part of the source that is not empty,
-- or ends with the tokens of `d`, and with an error if it returns.
pub data Advances (source : Input) (it : Input) (d : Segment) : Step → Type 0 where
  onward :
      {s : Tokeniser} {it' : Input} (e : Segment)
      → e ≢ []
      → it ≡ prepend e it'
      → Holds source s (d ++ e)
      → Advances source it d (next s it')
  halted :
      {r : ElementResult} {s : Tokeniser}
      → r ≢ ok
      → Reads d s.tokens
      → s.input ≡ source
      → Advances source it d (stop r s)
  lost :
      {c : ℕ} {bs : List ℕ} {rest : Input} {ts : List Token}
      → it ≡ glyph c bs rest
      → IsStray c
      → 1024 < width d - line_start d
      → Reads d ts
      → Advances source it d undefined
  broken : {s : Tokeniser} → Reads d s.tokens → s.input ≡ source → Advances source it d (thrown s)

finish_token-Advances :
    {source it : Input} {m : Scan} (t : TokenType) (s : Tokeniser) (d : Segment)
    → Holds source s d
    → ¬ Spells t []
    → Passes 0 it (Spells t) m
    → Advances source it d (finish_token (begin_token t s) m)
finish_token-Advances t s d h n (passed {len'} e p w q) =
    onward e (λ z. n (rw z at q)) p (end_token-Holds t len' s d e h q (λ f. n (rw f refl)) w)
finish_token-Advances t s d h n (refused r) = halted r h.reads h.input
finish_token-Advances t s d h n raised = broken h.reads h.input

append-ne-nil : (cs ds : List ℕ) → cs ≢ [] → cs ++ ds ≢ []
append-ne-nil [] ds n = absurd (n refl)
append-ne-nil (c ∷ cs) ds n = λ e. cc

IsUnsigned-ne-nil : {cs : List ℕ} → IsUnsigned cs → cs ≢ []
IsUnsigned-ne-nil (whole {ds} {t} h g) = append-ne-nil ds t h.1

IsNumber-ne-nil : {cs : List ℕ} → IsNumber cs → cs ≢ []
IsNumber-ne-nil (literal unsigned g) = IsUnsigned-ne-nil g
IsNumber-ne-nil (literal (signed h) g) = λ e. cc

pub IsIdentifier-ne-nil : {cs : List ℕ} → IsIdentifier cs → cs ≢ []
IsIdentifier-ne-nil (name h g) = λ e. cc

-- The assertions of the source hold in the loop.
unset :
    {source : Input} {s : Tokeniser} {d : Segment}
    → Holds source s d
    → is_unset s.cur_token.type ≡ true
unset h = rw h.idle.type refl

number-Advances :
    {source : Input} (s : Tokeniser) (d : Segment) (it : Input)
    → Holds source s d
    → Advances source it d (tokenise_number s it)
unfolding tokenise_number
number-Advances s d it h =
    rw (unset h)
      (finish_token-Advances number s d h (λ n. IsNumber-ne-nil n refl) (scan_number-Passes it))

identifier-Advances :
    {source : Input} (s : Tokeniser) (d : Segment) (c : ℕ) (bs : List ℕ) (it : Input)
    → Holds source s d
    → isid_alpha c ≡ true
    → Advances source (glyph c bs it) d (tokenise_identifier s (glyph c bs it))
unfolding tokenise_identifier
identifier-Advances s d c bs it h p =
    rw (unset h, p)
      (finish_token-Advances identifier s d h (λ n. IsIdentifier-ne-nil n refl)
        (scan_identifier-Passes c bs it p))

-- The loop over a comment passes code points that are no newline.
skip_comment-passes :
    (len : ℕ) (it : Input)
    → (d : Segment) × (it ≡ prepend d (skip_comment len it).1)
      × ((skip_comment len it).0 ≡ len + width d)
      × Each not_eol (codes d)
unfolding skip_comment
skip_comment-passes len finish = ([], refl, omega arith, tt)
skip_comment-passes len (invalid bs) = ([], refl, omega arith, tt)
skip_comment-passes len (glyph c bs it) = elim (Bool-cases (not_eol c)) [
  | inl h ↦
      let (d, e, w, g) = skip_comment-passes (len + length bs) it in
      rw h ((c, bs) ∷ d, ap (glyph c bs) e, omega (arith, w), (h, g))
  | inr h ↦ rw h ([], refl, omega arith, tt)
]

comment-Advances :
    {source : Input} (s : Tokeniser) (d : Segment) (bs : List ℕ) (it : Input)
    → Holds source s d
    → Advances source (glyph b'#' bs it) d (tokenise_comment s (glyph b'#' bs it))
unfolding tokenise_comment skip_comment is_eol
comment-Advances s d bs it h =
    let (e, p, w, g) = skip_comment-passes (0 + length bs) it in
    onward ((b'#', bs) ∷ e) (λ z. cc) (ap (glyph b'#' bs) p)
      (end_comment-Holds (skip_comment (0 + length bs) it).0 s d ((b'#', bs) ∷ e) h (comment g)
        (omega (arith, w)))

cons-ne-nil : (c : ℕ) → (c ∷ []) ≢ []
cons-ne-nil c e = cc

-- A token of one ASCII character.
character-Advances :
    {source : Input} (t : TokenType) (s : Tokeniser) (d : Segment) (c : ℕ) (bs : List ℕ)
    (it : Input)
    → Holds source s d
    → Spells t (c ∷ [])
    → length bs ≡ 1
    → Advances source (glyph c bs it) d (added (add_token t 1 s) it)
character-Advances t s d c bs it h p w =
    let one : length bs + 0 ≡ 1 = omega arith in
    rw (unset h) (
      onward ((c, bs) ∷ []) (λ z. cc) refl
        (rw one at (put_token-Holds t s d ((c, bs) ∷ []) h p (λ f. cons-ne-nil c (rw f at p)))))

underscore_begins : isid_alpha b'_' ≡ true
unfolding isid_alpha
underscore_begins = refl

underscore-Advances :
    {source : Input} (s : Tokeniser) (d : Segment) (bs : List ℕ) (it : Input)
    → Holds source s d
    → length bs ≡ 1
    → Advances source (glyph b'_' bs it) d (tokenise_underscore s bs it)
unfolding tokenise_underscore
underscore-Advances s d bs (glyph c cs it) h w = elim (Bool-cases (isid_alpha c)) [
  | inl p ↦ rw p (identifier-Advances s d b'_' bs (glyph c cs it) h underscore_begins)
  | inr p ↦ rw p (character-Advances underscore s d b'_' bs (glyph c cs it) h refl w)
]
underscore-Advances s d bs _ h w = broken h.reads h.input

newline-Advances :
    {source : Input} (s : Tokeniser) (d : Segment) (c : ℕ) (bs : List ℕ) (it : Input)
    → Holds source s d
    → is_eol c ≡ true
    → is_space c ≡ true
    → length bs ≡ 1
    → Advances source (glyph c bs it) d (next (newline s) it)
newline-Advances s d c bs it h p q w =
    onward ((c, bs) ∷ []) (λ z. cc) refl (newline-Holds s d c bs h q p w)

eol_is_space : (c : ℕ) → is_eol c ≡ true → is_space c ≡ true
unfolding is_eol is_space
eol_is_space c h = ground arith

space-lt : (c : ℕ) → is_space c ≡ true → c < 128
unfolding is_space
space-lt c h = ground arith

-- The line up to the character is copied, if it is not too long.
invalid_character-Advances :
    {source : Input} (s : Tokeniser) (d : Segment) (c : ℕ) (bs : List ℕ) (it : Input)
    → Holds source s d
    → IsStray c
    → Advances source (glyph c bs it) d (invalid_character s)
invalid_character-Advances s d c bs it h y =
    let begun : ltb s.pos s.line_start_position ≡ false =
      ground (arith, line_start-le d, h.placed.pos, h.placed.line_start) in
    elim (Bool-cases (ltb 1024 (s.pos - s.line_start_position))) [
      | inl e ↦
          let far : 1024 < s.pos - s.line_start_position = ground arith in
          rw (begun, e) (lost refl y (omega (arith, h.placed.pos, h.placed.line_start)) h.reads)
      | inr e ↦ rw (begun, e) (halted (λ z. cc) h.reads h.input)
    ]

default-Advances :
    {source : Input} (s : Tokeniser) (d : Segment) (c : ℕ) (bs : List ℕ) (it : Input)
    → Holds source s d
    → punctuation c ≡ none
    → (c == b'#') ≡ false
    → (c < 128 → length bs ≡ 1)
    → Advances source (glyph c bs it) d (tokenise_default s c bs it)
unfolding tokenise_default
default-Advances s d c bs it h u v w = elim (Bool-cases (isid_alpha c)) [
  | inl p ↦ rw p (identifier-Advances s d c bs it h p)
  | inr p ↦ elim (Bool-cases (is_digit c || is_sign c)) [
    | inl q ↦ rw (p, q, if◌then◌else◌) (number-Advances s d (glyph c bs it) h)
    | inr q ↦ elim (Bool-cases (is_eol c)) [
      | inl e ↦
          rw (p, q, e, if◌then◌else◌)
            (newline-Advances s d c bs it h e (eol_is_space c e)
              (w (space-lt c (eol_is_space c e))))
      | inr e ↦ elim (Bool-cases (is_space c)) [
        | inl b ↦
            rw (p, q, e, b, if◌then◌else◌)
              (onward ((c, bs) ∷ []) (λ z. cc) refl (blank-Holds s d c bs h b e (w (space-lt c b))))
        | inr b ↦
            rw (p, q, e, b, if◌then◌else◌)
              (invalid_character-Advances s d c bs it h (u, v, p, q, b))
      ]
    ]
  ]
]

-- The characters for which the switch has a label spell their token.
punctuation-Spells :
    (c : ℕ) (t : TokenType) → punctuation c ≡ some t → Spells t (c ∷ []) × (c < 128)
unfolding punctuation
punctuation-Spells c dot e = ground arith
punctuation-Spells c _ e = ground arith

other_label :
    {source : Input} (s : Tokeniser) (d : Segment) (c : ℕ) (bs : List ℕ) (it : Input)
    → Holds source s d
    → punctuation c ≡ none
    → (c < 128 → bs ≡ c ∷ [])
    → Advances source (glyph c bs it) d (dispatch none s c bs it)
unfolding dispatch
other_label s d c bs it h u w = elim (Bool-cases (c == b'#')) [
  | inl p ↦ rw p (rw ((==_iff c b'#').0 p) (comment-Advances s d bs it h))
  | inr p ↦ elim (Bool-cases (c == b'_')) [
    | inl q ↦
        rw (p, q, if◌then◌else◌)
          (rw ((==_iff c b'_').0 q)
            (underscore-Advances s d bs it h (ap length (w (omega (arith, (==_iff c b'_').0 q))))))
    | inr q ↦ rw (p, q, if◌then◌else◌) (default-Advances s d c bs it h u p (λ l. ap length (w l)))
  ]
]

pub dispatch-Advances :
    {source : Input} (s : Tokeniser) (d : Segment) (c : ℕ) (bs : List ℕ) (it : Input)
    → Holds source s d
    → (c < 128 → bs ≡ c ∷ [])
    → Advances source (glyph c bs it) d (dispatch (punctuation c) s c bs it)
unfolding dispatch
dispatch-Advances s d c bs it h w = elim (Option-cases (punctuation c)) [
  | inl p ↦ rw p (other_label s d c bs it h p w)
  | inr (t, p) ↦
      let (q, l) = punctuation-Spells c t p in
      rw p (character-Advances t s d c bs it h q (ap length (w l)))
]
