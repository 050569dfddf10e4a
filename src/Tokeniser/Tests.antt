-- ===== src/Tokeniser/Tests.antt =====
-- Runs of the tokeniser on small sources, and the theorems at concrete inputs.
use Prim.Native.String.{String}
use element.Prelude.{
  zero, suc, length, All, ◌↔◌, ◌⊎◌, ◌≤◌, true, arith, ℕ, List, [], ◌∷◌, Option, none, some, ◌≡◌,
  refl,
}
use element.Prelude.Int.{to_ℕ}
use element.Result.{ElementResult, ok, exception, parse_error, bad_index_into_number}
use element.Tokeniser.CharsLaws.{is_alpha_iff}
use element.Tokeniser.Ascii.{ascii, is_ascii, ascii-IsUtf8}
use element.Tokeniser.Clear.{create-IsFresh, clear-IsFresh_iff}
use element.Tokeniser.Correct.{Overruns, Finishes, run-Outcome}
use element.Tokeniser.StartLaws.{IsFresh}
use element.Tokeniser.Grammar.{Spells, name}
use element.Tokeniser.Identifier.{at_other, tokenise_identifier-prepend}
use element.Tokeniser.Segment.{Segment, prepend, codes, width, segment_bytes}
use element.Tokeniser.Texts.{run_texts, IsOrdered, last_end}
use element.Tokeniser.Input.{bytes, IsUtf8, Input, finish, glyph, skip_while}
use element.Tokeniser.State.{
  clear, text, begin_token, end_token, no_token, TokenType, Token, Tokeniser, create, reset_token,
  put_token, number, identifier, dot, bracketl, bracketr, underscore, equals, eof,
}
use element.Tokeniser.Run.{
  next, run, run_loop, resume, start, dispatch, punctuation, tokenise_default, tokenise_underscore,
  tokenise_comment, tokenise_identifier, tokenise_number, newline, skip_comment, scan_identifier,
}
use element.Tokeniser.Chars.{is_alpha, is_digit, is_alnum, is_space, is_eol, isid_alpha, isid_alnum}
use element.Tokeniser.Number.{
  scan_number, digits, point, fraction, exponent, exponent_sign, exponent_digits,
}

abbrev summary : List Token → List (TokenType × ℕ × ℕ)
summary [] = []
summary (t ∷ ts) = (t.type, to_ℕ t.tok_pos, to_ℕ t.tok_len) ∷ summary ts

abbrev outcome :
    Option (ElementResult × Tokeniser) → Option (ElementResult × List (TokenType × ℕ × ℕ))
outcome none = none
outcome (some (r, s)) = some (r, summary s.tokens)

tokenise : String → Option (ElementResult × List (TokenType × ℕ × ℕ))
unfolding run run_loop resume start dispatch punctuation tokenise_default tokenise_underscore
    tokenise_comment tokenise_identifier tokenise_number newline put_token reset_token skip_comment
    scan_identifier scan_number digits point fraction exponent exponent_sign exponent_digits
    skip_while is_alpha is_digit is_alnum is_space is_eol isid_alpha isid_alnum
tokenise s = outcome (run create (ascii s) none)

tokens_of_definition :
    tokenise "f(_) = 1.5e-3.x # end\n"
    ≡ some (
      ok,
      (identifier, 0, 1)
          ∷ (bracketl, 1, 1)
          ∷ (underscore, 2, 1)
          ∷ (bracketr, 3, 1)
          ∷ (equals, 5, 1)
          ∷ (number, 7, 6)
          ∷ (dot, 13, 1)
          ∷ (identifier, 14, 1)
          ∷ (eof, 22, 0)
          ∷ [],
    )
unfolding tokenise
tokens_of_definition = refl

refusals :
    (tokenise "1." ≡ some (exception, []))
    × (tokenise "1.(" ≡ some (bad_index_into_number, []))
    × (tokenise "-x" ≡ some (parse_error, []))
    × (tokenise "_" ≡ some (exception, []))
unfolding tokenise
refusals = (refl, refl, refl, refl)

-- f = 1 # x
abbrev definition : Input
definition = ascii "f = 1 # x\n"

definition-IsUtf8 : IsUtf8 definition
unfolding is_ascii
definition-IsUtf8 = ascii-IsUtf8 "f = 1 # x\n" refl

run-Outcome_example : Finishes definition (run create definition none)
run-Outcome_example = run-Outcome create definition none create-IsFresh definition-IsUtf8

clear-IsFresh_iff_example :
    IsFresh (clear create)
    ↔ ((create.cur_token.type ≡ no_token) × (create.line_number_to_line_pos ≡ 0 ∷ []))
clear-IsFresh_iff_example = clear-IsFresh_iff create

is_alpha_iff_example :
    (is_alpha b'q' ≡ true) ↔ (((b'A' ≤ b'q') × (b'q' ≤ b'Z')) ⊎ ((b'a' ≤ b'q') × (b'q' ≤ b'z')))
is_alpha_iff_example = is_alpha_iff b'q' (omega arith)

run_texts_example :
    ((r : ElementResult) × (s : Tokeniser) × (run create definition none ≡ some (r, s))
      × All
          (λ t. (g : Segment) × (text s t ≡ some (segment_bytes g)) × Spells t.type (codes g))
          s.tokens
      × IsOrdered 0 s.tokens
      × (last_end 0 s.tokens ≤ length (bytes s.input)))
    ⊎ ((run create definition none ≡ none) × Overruns definition)
run_texts_example = run_texts create definition none create-IsFresh definition-IsUtf8

-- The name x_1 before a space.
abbrev x_1 : Segment
x_1 = (b'x', b'x' ∷ []) ∷ (b'_', b'_' ∷ []) ∷ (b'1', b'1' ∷ []) ∷ []

abbrev space : Input
space = glyph b' ' (b' ' ∷ []) finish

tokenise_identifier-prepend_example :
    tokenise_identifier create (prepend x_1 space)
    ≡ next (end_token (width x_1) (begin_token identifier create)) space
unfolding is_alpha is_digit is_alnum isid_alpha isid_alnum
tokenise_identifier-prepend_example =
    tokenise_identifier-prepend create x_1 space refl (name refl (refl, (refl, tt))) (at_other refl)

abbrev repeat : ℕ → Input → Input
repeat zero it = it
repeat (suc n) it = glyph b' ' (b' ' ∷ []) (repeat n it)

-- A character that begins nothing, this far behind the beginning of its line.
stray_at : ℕ → Option (ElementResult × List (TokenType × ℕ × ℕ))
unfolding run run_loop resume start dispatch punctuation tokenise_default tokenise_underscore
    tokenise_comment tokenise_identifier tokenise_number newline put_token reset_token skip_comment
    scan_identifier scan_number digits point fraction exponent exponent_sign exponent_digits
    skip_while is_alpha is_digit is_alnum is_space is_eol isid_alpha isid_alnum
stray_at n = outcome (run create (repeat n (glyph b'?' (b'?' ∷ []) finish)) none)

stray_characters : (stray_at 1024 ≡ some (parse_error, [])) × (stray_at 1025 ≡ none)
unfolding stray_at
stray_characters = (refl, refl)
