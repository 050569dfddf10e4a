-- ===== src/Tokeniser/Run.antt =====
-- `tokenise_number`, `tokenise_comment`, `tokenise_identifier` and `run`
-- (libelement/src/token_internal.cpp). An exception of the UTF-8 library ends `run` with
-- `ELEMENT_ERROR_EXCEPTION`, in the state that the fields then have.
use element.Prelude.{
  ℕ, zero, suc, ◌+◌, ◌-◌, Bool, true, false, ltb, not, ◌||◌, List, [], ◌∷◌, ◌++◌, Option, none,
  some, length, ◌==◌, if◌then◌else◌,
}
use element.Prelude.Int.{ℤ, add_ℕ, is_negative}
use element.Result.{ElementResult, ok, exception, parse_error}
use element.Tokeniser.Chars.{is_digit, is_space, is_eol, isid_alpha, isid_alnum}
use element.Tokeniser.Input.{
  Input, finish, invalid, glyph, count, Scan, scanned, failed, threw, skip_while,
}
use element.Tokeniser.Number.{is_sign, scan_number}
use element.Tokeniser.State.{
  TokenType, number, identifier, underscore, dot, bracketl, bracketr, colon, comma, bracel, bracer,
  equals, eof, SourceName, Tokeniser, begin_token, end_token, reset_token, add_token, is_unset,
}

-- One pass of the loop: on to the next, a `return`, or an exception.
pub data Step : Type 0 where
  next : Tokeniser → Input → Step
  stop : ElementResult → Tokeniser → Step
  thrown : Tokeniser → Step
  -- A failed assertion, or undefined behaviour.
  undefined : Step

-- What follows `assert`.
abbrev pub asserting : Bool → Step → Step
asserting true rest = rest
asserting false rest = undefined

-- On behind `add_token`.
abbrev pub added : Option Tokeniser → Input → Step
added none it = undefined
added (some s) it = next s it

-- The end of `tokenise_number` and `tokenise_identifier`, behind their scan.
abbrev pub finish_token : Tokeniser → Scan → Step
finish_token s (scanned len it) = next (end_token len s) it
finish_token s (failed r) = stop r s
finish_token s threw = thrown s

unfoldable pub tokenise_number : Tokeniser → Input → Step
tokenise_number s it =
    asserting (is_unset s.cur_token.type) (finish_token (begin_token number s) (scan_number it))

abbrev pub is_id : ℕ → Bool
is_id c = isid_alnum c || c == b'_'

unfoldable pub scan_identifier : Input → Scan
scan_identifier (glyph c bs it) =
    if c == b'_' then skip_while is_id (length bs) it else skip_while is_id 0 (glyph c bs it)
scan_identifier it = threw

-- Behind the first assertion. The second is on the first code point, also where this is `_`.
abbrev pub begin_identifier : Tokeniser → Input → Step
begin_identifier s (glyph c bs it) =
    asserting (isid_alpha c)
      (finish_token (begin_token identifier s) (scan_identifier (glyph c bs it)))
begin_identifier s it = thrown (begin_token identifier s)

unfoldable pub tokenise_identifier : Tokeniser → Input → Step
tokenise_identifier s it = asserting (is_unset s.cur_token.type) (begin_identifier s it)

-- The loop of `tokenise_comment`. It catches the exceptions itself, and stops there.
unfoldable pub skip_comment : ℕ → Input → ℕ × Input
skip_comment len (glyph c bs it) =
    if not (is_eol c) then skip_comment (len + length bs) it else (len, glyph c bs it)
skip_comment len it = (len, it)

-- `pos`, `character` and the comment's length, behind the loop.
abbrev pub end_comment : Tokeniser → ℕ → Tokeniser
end_comment s len = record s {
  cur_token = record s.cur_token {
    post_pos = if is_negative s.cur_token.post_pos then ℤ.pos s.pos else s.cur_token.post_pos;
    post_len = add_ℕ s.cur_token.post_len len;
  };
  pos = s.pos + len;
  character = s.character + len;
}

unfoldable pub tokenise_comment : Tokeniser → Input → Step
tokenise_comment s it = let (len, it') = skip_comment 0 it in next (end_comment s len) it'

-- `case '_'`; `rest` is what `it + 1` points to.
unfoldable pub tokenise_underscore : Tokeniser → List ℕ → Input → Step
tokenise_underscore s bs (glyph c cs it) =
    if isid_alpha c
    then tokenise_identifier s (glyph b'_' bs (glyph c cs it))
    else added (add_token underscore 1 s) (glyph c cs it)
tokenise_underscore s bs it = thrown s

unfoldable pub newline : Tokeniser → Tokeniser
newline s = reset_token (record s {
  line = s.line + 1;
  character = 1;
  pos = s.pos + 1;
  line_start_position = s.pos + 1;
  line_number_to_line_pos = s.line_number_to_line_pos ++ (s.pos + 1) ∷ [];
})

-- The line up to here is copied into a string of 1024 bytes.
abbrev pub invalid_character : Tokeniser → Step
invalid_character s =
    if ltb s.pos s.line_start_position || ltb 1024 (s.pos - s.line_start_position)
    then undefined
    else stop parse_error s

-- The `default` label of the switch.
unfoldable pub tokenise_default : Tokeniser → ℕ → List ℕ → Input → Step
tokenise_default s c bs it =
    if isid_alpha c
    then tokenise_identifier s (glyph c bs it)
    else if is_digit c || is_sign c
    then tokenise_number s (glyph c bs it)
    else if is_eol c
    then next (newline s) it
    else if is_space c
    then next (record s { pos = s.pos + 1; character = s.character + 1 }) it
    else invalid_character s

-- The tokens of one character.
unfoldable pub punctuation : ℕ → Option TokenType
punctuation c =
    if c == b'.'
    then some dot
    else if c == b'('
    then some bracketl
    else if c == b')'
    then some bracketr
    else if c == b','
    then some comma
    else if c == b':'
    then some colon
    else if c == b'{'
    then some bracel
    else if c == b'}'
    then some bracer
    else if c == b'='
    then some equals
    else none

-- The other labels of the switch, where `punctuation` has none.
unfoldable pub dispatch : Option TokenType → Tokeniser → ℕ → List ℕ → Input → Step
dispatch (some t) s c bs it = added (add_token t 1 s) it
dispatch none s c bs it =
    if c == b'#'
    then tokenise_comment s (glyph c bs it)
    else if c == b'_'
    then tokenise_underscore s bs it
    else tokenise_default s c bs it

-- What follows a pass, with the rest of the loop: an exception is caught behind the loop.
unfoldable pub resume :
    (Tokeniser → Input → Option (ElementResult × Tokeniser))
    → Step
    → Option (ElementResult × Tokeniser)
resume rest (next s it) = rest s it
resume rest (stop r s) = some (r, s)
resume rest (thrown s) = some (exception, s)
resume rest undefined = none

-- The last token.
abbrev pub ended : Option Tokeniser → Option (ElementResult × Tokeniser)
ended none = none
ended (some s) = some (ok, s)

-- The `while` loop. `none` means that the fuel ran out, or an end that is undefined.
unfoldable pub run_loop : ℕ → Tokeniser → Input → Option (ElementResult × Tokeniser)
run_loop zero s it = none
run_loop (suc fuel) s finish = ended (add_token eof 0 s)
run_loop (suc fuel) s (invalid bs) = some (exception, s)
run_loop (suc fuel) s (glyph c bs it) = resume (run_loop fuel) (dispatch (punctuation c) s c bs it)

-- The state in which the loop begins. `line_start_position` keeps its value.
unfoldable pub start : Tokeniser → Input → SourceName → Tokeniser
start s input name =
    reset_token
      (record s { raw_source_name = name; input = input; pos = 0; line = 1; character = 1 })

unfoldable pub run : Tokeniser → Input → SourceName → Option (ElementResult × Tokeniser)
run s input name = run_loop (suc (count input)) (start s input name) input
