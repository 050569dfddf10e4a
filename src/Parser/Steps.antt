-- ===== src/Parser/Steps.antt =====
-- The steps of `element_parser_ctx` over the tokens (libelement/src/ast/parser_internal.cpp), and its terminals.
use element.Prelude.{
  ℕ, zero, suc, ◌-◌, Bool, true, false, ◌&&◌, List, Option, none, some, length, get_elem?, ltb,
  ◌==◌, if◌then◌else◌,
}
use element.Result.{
  ElementResult, ok, accessed_token_past_end, invalid_identifier, reserved_identifier,
}
use element.Tokeniser.State.{TokenType, no_token, number, identifier, Token, Tokeniser, text_of}
use element.Parser.Outcome.{
  Parser, Outcome, parsed, failed, fault, thrown, P, pure, fail, ◌>>=◌, ◌>>◌,
}
use element.Parser.Words.{check_reserved_words}

-- The numbers of the enumeration (libelement/include/element/token.h).
abbrev pub token_code : TokenType → ℕ
token_code TokenType.no_token = 0
token_code TokenType.number = 1
token_code TokenType.identifier = 2
token_code TokenType.underscore = 3
token_code TokenType.dot = 4
token_code TokenType.bracketl = 5
token_code TokenType.bracketr = 6
token_code TokenType.colon = 7
token_code TokenType.comma = 8
token_code TokenType.bracel = 9
token_code TokenType.bracer = 10
token_code TokenType.equals = 11
token_code TokenType.eof = 12

abbrev pub same_token : TokenType → TokenType → Bool
same_token a b = token_code a == token_code b

-- Whether a token has been read, of a type to be skipped.
abbrev pub is_none_token : Option Token → Bool
is_none_token none = false
is_none_token (some t) = same_token t.type no_token

-- The pointer of `get_token`, and its result.
abbrev pub pointer_at : Option Token → ℕ → Option ℕ
pointer_at none k = none
pointer_at (some t) k = some k

abbrev pub result_at : Option Token → ElementResult
result_at none = accessed_token_past_end
result_at (some t) = ok

-- The pointers, for a node.
abbrev pub nearest : P (Option ℕ)
nearest s = parsed s.current_token s

abbrev pub nearest_previous : P (Option ℕ)
nearest_previous s = parsed s.previous_token s

-- `parent`, the tokeniser, does not change.
module _ (tk : Tokeniser) where
  -- The `do` loop of `advance`, from the token index on: one pass, and one more for each token that is
  -- skipped; there are not more than tokens.
  unfoldable pub skip_none : ℕ → ℕ → ℕ
  skip_none zero k = suc k
  skip_none (suc n) k =
      let again = skip_none n (suc k) in
      if ltb (suc k) (length tk.tokens - 1) && is_none_token (get_elem? tk.tokens (suc k))
      then again
      else suc k

  abbrev pub moved_to : Parser → ℕ → Parser
  moved_to s k = record {
    token_index = k;
    previous_token = s.current_token;
    current_token = pointer_at (get_elem? tk.tokens k) k;
  }

  abbrev pub advance_to : ℕ → Parser → ElementResult × Parser
  advance_to k s = (result_at (get_elem? tk.tokens k), moved_to s k)

  unfoldable pub advance_result : Parser → ElementResult × Parser
  advance_result s = advance_to (skip_none (length tk.tokens) s.token_index) s

  abbrev pub checked : ElementResult × Parser → Outcome (Unit {0})
  checked (ok, s) = parsed tt s
  checked (r, s) = failed r

  -- ELEMENT_OK_OR_RETURN(advance())
  unfoldable pub advance : P (Unit {0})
  advance s = checked (advance_result s)

  -- advance() == ELEMENT_OK
  abbrev pub is_ok : ElementResult × Parser → Outcome Bool
  is_ok (ok, s) = parsed true s
  is_ok (r, s) = parsed false s

  unfoldable pub advance_ok : P Bool
  advance_ok s = is_ok (advance_result s)

  abbrev pub token_at : Option ℕ → Option Token
  token_at none = none
  token_at (some k) = get_elem? tk.tokens k

  abbrev pub read : Option Token → P Token
  read none s = fault
  read (some t) s = parsed t s

  -- *current_token
  unfoldable pub current : P Token
  current s = read (token_at s.current_token) s

  unfoldable pub advance_then_check : TokenType → ElementResult → P (Unit {0})
  advance_then_check type r = do
    advance
    t ← current
    if same_token t.type type then pure tt else fail r

  unfoldable pub advance_then_check_not : TokenType → ElementResult → P (Unit {0})
  advance_then_check_not type r = do
    advance
    t ← current
    if same_token t.type type then fail r else pure tt

  abbrev pub finish_identifier : List ℕ → ElementResult → P (List ℕ)
  finish_identifier name ok = pure name
  finish_identifier name r = fail reserved_identifier

  -- The identifier, where it is assigned to the node.
  unfoldable pub parse_identifier : Bool → Bool → P (List ℕ)
  parse_identifier allow_reserved_args allow_reserved_names = do
    t ← current
    let name = text_of tk t
    if same_token t.type identifier
        then (advance
            >> finish_identifier name
                (check_reserved_words name allow_reserved_args allow_reserved_names))
        else fail invalid_identifier

  module _ {V : Type 0} (stof : List ℕ → Option V) where
    -- `std::stof` throws where it converts nothing, or where the number is too large.
    abbrev pub convert : Option V → P V
    convert none s = thrown
    convert (some v) s = parsed v s

    unfoldable pub parse_literal : P V
    parse_literal = do
      t ← current
      if same_token t.type number
          then (convert (stof (text_of tk t)) >>= λ v. advance >> pure v)
          else (λ s. fault)
