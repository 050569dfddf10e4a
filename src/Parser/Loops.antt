-- ===== src/Parser/Loops.antt =====
-- The loops of libelement/src/ast/parser_internal.cpp, over what one pass calls. Each pass takes fuel.
use element.Prelude.{ℕ, zero, suc, Bool, true, false, if◌then◌else◌}
use element.Result.{missing_comma_in_anonymous_block}
use element.Tokeniser.State.{comma, bracer, Tokeniser}
use element.Parser.Ast.{Ast, Children, nil, cons}
use element.Parser.Outcome.{P, pure, fail, exhausted, ◌>>=◌, ◌>>◌}
use element.Parser.Steps.{same_token, current, advance, advance_ok}

module _ (tk : Tokeniser) where
  -- Between the parts of an anonymous block.
  unfoldable pub after_part : P (Unit {0})
  after_part = current tk >>= λ t.
      if same_token t.type bracer
      then pure tt
      else if same_token t.type comma
      then advance tk
      else fail missing_comma_in_anonymous_block

module _ (tk : Tokeniser) {V : Type 0} where
  abbrev pub prepend : Ast V → P (Children V) → P (Children V)
  prepend c rest = rest >>= λ cs. pure (cons c cs)

  -- What follows a comma, if `advance` has succeeded.
  abbrev pub if_advanced : Bool → P (Children V) → P (Children V)
  if_advanced true rest = rest
  if_advanced false rest = pure nil

  -- do { ... } while (current_token->type == ELEMENT_TOK_COMMA && advance() == ELEMENT_OK);
  unfoldable pub separated : P (Ast V) → ℕ → P (Children V)
  separated part zero = exhausted
  separated part (suc n) =
      let more = advance_ok tk >>= λ b. if_advanced b (separated part n) in
      part >>= λ c.
      current tk >>= λ t. prepend c (if same_token t.type comma then more else pure nil)

  -- while (current_token->type != ELEMENT_TOK_BRACER) ...
  unfoldable pub until_bracer : P (Ast V) → ℕ → P (Children V)
  until_bracer part zero = exhausted
  until_bracer part (suc n) =
      let more = part >>= λ c. prepend c (until_bracer part n) in
      current tk >>= λ t. if same_token t.type bracer then pure nil else more

  unfoldable pub block_parts : P (Ast V) → ℕ → P (Children V)
  block_parts part zero = exhausted
  block_parts part (suc n) =
      let more = part >>= λ c. after_part tk >> prepend c (block_parts part n) in
      current tk >>= λ t. if same_token t.type bracer then pure nil else more
