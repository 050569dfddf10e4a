-- ===== src/Parser/Expressions.antt =====
-- Expressions, ports and bodies (libelement/src/ast/parser_internal.cpp). A method is given what it calls
-- in turn: `expr` for `parse_expression` and `item` for `parse_item`, with the types of the node that they
-- add to and, for an item, of that node's parent; Build ties the knot.
use element.Prelude.{ℕ, zero, suc, true, false, ◌||◌, List, [], Option, if◌then◌else◌}
use element.Result.{
  invalid_typename, invalid_port, missing_contents_for_call, missing_parenthesis_for_call,
  invalid_contents_for_call, invalid_expression, parse_error, missing_function_body, missing_body,
}
use element.Tokeniser.State.{
  TokenType, number, identifier, underscore, dot, bracketl, bracketr, colon, bracel, bracer, equals,
  Tokeniser,
}
use element.Parser.Ast.{
  NodeType, function, scope, exprlist, portlist, port, typename, call, lambda, literal,
  unspecified_type, unspecified_default, anonymous_block, no_flags, value, flags, Ast, node,
  Children, nil, cons, bare, leaf, same_node,
}
use element.Parser.Outcome.{P, fault, pure, fail, exhausted, failing_with, ◌>>=◌, ◌>>◌}
use element.Parser.Steps.{
  same_token, current, advance, nearest, nearest_previous, advance_then_check,
  advance_then_check_not, parse_identifier, parse_literal,
}
use element.Parser.Loops.{separated, until_bracer, block_parts, prepend}

module _ (tk : Tokeniser) {V : Type 0} (stof : List ℕ → Option V) (fuel : ℕ)
    (expr : NodeType → P (Ast V)) (item : NodeType → NodeType → P (Ast V)) where
  -- assert(current_token->type == type)
  abbrev pub asserting : {A : Type 0} → TokenType → P A → P A
  asserting type rest = current tk >>= λ t. if same_token t.type type then rest else (λ s. fault)

  unfoldable pub parse_typename : P (Ast V)
  parse_typename = nearest >>= λ k. (λ s. failing_with invalid_typename (expr typename s)) >>= λ e.
      pure (bare typename k (cons e nil))

  unfoldable pub parse_port_name : P (List ℕ)
  parse_port_name = current tk >>= λ t.
      if same_token t.type identifier
      then parse_identifier tk true false
      else if same_token t.type underscore
      then (advance tk >> pure [])
      else fail invalid_port

  -- A type behind a colon, or the node that stands for none.
  unfoldable pub parse_return_type : P (Ast V)
  parse_return_type = current tk >>= λ t.
      if same_token t.type colon
      then (advance tk >> parse_typename)
      else nearest >>= λ k. pure (leaf unspecified_type k)

  unfoldable pub parse_default : P (Ast V)
  parse_default = current tk >>= λ t.
      if same_token t.type equals
      then (advance tk >> expr port)
      else nearest >>= λ k. pure (leaf unspecified_default k)

  unfoldable pub parse_port : P (Ast V)
  parse_port = nearest >>= λ k. parse_port_name >>= λ name. parse_return_type >>= λ t.
      parse_default >>= λ d. pure (node port name (flags no_flags) k (cons t (cons d nil)))

  unfoldable pub parse_portlist : P (Ast V)
  parse_portlist =
      nearest_previous >>= λ k. separated tk parse_port fuel >>= λ ps. pure (bare portlist k ps)

  unfoldable pub parse_exprlist : P (Ast V)
  parse_exprlist = asserting bracketl (
      advance tk >> nearest >>= λ k. current tk >>= λ t.
      if same_token t.type bracketr
      then fail missing_contents_for_call
      else separated tk (expr exprlist) fuel >>= λ es. current tk >>= λ u.
          if same_token u.type bracketr
          then (advance tk >> pure (bare exprlist k es))
          else fail missing_parenthesis_for_call)

  -- The loop of `parse_call`.
  unfoldable pub links : ℕ → P (Children V)
  links zero = exhausted
  links (suc n) =
      let arguments = parse_exprlist >>= λ c. prepend tk c (links n) in
      let member = advance tk >> nearest >>= λ k. parse_identifier tk false false >>= λ name.
      prepend tk (node call name (flags no_flags) k nil) (links n) in
      current tk >>= λ t.
      if same_token t.type bracketl
      then arguments
      else if same_token t.type dot
      then member
      else pure nil

  unfoldable pub parse_call : P (Ast V)
  parse_call = nearest >>= λ k. current tk >>= λ t.
      if same_token t.type identifier
      then (parse_identifier tk false false >>= λ name.
          links fuel >>= λ ls. pure (node call name (flags no_flags) k ls))
      else if same_token t.type number
      then (parse_literal tk stof >>= λ v.
          links fuel >>= λ ls. pure (node literal [] (value v) k ls))
      else fail invalid_contents_for_call

  unfoldable pub parse_scope : NodeType → P (Ast V)
  parse_scope parent = nearest >>= λ k. current tk >>= λ t.
      (if same_token t.type bracel then advance tk else pure tt)
      >> until_bracer tk (item scope parent) fuel
      >>= λ is. advance tk >> pure (bare scope k is)

  unfoldable pub parse_anonymous_block : NodeType → P (Ast V)
  parse_anonymous_block parent = asserting bracel (
      advance_then_check_not tk bracer parse_error >> nearest >>= λ k.
      block_parts tk (item anonymous_block parent) fuel >>= λ is.
      advance tk >> pure (bare anonymous_block k is))

  -- The body of a node of one type, in a node of another.
  unfoldable pub parse_function_body : NodeType → NodeType → P (Ast V)
  parse_function_body parent grandparent = current tk >>= λ t.
      if same_token t.type bracel
      then parse_scope parent
      else if same_token t.type equals
      then (advance tk >> expr parent)
      else if same_node grandparent function
      then fail missing_function_body
      else fail missing_body

  unfoldable pub parse_lambda : NodeType → P (Ast V)
  parse_lambda parent = asserting underscore (
      nearest >>= λ k.
      advance_then_check tk bracketl parse_error >> advance tk >> parse_portlist >>= λ ps.
      current tk >>= λ t.
      if same_token t.type bracketr
      then (advance tk >> parse_return_type >>= λ r. parse_function_body lambda parent >>= λ b.
          pure (bare lambda k (cons ps (cons r (cons b nil)))))
      else fail parse_error)

  unfoldable pub parse_expression_step : NodeType → P (Ast V)
  parse_expression_step parent = current tk >>= λ t.
      if same_token t.type identifier || same_token t.type number
      then parse_call
      else if same_token t.type underscore
      then parse_lambda parent
      else if same_token t.type bracel
      then parse_anonymous_block parent
      else fail invalid_expression
