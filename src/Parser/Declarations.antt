-- ===== src/Parser/Declarations.antt =====
-- Declarations and items (libelement/src/ast/parser_internal.cpp). `parent` is the type of the node that an
-- item is added to, and `grandparent` that of its parent.
use element.Prelude.{ℕ, Bool, false, not, ◌&&◌, ◌||◌, List, [], Option, if◌then◌else◌}
use element.Result.{
  missing_closing_parenthesis_for_portlist, struct_cannot_have_return_type, missing_function_body,
  missing_ports, constraint_has_body,
}
use element.Tokeniser.State.{TokenType, bracketl, bracketr, bracel, equals, Tokeniser, text_of}
use element.Parser.Ast.{
  NodeType, no_node, function, struct, namespace, declaration, scope, constraint, lambda, no_body,
  Flags, no_flags, intrinsic_flag, empty_input_flag, flags, Ast, node, nil, cons, bare, leaf,
  same_node, function_get_declaration, struct_get_declaration, constraint_get_declaration,
  declaration_has_outputs, declaration_is_intrinsic, declaration_has_portlist,
}
use element.Parser.Outcome.{P, pure, fail, required, ◌>>=◌, ◌>>◌}
use element.Parser.Words.{word, same_text}
use element.Parser.Steps.{same_token, current, advance, nearest, parse_identifier}
use element.Parser.Expressions.{parse_portlist, parse_return_type, parse_scope, parse_function_body}

-- `in_function_scope` and `in_lambda_scope` of a node that stands in these.
abbrev pub in_scope_of : NodeType → NodeType → NodeType → Bool
in_scope_of type parent grandparent = same_node parent scope && same_node grandparent type

abbrev pub in_local_scope : NodeType → NodeType → Bool
in_local_scope parent grandparent =
    in_scope_of function parent grandparent || in_scope_of lambda parent grandparent

module _ (tk : Tokeniser) {V : Type 0} (stof : List ℕ → Option V) (fuel : ℕ)
    (expr : NodeType → P (Ast V)) (item : NodeType → NodeType → P (Ast V)) where
  -- A second `intrinsic` is left to what follows.
  unfoldable pub parse_qualifiers : P Flags
  parse_qualifiers = current tk >>= λ t.
      if same_token t.type TokenType.identifier && same_text (text_of tk t) (word "intrinsic")
      then (advance tk >> pure intrinsic_flag)
      else pure no_flags

  -- The list of ports, or the node that stands for none.
  unfoldable pub parse_inputs : P (Ast V)
  parse_inputs = current tk >>= λ t.
      if same_token t.type bracketl
      then (advance tk >> parse_portlist tk stof fuel expr item >>= λ ps. current tk >>= λ u.
          if same_token u.type bracketr
          then (advance tk >> pure ps)
          else fail missing_closing_parenthesis_for_portlist)
      else nearest >>= λ k. pure (node no_node [] (flags empty_input_flag) k nil)

  -- `allow` is `allow_reserved_names`.
  unfoldable pub parse_declaration : Bool → Flags → P (Ast V)
  parse_declaration allow fl = nearest >>= λ k. parse_identifier tk false allow >>= λ name.
      parse_inputs >>= λ is. parse_return_type tk stof fuel expr item >>= λ o.
      pure (node declaration name (flags fl) k (cons is (cons o nil)))

  -- Skips the word `function` of an intrinsic function.
  unfoldable pub skip_function : Flags → P (Unit {0})
  skip_function fl = current tk >>= λ t.
      if same_text (text_of tk t) (word "function") && fl.intrinsic then advance tk else pure tt

  abbrev pub end_function : Ast V → P (Ast V)
  end_function d = nearest >>= λ k. required (declaration_is_intrinsic d) >>= λ b.
      if b then pure (leaf no_body k) else fail missing_function_body

  unfoldable pub parse_function : NodeType → NodeType → Flags → P (Ast V)
  parse_function parent grandparent fl = skip_function fl >> nearest >>= λ k.
      parse_declaration (in_local_scope parent grandparent) fl >>= λ d.
      required (function_get_declaration (bare function k (cons d nil))) >>= λ e.
      current tk >>= λ t.
      (if same_token t.type bracel || same_token t.type equals
        then parse_function_body tk stof fuel expr item function parent
        else end_function e)
      >>= λ b. pure (bare function k (cons d (cons b nil)))

  -- A struct or a constraint that is not intrinsic has ports.
  unfoldable pub check_portlist : Ast V → P (Unit {0})
  check_portlist d = required (declaration_is_intrinsic d) >>= λ i.
      required (declaration_has_portlist d) >>= λ p.
      if not i && not p then fail missing_ports else pure tt

  unfoldable pub check_outputs : Ast V → P (Unit {0})
  check_outputs d = required (declaration_has_outputs d) >>= λ o.
      if o then fail struct_cannot_have_return_type else pure tt

  unfoldable pub parse_struct : Flags → P (Ast V)
  parse_struct fl = advance tk >> nearest >>= λ k. parse_declaration false fl >>= λ d.
      required (struct_get_declaration (bare struct k (cons d nil))) >>= λ e.
      check_portlist e >> check_outputs e >> current tk >>= λ t.
      (if same_token t.type bracel
        then parse_scope tk stof fuel expr item struct
        else nearest >>= λ j. pure (leaf no_body j))
      >>= λ b. pure (bare struct k (cons d (cons b nil)))

  unfoldable pub parse_constraint : Flags → P (Ast V)
  parse_constraint fl = advance tk >> nearest >>= λ k. parse_declaration false fl >>= λ d.
      required (constraint_get_declaration (bare constraint k (cons d nil))) >>= λ e.
      nearest >>= λ j. check_portlist e >> current tk >>= λ t.
      if same_token t.type bracel
      then fail constraint_has_body
      else pure (bare constraint k (cons d (cons (leaf no_body j) nil)))

  unfoldable pub parse_namespace : P (Ast V)
  parse_namespace = advance tk >> nearest >>= λ k. parse_identifier tk false false >>= λ name.
      parse_scope tk stof fuel expr item namespace >>= λ b.
      pure (node namespace name (flags no_flags) k (cons b nil))

  -- What follows the qualifiers.
  unfoldable pub parse_qualified : NodeType → NodeType → Flags → P (Ast V)
  parse_qualified parent grandparent fl = current tk >>= λ t.
      if same_text (text_of tk t) (word "struct")
      then parse_struct fl
      else if same_text (text_of tk t) (word "constraint")
      then parse_constraint fl
      else parse_function parent grandparent fl

  unfoldable pub parse_item_step : NodeType → NodeType → P (Ast V)
  parse_item_step parent grandparent = current tk >>= λ t.
      if same_text (text_of tk t) (word "namespace")
      then parse_namespace
      else parse_qualifiers >>= λ fl. parse_qualified parent grandparent fl
