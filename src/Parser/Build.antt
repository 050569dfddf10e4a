-- ===== src/Parser/Build.antt =====
-- `element_parser_ctx::parse` and `ast_build` (libelement/src/ast/parser_internal.cpp).
use element.Prelude.{
  ℕ, zero, suc, ◌-◌, ◌&&◌, List, Option, none, some, length, get_elem?, ltb, if◌then◌else◌,
}
use element.Result.{ElementResult, ok, accessed_token_past_end}
use element.Tokeniser.State.{no_token, eof, Token, Tokeniser}
use element.Parser.Ast.{NodeType, root, no_node, Ast, Children, nil, bare}
use element.Parser.Outcome.{
  create, Outcome, parsed, failed, fault, P, pure, fail, exhausted, ◌>>=◌, ◌>>◌,
}
use element.Parser.Steps.{same_token, current, advance}
use element.Parser.Loops.{prepend}
use element.Parser.Expressions.{parse_expression_step}
use element.Parser.Declarations.{parse_item_step}
use element.Parser.Validate.{validate}

module _ (tk : Tokeniser) {V : Type 0} (stof : List ℕ → Option V) where
  unfoldable mutual
    pub parse_expression : ℕ → NodeType → P (Ast V)
    parse_expression zero parent = exhausted
    parse_expression (suc n) parent =
        parse_expression_step tk stof n (parse_expression n) (parse_item n) parent

    pub parse_item : ℕ → NodeType → NodeType → P (Ast V)
    parse_item zero parent grandparent = exhausted
    parse_item (suc n) parent grandparent =
        parse_item_step tk stof n (parse_expression n) (parse_item n) parent grandparent

  -- The loop of `parse`, over one pass. The position it compares is 0 throughout, and there are tokens.
  unfoldable pub until_eof : P (Ast V) → ℕ → P (Children V)
  until_eof part zero = exhausted
  until_eof part (suc n) =
      let more = part >>= λ c. prepend tk c (until_eof part n) in
      current tk >>= λ t. if same_token t.type eof then pure nil else more

  abbrev pub skip_first : Token → P (Unit {0})
  skip_first t =
      if ltb 0 (length tk.tokens - 1) && same_token t.type no_token then advance tk else pure tt

  abbrev pub parse_root : ℕ → Token → P (Ast V)
  parse_root fuel t = skip_first t >> until_eof (parse_item fuel root no_node) fuel >>= λ is.
      pure (bare root (some 0) is)

  abbrev pub parse_from : ℕ → Option Token → P (Ast V)
  parse_from fuel none = fail accessed_token_past_end
  parse_from fuel (some t) = λ s. parse_root fuel t (record s { current_token = some 0 })

  -- From the first token.
  unfoldable pub parse : ℕ → P (Ast V)
  parse fuel = parse_from fuel (get_elem? tk.tokens 0)

  abbrev pub validated : Ast V → Option ElementResult → P (Ast V)
  validated a none s = fault
  validated a (some ok) s = parsed a s
  validated a (some r) s = failed r

  -- In a new context. As much fuel as there are tokens, and one more, is enough.
  unfoldable pub ast_build : Outcome (Ast V)
  ast_build = (parse (suc (length tk.tokens)) >>= λ a. validated a (validate a)) create
