-- ===== src/Parser/ExpressionLaws.antt =====
-- Expressions and bodies of libelement/src/ast/parser_internal.cpp, from the parser to the grammar.
use mathlib.Core.Path.{subst}
use element.Prelude.{
  ℕ, zero, suc, List, ◌∷◌, Option, false, ◌||◌, ◌≡◌, ◌<◌, length, arith, if◌then◌else◌,
}
use element.Result.{parse_error, missing_parenthesis_for_call, missing_contents_for_call}
use element.Tokeniser.State.{
  number, identifier, underscore, dot, bracketl, bracketr, bracel, bracer, equals, Token, Tokeniser,
}
use element.Parser.Ast.{
  NodeType, function, scope, exprlist, lambda, anonymous_block, Ast, same_node,
}
use element.Parser.Outcome.{Parser, P, pure}
use element.Parser.Steps.{same_token, advance}
use element.Parser.Expressions.{
  parse_exprlist, links, parse_call, parse_scope, parse_anonymous_block, parse_function_body,
  parse_lambda, parse_expression_step,
}
use element.Parser.Declarations.{in_local_scope}
use element.Parser.Stream.{Stands}
use element.Parser.Ends.{
  Ends, ended, refused, Ends-bind, Ends-if, Ends-test, Ends-current, Ends-weaken, advance-Ends,
  Reads,
}
use element.Parser.Terminals.{
  advance_then_check-Ends, advance_then_check_not-Ends, parse_identifier-Ends, parse_literal-Ends,
}
use element.Parser.LoopLaws.{separated-Reads, until_bracer-Reads, block_parts-Reads}
use element.Parser.Grammar.{
  Opening, braced, unbraced, Expression, called, numeral, abstracted, block, Links, stop, arguments,
  member, Exprlist, passed, Expressions, one, many, Body, scoped, expressed, Scope, enclosed, Items,
  closed, opened, Parts, no_part, next_part, Item,
}
use element.Parser.PortLaws.{parse_portlist-Reads, parse_return_type-ReadsAny}

module _ (tk : Tokeniser) {V : Type 0} (stof : List ℕ → Option V) (n : ℕ)
    (expr : NodeType → P (Ast V)) (item : NodeType → NodeType → P (Ast V))
    (reads_expr : (p : NodeType) → Reads tk stof (Expression tk stof) n (expr p))
    (reads_item : (p g : NodeType)
      → Reads tk stof (Item tk stof (in_local_scope p g)) n (item p g)) where
  parse_exprlist-Reads :
      (s : Parser) (t : Token) (ts : List Token)
      → Stands tk s (t ∷ ts)
      → length ts < suc n
      → t.type ≡ bracketl
      → Ends tk stof
          (λ a rest. Exprlist tk stof (t ∷ ts) rest a)
          (length ts)
          (parse_exprlist tk stof n expr item s)
  unfolding parse_exprlist
  parse_exprlist-Reads s t ts w b h = Ends-current tk stof _ w (
      Ends-test tk stof t.type bracketl _ _
        (λ e. Ends-bind tk stof (advance-Ends tk stof w) λ _ s₁ u us w₁ l₁ p.
          Ends-current tk stof _ w₁ (
            Ends-test tk stof u.type bracketr _ _
              (λ f. refused {r = missing_contents_for_call} (λ q. cc))
              λ f.
                Ends-bind tk stof
                  (separated-Reads tk stof (Expression tk stof) (Expressions tk stof)
                    (expr exprlist) (reads_expr exprlist) (λ t ts rest c x e. one x e)
                    (λ t ts ms rest c cs x e xs. many x e xs) n s₁ u us w₁ (omega arith)
                    (omega arith))
                  λ es s₂ v vs w₂ l₂ x. Ends-current tk stof _ w₂ (
                    Ends-test tk stof v.type bracketr _ _
                      (λ g. Ends-bind tk stof (advance-Ends tk stof w₂) λ _ s₃ y ys w₃ l₃ q.
                        ended w₃ (omega arith) (rw p (passed h f (rw q at x) g)))
                      (λ g. refused {r = missing_parenthesis_for_call} (λ q. cc)))))
        (λ e. absurd (e h)))

  links-ReadsAny :
      (m : ℕ)
      → (s : Parser) (t : Token) (ts : List Token) → Stands tk s (t ∷ ts)
      → length ts < suc n
      → length ts < m
      → Ends tk stof
          (λ a rest. Links tk stof (t ∷ ts) rest a)
          (suc (length ts))
          (links tk stof n expr item m s)
  unfolding links
  links-ReadsAny zero s t ts w b l = absurd (omega arith)
  links-ReadsAny (suc m) s t ts w b l = Ends-current tk stof _ w (
      Ends-test tk stof t.type bracketl _ _
        (λ e. Ends-bind tk stof (parse_exprlist-Reads s t ts w b e) λ c s₁ u us w₁ l₁ x.
          Ends-bind tk stof (links-ReadsAny m s₁ u us w₁ (omega arith) (omega arith))
            λ cs s₂ v vs w₂ l₂ y. ended w₂ (omega arith) (arguments x y))
        λ e.
          Ends-test tk stof t.type dot _ _
            (λ f. Ends-bind tk stof (advance-Ends tk stof w) λ _ s₁ u us w₁ l₁ p. rw p (
              Ends-bind tk stof (parse_identifier-Ends tk stof false false w₁)
                λ name s₂ v vs w₂ l₂ (q, x). rw q (
                  Ends-bind tk stof (links-ReadsAny m s₂ v vs w₂ (omega arith) (omega arith))
                    λ cs s₃ y ys w₃ l₃ z. ended w₃ (omega arith) (member f x z))))
            (λ f. ended w (omega arith) (stop e f)))

  parse_call-Reads : Reads tk stof (Expression tk stof) (suc n) (parse_call tk stof n expr item)
  unfolding parse_call
  parse_call-Reads s t ts w b = Ends-current tk stof _ w (
      Ends-test tk stof t.type identifier _ _
        (λ e.
          Ends-bind tk stof (parse_identifier-Ends tk stof false false w)
            λ name s₁ u us w₁ l₁ (p, x).
              Ends-bind tk stof (links-ReadsAny n s₁ u us w₁ (omega arith) (omega arith))
                λ ls s₂ v vs w₂ l₂ y. ended w₂ (omega arith) (called x (rw p y)))
        λ _.
          Ends-test tk stof t.type number _ _
            (λ e. Ends-bind tk stof (parse_literal-Ends tk stof w e) λ v s₁ u us w₁ l₁ (p, x).
              Ends-bind tk stof (links-ReadsAny n s₁ u us w₁ (omega arith) (omega arith))
                λ ls s₂ y ys w₂ l₂ z. ended w₂ (omega arith) (numeral e x (rw p z)))
            (λ e. refused (λ q. cc)))

  Opening-Ends :
      {s : Parser} {t : Token} {ts : List Token}
      → Stands tk s (t ∷ ts)
      → Ends tk stof
          (λ _ rest. Opening (t ∷ ts) rest)
          (suc (length ts))
          ((if same_token t.type bracel then advance tk else pure tt) s)
  Opening-Ends {s} {t} {ts} w =
      Ends-test tk stof t.type bracel _ _
        (λ e.
          Ends-weaken tk stof (omega arith)
            (λ _ rest p. subst (λ r. Opening (t ∷ ts) r) p (braced e)) (advance-Ends tk stof w))
        (λ e. ended w (omega arith) (unbraced e))

  pub parse_scope-Reads :
      (p : NodeType) → Reads tk stof (Scope tk stof p) n (parse_scope tk stof n expr item p)
  unfolding parse_scope
  parse_scope-Reads p s t ts w b = Ends-current tk stof _ w (
      Ends-bind tk stof (Opening-Ends w) λ _ s₁ u us w₁ l₁ o.
        Ends-bind tk stof
          (until_bracer-Reads tk stof (Item tk stof (in_local_scope scope p))
            (Items tk stof (in_local_scope scope p)) (item scope p) (reads_item scope p)
            (λ t ts e. closed e) (λ t ts ms rest c cs e x xs. opened e x xs) n s₁ u us w₁
            (omega arith) (omega arith))
          λ is s₂ v vs w₂ l₂ (x, e).
            Ends-bind tk stof (advance-Ends tk stof w₂)
              λ _ s₃ y ys w₃ l₃ q. ended w₃ (omega arith) (enclosed o (rw q at x) e))

  pub parse_function_body-Reads :
      (p g : NodeType)
      → Reads tk stof (Body tk stof p) n (parse_function_body tk stof n expr item p g)
  unfolding parse_function_body
  parse_function_body-Reads p g s t ts w b = Ends-current tk stof _ w (
      Ends-test tk stof t.type bracel _ _
        (λ e.
          Ends-weaken tk stof (omega arith) (λ a rest x. scoped e x)
            (parse_scope-Reads p s t ts w b))
        λ _.
          Ends-test tk stof t.type equals _ _
            (λ e. Ends-bind tk stof (advance-Ends tk stof w) λ _ s₁ u us w₁ l₁ q.
              Ends-weaken tk stof (omega arith) (λ a rest x. expressed e (rw q x))
                (reads_expr p s₁ u us w₁ (omega arith)))
            (λ e.
              Ends-if tk stof (same_node g function) _ _ (λ _. refused (λ q. cc))
                (λ _. refused (λ q. cc))))

  parse_anonymous_block-Reads :
      (p : NodeType)
      → (s : Parser) (t : Token) (ts : List Token) → Stands tk s (t ∷ ts)
      → length ts < suc n
      → t.type ≡ bracel
      → Ends tk stof
          (λ a rest. Expression tk stof (t ∷ ts) rest a)
          (length ts)
          (parse_anonymous_block tk stof n expr item p s)
  unfolding parse_anonymous_block
  parse_anonymous_block-Reads p s t ts w b h = Ends-current tk stof _ w (
      Ends-test tk stof t.type bracel _ _
        (λ _.
          Ends-bind tk stof (advance_then_check_not-Ends tk stof bracer parse_error w (λ q. cc))
            λ _ s₁ u us w₁ l₁ (e, f). rw e (
              Ends-bind tk stof
                (block_parts-Reads tk stof (Item tk stof false) (Parts tk stof)
                  (item anonymous_block p) (reads_item anonymous_block p) (λ t ts e. no_part e)
                  (λ t ts ms ns rest c cs e x d xs. next_part e x d xs) n s₁ u us w₁ (omega arith)
                  (omega arith))
                λ is s₂ v vs w₂ l₂ (x, g).
                  Ends-bind tk stof (advance-Ends tk stof w₂)
                    λ _ s₃ y ys w₃ l₃ q. ended w₃ (omega arith) (block h f (rw q at x) g)))
        (λ e. absurd (e h)))

  parse_lambda-Reads :
      (p : NodeType)
      → (s : Parser) (t : Token) (ts : List Token) → Stands tk s (t ∷ ts)
      → length ts < suc n
      → t.type ≡ underscore
      → Ends tk stof
          (λ a rest. Expression tk stof (t ∷ ts) rest a)
          (length ts)
          (parse_lambda tk stof n expr item p s)
  unfolding parse_lambda
  parse_lambda-Reads p s t ts w b h = Ends-current tk stof _ w (
      Ends-test tk stof t.type underscore _ _
        (λ _.
          Ends-bind tk stof (advance_then_check-Ends tk stof bracketl parse_error w (λ q. cc))
            λ _ s₁ u us w₁ l₁ (e, f). rw e (
              Ends-bind tk stof (advance-Ends tk stof w₁) λ _ s₂ v vs w₂ l₂ q₂. rw q₂ (
                Ends-bind tk stof
                  (parse_portlist-Reads tk stof n expr item reads_expr reads_item s₂ v vs w₂
                    (omega arith))
                  λ ps s₃ x xs w₃ l₃ d₃. Ends-current tk stof _ w₃ (
                    Ends-test tk stof x.type bracketr _ _
                      (λ g. Ends-bind tk stof (advance-Ends tk stof w₃) λ _ s₄ y ys w₄ l₄ q₄.
                        Ends-bind tk stof
                          (parse_return_type-ReadsAny tk stof n expr item reads_expr reads_item s₄ y
                            ys w₄ (omega arith))
                          λ r s₅ z zs w₅ l₅ d₅.
                            Ends-bind tk stof
                              (parse_function_body-Reads lambda p s₅ z zs w₅ (omega arith))
                              λ c s₆ k ks w₆ l₆ d₆.
                                ended w₆ (omega arith) (abstracted h f d₃ g (rw q₄ d₅) d₆))
                      (λ g. refused {r = parse_error} (λ q. cc))))))
        (λ e. absurd (e h)))

  pub parse_expression_step-Reads :
      (p : NodeType)
      → Reads tk stof (Expression tk stof) (suc n) (parse_expression_step tk stof n expr item p)
  unfolding parse_expression_step
  parse_expression_step-Reads p s t ts w b = Ends-current tk stof _ w (
      Ends-if tk stof (same_token t.type identifier || same_token t.type number) _ _
        (λ _. parse_call-Reads s t ts w b)
        λ _.
          Ends-test tk stof t.type underscore _ _ (λ e. parse_lambda-Reads p s t ts w b e)
            λ _.
              Ends-test tk stof t.type bracel _ _ (λ e. parse_anonymous_block-Reads p s t ts w b e)
                (λ _. refused (λ q. cc)))
