-- ===== src/Parser/BuildLaws.antt =====
-- `parse` of libelement/src/ast/parser_internal.cpp, from the parser to the grammar.
use mathlib.Core.Path.{subst}
use element.Prelude.{
  ℕ, zero, suc, ◌-◌, List, [], ◌∷◌, Option, some, Bool, false, ◌&&◌, ◌≡◌, refl, sym, ap, ◌<◌,
  length, arith, get_elem?, ltb,
}
use element.Tokeniser.State.{no_token, eof, Token, Tokeniser}
use element.Parser.Ast.{NodeType, root, no_node, Ast, Children, bare}
use element.Parser.Outcome.{Parser, pure, create}
use element.Parser.Steps.{same_token}
use element.Parser.Declarations.{in_local_scope}
use element.Parser.Build.{parse_expression, parse_item, until_eof, parse, parse_from, skip_first}
use element.Parser.Stream.{IsStream, last, more, Stands, same_token_differs}
use element.Parser.Ends.{Ends, ended, Ends-bind, Ends-test, Ends-current, Reads}
use element.Parser.Grammar.{Expression, Item, Source, finished, unfinished}
use element.Parser.ExpressionLaws.{parse_expression_step-Reads}
use element.Parser.DeclarationLaws.{parse_item_step-Reads}

last_eof : {t : Token} {ts : List Token} → IsStream (t ∷ ts) → t.type ≡ eof → ts ≡ []
last_eof (last e) f = refl
last_eof (more n e h) f = absurd (e f)

first_kept : {t : Token} {ts : List Token} → IsStream (t ∷ ts) → same_token t.type no_token ≡ false
first_kept {t} (last e) = rw e
first_kept {t} (more n e h) = same_token_differs t.type no_token n

and-false_right : (a b : Bool) → b ≡ false → (a && b) ≡ false
and-false_right a b h = ground arith

-- The state before the first token is looked at.
abbrev pub started : Parser
started = record create { current_token = some 0 }

module _ (tk : Tokeniser) {V : Type 0} (stof : List ℕ → Option V) where
  mutual
    unfolding parse_expression

    pub parse_expression-Reads :
        (n : ℕ) (p : NodeType) → Reads tk stof (Expression tk stof) n (parse_expression tk stof n p)
    parse_expression-Reads zero p s t ts w b = absurd (omega arith)
    parse_expression-Reads (suc n) p s t ts w b =
        parse_expression_step-Reads tk stof n (parse_expression tk stof n) (parse_item tk stof n)
          (λ q. parse_expression-Reads n q) (λ q g. parse_item-Reads n q g) p s t ts w b

    pub parse_item-Reads :
        (n : ℕ) (p g : NodeType)
        → Reads tk stof (Item tk stof (in_local_scope p g)) n (parse_item tk stof n p g)
    parse_item-Reads zero p g s t ts w b = absurd (omega arith)
    parse_item-Reads (suc n) p g s t ts w b =
        parse_item_step-Reads tk stof n (parse_expression tk stof n) (parse_item tk stof n)
          (λ q. parse_expression-Reads n q) (λ q h. parse_item-Reads n q h) p g s t ts w b

  until_eof-Ends :
      (n m : ℕ) (s : Parser) (t : Token) (ts : List Token)
      → Stands tk s (t ∷ ts)
      → length ts < n
      → length ts < m
      → Ends tk stof
          (λ is rest. Source tk stof (t ∷ ts) is)
          (suc (length ts))
          (until_eof tk stof (parse_item tk stof n root no_node) m s)
  unfolding until_eof
  until_eof-Ends n zero s t ts w b l = absurd (omega arith)
  until_eof-Ends n (suc m) s t ts w b l = Ends-current tk stof _ w (
      Ends-test tk stof t.type eof _ _
        (λ e. ended w (omega arith) (rw (last_eof w.stream e) (finished e)))
        (λ e. Ends-bind tk stof (parse_item-Reads n root no_node s t ts w b) λ i s₁ u us w₁ l₁ x.
          Ends-bind tk stof (until_eof-Ends n m s₁ u us w₁ (omega arith) (omega arith))
            λ is s₂ v vs w₂ l₂ y. ended w₂ (omega arith) (unfinished e x y)))

  -- The tree of a source.
  pub data IsTree : Ast V → Type 0 where
    tree : {is : Children V} → Source tk stof tk.tokens is → IsTree (bare root (some 0) is)

  pub skip_first-kept :
      {t : Token} {ts : List Token} (s : Parser)
      → IsStream (t ∷ ts)
      → skip_first tk stof t s ≡ pure tt s
  skip_first-kept {t} s h =
      rw
        (and-false_right (ltb 0 (length tk.tokens - 1)) (same_token t.type no_token) (first_kept h))

  parse_root-Ends :
      (t : Token) (ts : List Token)
      → tk.tokens ≡ t ∷ ts
      → IsStream (t ∷ ts)
      → Ends tk stof
          (λ a rest. IsTree a)
          (length tk.tokens)
          (parse_from tk stof (suc (length tk.tokens)) (some t) create)
  parse_root-Ends t ts e h = rw (skip_first-kept started h) (
      Ends-bind tk stof
        (until_eof-Ends (suc (length tk.tokens)) (suc (length tk.tokens)) started t ts
          (record { points = refl; left = e; stream = h }) (omega (arith, ap length e))
          (omega (arith, ap length e)))
        λ is s₁ u us w₁ l₁ x.
          ended w₁ (omega (arith, ap length e)) (tree (subst (λ l. Source tk stof l is) (sym e) x)))

  pub parse-Ends :
      (ts : List Token)
      → tk.tokens ≡ ts
      → IsStream ts
      → Ends tk stof
          (λ a rest. IsTree a)
          (length tk.tokens)
          (parse tk stof (suc (length tk.tokens)) create)
  unfolding parse
  parse-Ends [] e h = elim h [ ]
  parse-Ends (t ∷ ts) e h = rw (ap (λ l. get_elem? l 0) e) (parse_root-Ends t ts e h)
