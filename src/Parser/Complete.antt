-- ===== src/Parser/Complete.antt =====
-- `ast_build` of libelement/src/ast/parser_internal.cpp, from the grammar to the parser.
use element.Prelude.{ℕ, zero, suc, List, [], ◌∷◌, Option, arith}
use element.Tokeniser.State.{Token, Tokeniser}
use element.Parser.Ast.{NodeType, Ast, Children}
use element.Parser.Outcome.{Parser, Outcome, parsed}
use element.Parser.Declarations.{in_local_scope}
use element.Parser.Build.{parse_expression, parse_item}
use element.Parser.Gives.{Same, Gives}
use element.Parser.Grammar.{Expression, Item, Source, finished, unfinished}
use element.Parser.Lengths.{Expression-length, Item-length}
use element.Parser.Valid.{IsValid}
use element.Parser.Ends.{Ends}
use element.Parser.CompletePorts.{Completes}
use element.Parser.CompleteExpressions.{Expression-Completes}
use element.Parser.CompleteItems.{Item-Completes}

module _ (tk : Tokeniser) {V : Type 0} (stof : List ℕ → Option V) where
  mutual
    unfolding parse_expression

    parse_expression-Completes :
        (n : ℕ) (p : NodeType)
        → Completes tk stof (Expression tk stof) n (parse_expression tk stof n p)
    parse_expression-Completes zero p ts rest a x b s w =
        absurd (omega (arith, Expression-length tk stof x))
    parse_expression-Completes (suc n) p ts rest a x b s w =
        Expression-Completes tk stof n (parse_expression tk stof n) (parse_item tk stof n)
          (λ q. parse_expression-Completes n q) (λ q g. parse_item-Completes n q g) p ts rest a x b
          s w

    parse_item-Completes :
        (n : ℕ) (p g : NodeType)
        → Completes tk stof (Item tk stof (in_local_scope p g)) n (parse_item tk stof n p g)
    parse_item-Completes zero p g ts rest a x b s w = absurd (omega (arith, Item-length tk stof x))
    parse_item-Completes (suc n) p g ts rest a x b s w =
        Item-Completes tk stof n (parse_expression tk stof n) (parse_item tk stof n)
          (λ q. parse_expression-Completes n q) (λ q h. parse_item-Completes n q h) p g ts rest a x
          b s w

  -- The end of the file.
  abbrev ending : {ts : List Token} {is : Children V} → Source tk stof ts is → List Token
  ending (finished {t} e) = t ∷ []
  ending (unfinished e x xs) = ending xs

  -- A tree that differs from the given one in the positions of tokens only is built, and is valid.
  pub data BuildsLike (a : Ast V) : Outcome (Ast V) → Type 0 where
    alike : {b : Ast V} {s : Parser} → Same a b → IsValid b → BuildsLike a (parsed b s)
