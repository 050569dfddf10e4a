-- ===== src/Parser/PortLaws.antt =====
-- Ports of libelement/src/ast/parser_internal.cpp, from the parser to the grammar.
use element.Prelude.{ℕ, suc, List, ◌∷◌, Option, true, false, ◌≡◌, length, arith}
use element.Tokeniser.State.{identifier, underscore, colon, equals, Token, Tokeniser}
use element.Parser.Ast.{NodeType, port, typename, Ast}
use element.Parser.Outcome.{Parser, P}
use element.Parser.Expressions.{
  parse_typename, parse_port_name, parse_return_type, parse_default, parse_port, parse_portlist,
}
use element.Parser.Declarations.{in_local_scope}
use element.Parser.Stream.{Stands}
use element.Parser.Ends.{
  Ends, ended, refused, Ends-bind, Ends-test, Ends-current, Ends-failing_with, Ends-weaken,
  advance-Ends, Reads, ReadsAny,
}
use element.Parser.Terminals.{parse_identifier-Ends}
use element.Parser.LoopLaws.{separated-Reads}
use element.Parser.Grammar.{
  IsPortName, named, unnamed, Expression, Portlist, portlisted, Ports, one_port, more_ports, Port,
  ported, Returns, typed, untyped, Defaults, given, left_out, Item,
}

module _ (tk : Tokeniser) {V : Type 0} (stof : List ℕ → Option V) (n : ℕ)
    (expr : NodeType → P (Ast V)) (item : NodeType → NodeType → P (Ast V))
    (reads_expr : (p : NodeType) → Reads tk stof (Expression tk stof) n (expr p))
    (reads_item : (p g : NodeType)
      → Reads tk stof (Item tk stof (in_local_scope p g)) n (item p g)) where
  pub parse_return_type-ReadsAny :
      ReadsAny tk stof (Returns tk stof) (suc n) (parse_return_type tk stof n expr item)
  unfolding parse_return_type parse_typename
  parse_return_type-ReadsAny s t ts w b = Ends-current tk stof _ w (
      Ends-test tk stof t.type colon _ _
        (λ e. Ends-bind tk stof (advance-Ends tk stof w) λ _ s₁ u us w₁ l₁ p.
          Ends-bind tk stof
            (Ends-failing_with tk stof (λ q. cc) (reads_expr typename s₁ u us w₁ (omega arith)))
            λ a s₂ v vs w₂ l₂ x. ended w₂ (omega arith) (typed e (rw p x)))
        (λ e. ended w (omega arith) (untyped e)))

  parse_default-ReadsAny :
      ReadsAny tk stof (Defaults tk stof) (suc n) (parse_default tk stof n expr item)
  unfolding parse_default
  parse_default-ReadsAny s t ts w b = Ends-current tk stof _ w (
      Ends-test tk stof t.type equals _ _
        (λ e. Ends-bind tk stof (advance-Ends tk stof w) λ _ s₁ u us w₁ l₁ p.
          Ends-weaken tk stof (omega arith) (λ a rest x. given e (rw p x))
            (reads_expr port s₁ u us w₁ (omega arith)))
        (λ e. ended w (omega arith) (left_out e)))

  parse_port_name-Ends :
      {s : Parser} {t : Token} {ts : List Token}
      → Stands tk s (t ∷ ts)
      → Ends tk stof
          (λ name rest. (ts ≡ rest) × IsPortName tk stof t name)
          (length ts)
          (parse_port_name tk stof n expr item s)
  unfolding parse_port_name
  parse_port_name-Ends {s} {t} {ts} w = Ends-current tk stof _ w (
      Ends-test tk stof t.type identifier _ _
        (λ e.
          Ends-weaken tk stof (omega arith) (λ a rest (p, m). (p, named m))
            (parse_identifier-Ends tk stof true false w))
        λ e.
          Ends-test tk stof t.type underscore _ _
            (λ f.
              Ends-bind tk stof (advance-Ends tk stof w)
                λ _ s₁ u us w₁ l₁ p. ended w₁ l₁ (p, unnamed f))
            (λ f. refused (λ q. cc)))

  parse_port-Reads : Reads tk stof (Port tk stof) (suc n) (parse_port tk stof n expr item)
  unfolding parse_port
  parse_port-Reads s t ts w b =
      Ends-bind tk stof (parse_port_name-Ends w) λ name s₁ u us w₁ l₁ (p, m).
        Ends-bind tk stof (parse_return_type-ReadsAny s₁ u us w₁ (omega arith)) λ r s₂ v vs w₂ l₂ x.
          Ends-bind tk stof (parse_default-ReadsAny s₂ v vs w₂ (omega arith))
            λ d s₃ y ys w₃ l₃ z. ended w₃ (omega arith) (ported m (rw p x) z)

  pub parse_portlist-Reads : Reads tk stof (Portlist tk stof) n (parse_portlist tk stof n expr item)
  unfolding parse_portlist
  parse_portlist-Reads s t ts w b =
      Ends-bind tk stof
        (separated-Reads tk stof (Port tk stof) (Ports tk stof) (parse_port tk stof n expr item)
          parse_port-Reads (λ t ts rest c x e. one_port x e)
          (λ t ts ms rest c cs x e xs. more_ports x e xs) n s t ts w (omega arith) b)
        λ ps s₁ u us w₁ l₁ x. ended w₁ l₁ (portlisted x)
