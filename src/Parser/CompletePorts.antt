-- ===== src/Parser/CompletePorts.antt =====
-- Ports of libelement/src/ast/parser_internal.cpp, from the grammar to the parser.
use element.Prelude.{
  ℕ, zero, suc, List, ◌∷◌, Option, some, Bool, ◌≡◌, refl, ◌≤◌, length, arith, if◌then◌else◌,
}
use element.Result.{ElementResult, ok}
use element.Tokeniser.State.{
  TokenType, number, underscore, colon, comma, bracel, bracer, equals, Token, Tokeniser, text_of,
}
use element.Parser.Ast.{NodeType, port, typename, Ast, Children, nil}
use element.Parser.Outcome.{Parser, P, pure}
use element.Parser.Words.{check_reserved_words}
use element.Parser.Steps.{same_token, advance, parse_identifier, parse_literal, finish_identifier}
use element.Parser.Loops.{separated, after_part}
use element.Parser.Expressions.{
  parse_typename, parse_port_name, parse_return_type, parse_default, parse_port, parse_portlist,
}
use element.Parser.Declarations.{in_local_scope}
use element.Parser.Stream.{Stands}
use element.Parser.Gives.{
  Same, same, SameAll, same_nil, same_cons, Gives, gives, Gives-bind, Gives-current, Gives-test,
  Gives-otherwise, Gives-failing_with, advance-Gives, advance_ok-Gives,
}
use element.Parser.Grammar.{
  Opening, braced, unbraced, Separator, closing, separating, IsName, name, IsPortName, named,
  unnamed, Expression, Portlist, portlisted, Ports, one_port, more_ports, Port, ported, Returns,
  typed, untyped, Defaults, given, left_out, Item,
}
use element.Parser.Lengths.{Ports-length, Port-length, Returns-length}

module _ (tk : Tokeniser) {V : Type 0} (stof : List ℕ → Option V) where
  -- A method that reads every phrase of a relation, on at most `n` tokens.
  abbrev pub Completes : (List Token → List Token → Ast V → Type 0) → ℕ → P (Ast V) → Type 0
  Completes X n m =
      (ts rest : List Token) (a : Ast V)
      → X ts rest a
      → length ts ≤ n
      → (s : Parser) → Stands tk s ts
      → Gives tk (Same a) rest (m s)

  finish_identifier-Gives :
      (x : List ℕ) (r : ElementResult) {s : Parser} {ts : List Token}
      → r ≡ ok
      → Stands tk s ts
      → Gives tk (λ a. a ≡ x) ts (finish_identifier tk x r s)
  finish_identifier-Gives x r e w = rw e (gives w refl)

  pub IsName-Gives :
      {args names : Bool} {t : Token} {x : List ℕ} {s : Parser} {ts : List Token}
      → IsName tk stof args names t x
      → Stands tk s (t ∷ ts)
      → Gives tk (λ a. a ≡ x) ts (parse_identifier tk args names s)
  unfolding parse_identifier
  IsName-Gives {args} {names} {t} (name e f) w = Gives-current tk _ w (
      Gives-test tk t.type TokenType.identifier _ _ e (
        Gives-bind tk (advance-Gives tk w (λ q. cc)) λ _ s₁ w₁ _.
          finish_identifier-Gives (text_of tk t) (check_reserved_words (text_of tk t) args names) f
            w₁))

  pub literal-Gives :
      {t : Token} {v : V} {s : Parser} {ts : List Token}
      → t.type ≡ number
      → stof (text_of tk t) ≡ some v
      → Stands tk s (t ∷ ts)
      → Gives tk (λ a. a ≡ v) ts (parse_literal tk stof s)
  unfolding parse_literal
  literal-Gives {t} e f w = Gives-current tk _ w (
      Gives-test tk t.type number _ _ e
        (rw f (Gives-bind tk (advance-Gives tk w (λ q. cc)) λ _ s₁ w₁ _. gives w₁ refl)))

  pub Opening-Gives :
      {s : Parser} {t : Token} {ts ms : List Token}
      → Opening (t ∷ ts) ms
      → Stands tk s (t ∷ ts)
      → Gives tk (λ _. Unit {0}) ms ((if same_token t.type bracel then advance tk else pure tt) s)
  Opening-Gives {t = t} (braced e) w =
      Gives-test tk t.type bracel _ _ e (advance-Gives tk w (λ q. cc))
  Opening-Gives {t = t} (unbraced e) w = Gives-otherwise tk t.type bracel _ _ e (gives w tt)

  pub after_part-Gives :
      {s : Parser} {ts ms : List Token}
      → Separator ts ms
      → Stands tk s ts
      → Gives tk (λ _. Unit {0}) ms (after_part tk s)
  unfolding after_part
  after_part-Gives (closing {t} e) w =
      Gives-current tk _ w (Gives-test tk t.type bracer _ _ e (gives w tt))
  after_part-Gives (separating {t} e) w = Gives-current tk _ w (
      Gives-otherwise tk t.type bracer _ _ (λ q. cc)
        (Gives-test tk t.type comma _ _ e (advance-Gives tk w (λ q. cc))))

module _ (tk : Tokeniser) {V : Type 0} (stof : List ℕ → Option V) (n : ℕ)
    (expr : NodeType → P (Ast V)) (item : NodeType → NodeType → P (Ast V))
    (gives_expr : (p : NodeType) → Completes tk stof (Expression tk stof) n (expr p))
    (gives_item : (p g : NodeType)
      → Completes tk stof (Item tk stof (in_local_scope p g)) n (item p g)) where
  pub Returns-Completes :
      Completes tk stof (Returns tk stof) (suc n) (parse_return_type tk stof n expr item)
  unfolding parse_return_type parse_typename
  Returns-Completes _ _ _ (typed {t} {ts} e x) b s w = Gives-current tk _ w (
      Gives-test tk t.type colon _ _ e (
        Gives-bind tk (advance-Gives tk w (λ q. cc)) λ _ s₁ w₁ _.
          Gives-bind tk (Gives-failing_with tk _ (gives_expr typename ts _ _ x (omega arith) s₁ w₁))
            λ a s₂ w₂ q. gives w₂ (same (same_cons q same_nil))))
  Returns-Completes _ _ _ (untyped {t} e) b s w =
      Gives-current tk _ w (Gives-otherwise tk t.type colon _ _ e (gives w (same same_nil)))

  Defaults-Completes :
      Completes tk stof (Defaults tk stof) (suc n) (parse_default tk stof n expr item)
  unfolding parse_default
  Defaults-Completes _ _ _ (given {t} {ts} e x) b s w = Gives-current tk _ w (
      Gives-test tk t.type equals _ _ e (
        Gives-bind tk (advance-Gives tk w (λ q. cc))
          λ _ s₁ w₁ _. gives_expr port ts _ _ x (omega arith) s₁ w₁))
  Defaults-Completes _ _ _ (left_out {t} e) b s w =
      Gives-current tk _ w (Gives-otherwise tk t.type equals _ _ e (gives w (same same_nil)))

  IsPortName-Gives :
      {t : Token} {x : List ℕ} {s : Parser} {ts : List Token}
      → IsPortName tk stof t x
      → Stands tk s (t ∷ ts)
      → Gives tk (λ a. a ≡ x) ts (parse_port_name tk stof n expr item s)
  unfolding parse_port_name
  IsPortName-Gives {t} (named (name e f)) w =
      Gives-current tk _ w
        (Gives-test tk t.type TokenType.identifier _ _ e (IsName-Gives tk stof (name e f) w))
  IsPortName-Gives {t} (unnamed e) w = Gives-current tk _ w (
      Gives-otherwise tk t.type TokenType.identifier _ _ (λ q. cc)
        (Gives-test tk t.type underscore _ _ e
          (Gives-bind tk (advance-Gives tk w (λ q. cc)) λ _ s₁ w₁ _. gives w₁ refl)))

  Port-Completes : Completes tk stof (Port tk stof) (suc n) (parse_port tk stof n expr item)
  unfolding parse_port
  Port-Completes _ _ _ (ported x r d) b s w = Gives-bind tk (IsPortName-Gives x w) λ a s₁ w₁ e.
      rw e (
        Gives-bind tk (Returns-Completes _ _ _ r (omega arith) s₁ w₁) λ c s₂ w₂ q.
          Gives-bind tk (Defaults-Completes _ _ _ d (omega (arith, Returns-length tk stof r)) s₂ w₂)
            λ f s₃ w₃ z. gives w₃ (same (same_cons q (same_cons z same_nil))))

  Ports-Gives :
      (m : ℕ) {ts rest : List Token} {ps : Children V}
      → Ports tk stof ts rest ps
      → length ts ≤ n
      → length ts ≤ m
      → (s : Parser) → Stands tk s ts
      → Gives tk (SameAll ps) rest (separated tk (parse_port tk stof n expr item) m s)
  unfolding separated
  Ports-Gives zero d b l s w = absurd (omega (arith, Ports-length tk stof d))
  Ports-Gives (suc m) (one_port {t} x e) b l s w =
      Gives-bind tk (Port-Completes _ _ _ x (omega arith) s w) λ c s₁ w₁ q. Gives-current tk _ w₁ (
        Gives-bind tk (Gives-otherwise tk {Q = SameAll nil} t.type comma _ _ e (gives w₁ same_nil))
          λ cs s₂ w₂ z. gives w₂ (same_cons q z))
  Ports-Gives (suc m) (more_ports {t} {ps = ps} x e xs) b l s w =
      Gives-bind tk (Port-Completes _ _ _ x (omega arith) s w) λ c s₁ w₁ q. Gives-current tk _ w₁ (
        Gives-bind tk
          (Gives-test tk {Q = SameAll ps} t.type comma _ _ e (
            Gives-bind tk (advance_ok-Gives tk w₁ (λ h. cc)) λ c s₂ w₂ h. rw h (
              Ports-Gives m xs (omega (arith, Port-length tk stof x))
                (omega (arith, Port-length tk stof x)) s₂ w₂)))
          λ cs s₃ w₃ z. gives w₃ (same_cons q z))

  pub Portlist-Completes :
      Completes tk stof (Portlist tk stof) n (parse_portlist tk stof n expr item)
  unfolding parse_portlist
  Portlist-Completes _ _ _ (portlisted ps) b s w =
      Gives-bind tk (Ports-Gives n ps b b s w) λ cs s₁ w₁ q. gives w₁ (same q)
