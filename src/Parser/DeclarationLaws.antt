-- ===== src/Parser/DeclarationLaws.antt =====
-- Items of libelement/src/ast/parser_internal.cpp, from the parser to the grammar.
use element.Prelude.{
  ℕ, suc, List, ◌∷◌, Option, Bool, true, false, ◌||◌, ◌≡◌, sym, ◌∙◌, ◌<◌, length, arith,
  if◌then◌else◌,
}
use element.Tokeniser.State.{bracel, equals, Token, Tokeniser, text_of}
use element.Parser.Ast.{NodeType, function, struct, namespace, no_body, Flags, Ast, leaf}
use element.Parser.Outcome.{Parser, P, pure, ◌>>=◌}
use element.Parser.Words.{word, same_text}
use element.Parser.Steps.{same_token, nearest}
use element.Parser.Expressions.{parse_function_body, parse_scope}
use element.Parser.Declarations.{
  in_local_scope, end_function, parse_function, parse_struct, parse_constraint, parse_namespace,
  parse_qualified, parse_item_step,
}
use element.Parser.Stream.{Stands, same_token_complete}
use element.Parser.Ends.{
  Ends, ended, refused, Ends-bind, Ends-if, Ends-test, Ends-current, Ends-weaken, advance-Ends,
  Reads,
}
use element.Parser.Terminals.{parse_identifier-Ends}
use element.Parser.Grammar.{
  Qualifiers, Expression, Declaration, FunctionBody, bodied, bodiless, StructBody, with_scope,
  without_scope, Item, namespaced, structured, constrained, defined,
}
use element.Parser.ExpressionLaws.{parse_scope-Reads, parse_function_body-Reads}
use element.Parser.CheckLaws.{
  check_outputs-Ends, check_portlist-Ends, intrinsic-Declaration, type-Declaration, or-false,
  parse_declaration-Reads, parse_qualifiers-ReadsAny, skip_function-ReadsAny,
}

module _ (tk : Tokeniser) {V : Type 0} (stof : List ℕ → Option V) (n : ℕ)
    (expr : NodeType → P (Ast V)) (item : NodeType → NodeType → P (Ast V))
    (reads_expr : (p : NodeType) → Reads tk stof (Expression tk stof) n (expr p))
    (reads_item : (p g : NodeType)
      → Reads tk stof (Item tk stof (in_local_scope p g)) n (item p g)) where
  end_function-Ends :
      {fl : Flags} {local : Bool} {bs rest : List Token} {d : Ast V} {s : Parser} {t : Token}
      {ts : List Token}
      → Declaration tk stof fl local bs rest d
      → Stands tk s (t ∷ ts)
      → (same_token t.type bracel || same_token t.type equals) ≡ false
      → Ends tk stof
          (λ b rest. FunctionBody tk stof fl (t ∷ ts) rest b)
          (suc (length ts))
          (end_function tk stof n expr item d s)
  end_function-Ends {fl} {t = t} x w e = rw (intrinsic-Declaration tk stof x) (
      Ends-if tk stof fl.intrinsic _ _
        (λ f. ended w (omega arith) (
          bodiless (same_token_complete t.type bracel (or-false _ _ e).0)
            (same_token_complete t.type equals (or-false _ _ e).1) f))
        (λ _. refused (λ q. cc)))

  FunctionBody-ReadsAny :
      {fl : Flags} {local : Bool} {bs rest : List Token} {d : Ast V} {s : Parser} {t : Token}
      {ts : List Token}
      → Declaration tk stof fl local bs rest d
      → (p : NodeType) → Stands tk s (t ∷ ts)
      → length ts < n
      → Ends tk stof
          (λ b rest. FunctionBody tk stof fl (t ∷ ts) rest b)
          (suc (length ts))
          ((if same_token t.type bracel || same_token t.type equals
              then parse_function_body tk stof n expr item function p
              else end_function tk stof n expr item d)
            s)
  FunctionBody-ReadsAny {s = s} {t} {ts} x p w b =
      Ends-if tk stof (same_token t.type bracel || same_token t.type equals) _ _
        (λ _.
          Ends-weaken tk stof (omega arith) (λ a rest y. bodied y)
            (parse_function_body-Reads tk stof n expr item reads_expr reads_item function p s t ts w
              b))
        (λ e. end_function-Ends x w e)

  parse_function-Ends :
      (p g : NodeType) {fl : Flags} {bs : List Token} {s : Parser} {t : Token} {ts : List Token}
      → Qualifiers tk stof bs (t ∷ ts) fl
      → Stands tk s (t ∷ ts)
      → length ts < suc n
      → Ends tk stof
          (λ a rest. Item tk stof (in_local_scope p g) bs rest a)
          (length ts)
          (parse_function tk stof n expr item p g fl s)
  unfolding parse_function
  parse_function-Ends p g {fl} {s = s} {t} {ts} y w b =
      Ends-bind tk stof (skip_function-ReadsAny tk stof n expr item reads_expr reads_item fl w)
        λ _ s₁ u us w₁ l₁ k.
          Ends-bind tk stof
            (parse_declaration-Reads tk stof n expr item reads_expr reads_item (in_local_scope p g)
              fl s₁ u us w₁ (omega arith))
            λ d s₂ v vs w₂ l₂ x. rw (type-Declaration tk stof x) (
              Ends-current tk stof _ w₂ (
                Ends-bind tk stof (FunctionBody-ReadsAny x p w₂ (omega arith))
                  λ c s₃ z zs w₃ l₃ f. ended w₃ (omega arith) (defined y k x f)))

  StructBody-ReadsAny :
      {s : Parser} {t : Token} {ts : List Token}
      → Stands tk s (t ∷ ts)
      → length ts < n
      → Ends tk stof
          (λ b rest. StructBody tk stof (t ∷ ts) rest b)
          (suc (length ts))
          ((if same_token t.type bracel
              then parse_scope tk stof n expr item struct
              else nearest >>= λ j. pure (leaf no_body j))
            s)
  StructBody-ReadsAny {s} {t} {ts} w b =
      Ends-test tk stof t.type bracel _ _
        (λ e.
          Ends-weaken tk stof (omega arith) (λ a rest y. with_scope e y)
            (parse_scope-Reads tk stof n expr item reads_expr reads_item struct s t ts w b))
        (λ e. ended w (omega arith) (without_scope e))

  parse_struct-Ends :
      (local : Bool) {fl : Flags} {bs : List Token} {s : Parser} {t : Token} {ts : List Token}
      → Qualifiers tk stof bs (t ∷ ts) fl
      → same_text (text_of tk t) (word "struct") ≡ true
      → Stands tk s (t ∷ ts)
      → length ts < suc n
      → Ends tk stof
          (λ a rest. Item tk stof local bs rest a)
          (length ts)
          (parse_struct tk stof n expr item fl s)
  unfolding parse_struct
  parse_struct-Ends local {fl} {s = s} {t} {ts} y e w b =
      Ends-bind tk stof (advance-Ends tk stof w) λ _ s₁ u us w₁ l₁ p.
        Ends-bind tk stof
          (parse_declaration-Reads tk stof n expr item reads_expr reads_item false fl s₁ u us w₁
            (omega arith))
          λ d s₂ v vs w₂ l₂ x.
            Ends-bind tk stof (check_portlist-Ends tk stof n expr item reads_expr reads_item x w₂)
              λ _ s₃ v₃ vs₃ w₃ l₃ (q₃, c).
                Ends-bind tk stof
                  (check_outputs-Ends tk stof n expr item reads_expr reads_item x w₃)
                  λ _ s₄ v₄ vs₄ w₄ l₄ (q₄, o). Ends-current tk stof _ w₄ (
                    Ends-bind tk stof (StructBody-ReadsAny w₄ (omega arith)) λ z s₅ k ks w₅ l₅ f.
                      ended w₅ (omega arith)
                        (structured y e (rw p x) c o (rw (sym (q₃ ∙ q₄)) at f)))

  parse_constraint-Ends :
      (local : Bool) {fl : Flags} {bs : List Token} {s : Parser} {t : Token} {ts : List Token}
      → Qualifiers tk stof bs (t ∷ ts) fl
      → same_text (text_of tk t) (word "constraint") ≡ true
      → Stands tk s (t ∷ ts)
      → length ts < suc n
      → Ends tk stof
          (λ a rest. Item tk stof local bs rest a)
          (length ts)
          (parse_constraint tk stof n expr item fl s)
  unfolding parse_constraint
  parse_constraint-Ends local {fl} {s = s} {t} {ts} y e w b =
      Ends-bind tk stof (advance-Ends tk stof w) λ _ s₁ u us w₁ l₁ p.
        Ends-bind tk stof
          (parse_declaration-Reads tk stof n expr item reads_expr reads_item false fl s₁ u us w₁
            (omega arith))
          λ d s₂ v vs w₂ l₂ x.
            Ends-bind tk stof (check_portlist-Ends tk stof n expr item reads_expr reads_item x w₂)
              λ _ s₃ v₃ vs₃ w₃ l₃ (q₃, c). Ends-current tk stof _ w₃ (
                Ends-test tk stof v₃.type bracel _ _ (λ _. refused (λ q. cc))
                  (λ f. ended w₃ (omega arith) (constrained y e (rw p (rw q₃ at x)) c f)))

  parse_namespace-Ends :
      (local : Bool) {s : Parser} {t : Token} {ts : List Token}
      → same_text (text_of tk t) (word "namespace") ≡ true
      → Stands tk s (t ∷ ts)
      → length ts < suc n
      → Ends tk stof
          (λ a rest. Item tk stof local (t ∷ ts) rest a)
          (length ts)
          (parse_namespace tk stof n expr item s)
  unfolding parse_namespace
  parse_namespace-Ends local {s} {t} {ts} e w b =
      Ends-bind tk stof (advance-Ends tk stof w) λ _ s₁ u us w₁ l₁ p. rw p (
        Ends-bind tk stof (parse_identifier-Ends tk stof false false w₁)
          λ name s₂ v vs w₂ l₂ (q, x). rw q (
            Ends-bind tk stof
              (parse_scope-Reads tk stof n expr item reads_expr reads_item namespace s₂ v vs w₂
                (omega arith))
              λ a s₃ y ys w₃ l₃ f. ended w₃ (omega arith) (namespaced e x f)))

  parse_qualified-Ends :
      (p g : NodeType) {fl : Flags} {bs : List Token} {s : Parser} {t : Token} {ts : List Token}
      → Qualifiers tk stof bs (t ∷ ts) fl
      → Stands tk s (t ∷ ts)
      → length ts < suc n
      → Ends tk stof
          (λ a rest. Item tk stof (in_local_scope p g) bs rest a)
          (length ts)
          (parse_qualified tk stof n expr item p g fl s)
  unfolding parse_qualified
  parse_qualified-Ends p g {s = s} {t} {ts} y w b = Ends-current tk stof _ w (
      Ends-if tk stof (same_text (text_of tk t) (word "struct")) _ _
        (λ e. parse_struct-Ends (in_local_scope p g) y e w b)
        λ _.
          Ends-if tk stof (same_text (text_of tk t) (word "constraint")) _ _
            (λ e. parse_constraint-Ends (in_local_scope p g) y e w b)
            (λ _. parse_function-Ends p g y w b))

  pub parse_item_step-Reads :
      (p g : NodeType)
      → Reads tk stof
          (Item tk stof (in_local_scope p g))
          (suc n)
          (parse_item_step tk stof n expr item p g)
  unfolding parse_item_step
  parse_item_step-Reads p g s t ts w b = Ends-current tk stof _ w (
      Ends-if tk stof (same_text (text_of tk t) (word "namespace")) _ _
        (λ e. parse_namespace-Ends (in_local_scope p g) e w b)
        (λ _.
          Ends-bind tk stof
            (parse_qualifiers-ReadsAny tk stof n expr item reads_expr reads_item s t ts w b)
            λ fl s₁ u us w₁ l₁ y.
              Ends-weaken tk stof (omega arith) (λ a rest x. x)
                (parse_qualified-Ends p g y w₁ (omega arith))))
