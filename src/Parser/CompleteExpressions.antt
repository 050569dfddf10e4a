-- ===== src/Parser/CompleteExpressions.antt =====
-- Expressions and bodies of libelement/src/ast/parser_internal.cpp, from the grammar to the parser.
use element.Prelude.{
  ℕ, zero, suc, List, [], ◌∷◌, Option, some, false, ◌||◌, ◌≡◌, refl, ◌≢◌, ◌≤◌, length, arith,
}
use element.Tokeniser.State.{
  TokenType, number, underscore, dot, bracketl, bracketr, comma, bracel, bracer, equals, Token,
  Tokeniser, text_of,
}
use element.Parser.Ast.{
  NodeType, exprlist, scope, lambda, anonymous_block, Ast, Children, nil, cons, node, call, flags,
  no_flags, literal, value, bare,
}
use element.Parser.Outcome.{Parser, P}
use element.Parser.Steps.{same_token, advance_then_check, advance_then_check_not}
use element.Parser.Loops.{separated, until_bracer, block_parts}
use element.Parser.Expressions.{
  parse_exprlist, links, parse_call, parse_scope, parse_anonymous_block, parse_function_body,
  parse_lambda, parse_expression_step,
}
use element.Parser.Declarations.{in_local_scope}
use element.Parser.Stream.{Stands, same_token_refl}
use element.Parser.Gives.{
  Same, same, SameAll, same_nil, same_cons, Gives, gives, Gives-bind, Gives-current, Gives-if,
  Gives-else, Gives-test, Gives-otherwise, advance-Gives, advance_ok-Gives,
}
use element.Parser.Grammar.{
  IsName, name, Expression, called, numeral, abstracted, block, Links, stop, arguments, member,
  Exprlist, passed, Expressions, one, many, Portlist, Returns, Body, scoped, expressed, Scope,
  enclosed, Items, closed, opened, Parts, no_part, next_part, Item,
}
use element.Parser.Lengths.{
  Separator-length, Opening-length, Expression-length, Exprlist-length, Expressions-length,
  Portlist-length, Returns-length, Item-length,
}
use element.Parser.CompletePorts.{
  Completes, IsName-Gives, Opening-Gives, Portlist-Completes, Returns-Completes, after_part-Gives,
  literal-Gives,
}

module _ (tk : Tokeniser) {V : Type 0} (stof : List ℕ → Option V) (n : ℕ)
    (expr : NodeType → P (Ast V)) (item : NodeType → NodeType → P (Ast V))
    (gives_expr : (p : NodeType) → Completes tk stof (Expression tk stof) n (expr p))
    (gives_item : (p g : NodeType)
      → Completes tk stof (Item tk stof (in_local_scope p g)) n (item p g)) where
  Expressions-Gives :
      (m : ℕ) {ts rest : List Token} {es : Children V}
      → Expressions tk stof ts rest es
      → length ts ≤ n
      → length ts ≤ m
      → (s : Parser) → Stands tk s ts
      → Gives tk (SameAll es) rest (separated tk (expr exprlist) m s)
  unfolding separated
  Expressions-Gives zero d b l s w = absurd (omega (arith, Expressions-length tk stof d))
  Expressions-Gives (suc m) (one {t} x e) b l s w =
      Gives-bind tk (gives_expr exprlist _ _ _ x b s w) λ c s₁ w₁ q. Gives-current tk _ w₁ (
        Gives-bind tk (Gives-otherwise tk {Q = SameAll nil} t.type comma _ _ e (gives w₁ same_nil))
          λ cs s₂ w₂ z. gives w₂ (same_cons q z))
  Expressions-Gives (suc m) (many {t} {es = es} x e xs) b l s w =
      Gives-bind tk (gives_expr exprlist _ _ _ x b s w) λ c s₁ w₁ q. Gives-current tk _ w₁ (
        Gives-bind tk
          (Gives-test tk {Q = SameAll es} t.type comma _ _ e (
            Gives-bind tk (advance_ok-Gives tk w₁ (λ h. cc)) λ c s₂ w₂ h. rw h (
              Expressions-Gives m xs (omega (arith, Expression-length tk stof x))
                (omega (arith, Expression-length tk stof x)) s₂ w₂)))
          λ cs s₃ w₃ z. gives w₃ (same_cons q z))

  Exprlist-Completes :
      Completes tk stof (Exprlist tk stof) (suc n) (parse_exprlist tk stof n expr item)
  unfolding parse_exprlist
  Exprlist-Completes _ _ _ (passed {t} {u} {v} {ts} {rest} e f es g) b s w = Gives-current tk _ w (
      Gives-test tk t.type bracketl _ _ e (
        Gives-bind tk (advance-Gives tk w (λ q. cc)) λ _ s₁ w₁ _. Gives-current tk _ w₁ (
          Gives-otherwise tk u.type bracketr _ _ f (
            Gives-bind tk (Expressions-Gives n es (omega arith) (omega arith) s₁ w₁) λ cs s₂ w₂ q.
              Gives-current tk _ w₂ (
                Gives-test tk v.type bracketr _ _ g (
                  Gives-bind tk (advance-Gives tk w₂ (λ h. cc)) λ _ s₃ w₃ _. gives w₃ (same q)))))))

  links-Gives :
      (m : ℕ) {ts rest : List Token} {ls : Children V}
      → Links tk stof ts rest ls
      → length ts ≤ suc n
      → length ts ≤ m
      → (s : Parser) → Stands tk s ts
      → Gives tk (SameAll ls) rest (links tk stof n expr item m s)
  unfolding links
  links-Gives zero (stop e f) b l s w = absurd (omega arith)
  links-Gives zero (arguments x ls) b l s w = absurd (omega (arith, Exprlist-length tk stof x))
  links-Gives zero (member e x ls) b l s w = absurd (omega arith)
  links-Gives (suc m) (stop {t} e f) b l s w = Gives-current tk _ w (
      Gives-otherwise tk t.type bracketl _ _ e
        (Gives-otherwise tk t.type dot _ _ f (gives w same_nil)))
  links-Gives (suc m) (arguments (passed {t} {u} {v} {k = k} e f es g) ls) b l s w =
      let shorter = Exprlist-length tk stof (passed {t = t} {u = u} {v = v} {k = k} e f es g) in
      Gives-current tk _ w (
        Gives-test tk t.type bracketl _ _ e (
          Gives-bind tk (Exprlist-Completes _ _ _ (passed e f es g) b s w) λ c s₁ w₁ q.
            Gives-bind tk (links-Gives m ls (omega (arith, shorter)) (omega (arith, shorter)) s₁ w₁)
              λ cs s₂ w₂ z. gives w₂ (same_cons q z)))
  links-Gives (suc m) (member {t} e x ls) b l s w = Gives-current tk _ w (
      Gives-otherwise tk t.type bracketl _ _ (λ q. cc)
        (Gives-test tk t.type dot _ _ e (
          Gives-bind tk (advance-Gives tk w (λ q. cc)) λ _ s₁ w₁ _.
            Gives-bind tk (IsName-Gives tk stof x w₁) λ a s₂ w₂ h. rw h (
              Gives-bind tk (links-Gives m ls (omega arith) (omega arith) s₂ w₂)
                λ cs s₃ w₃ z. gives w₃ (same_cons (same same_nil) z)))))

  call-Gives :
      {t : Token} {ts rest : List Token} {x : List ℕ} {k : Option ℕ} {ls : Children V}
      → IsName tk stof false false t x
      → Links tk stof ts rest ls
      → length (t ∷ ts) ≤ suc n
      → (s : Parser) → Stands tk s (t ∷ ts)
      → Gives tk (Same (node call x (flags no_flags) k ls)) rest (parse_call tk stof n expr item s)
  unfolding parse_call
  call-Gives {t} (name e f) ls b s w = Gives-current tk _ w (
      Gives-test tk t.type TokenType.identifier _ _ e (
        Gives-bind tk (IsName-Gives tk stof (name e f) w) λ a s₁ w₁ h. rw h (
          Gives-bind tk (links-Gives n ls (omega arith) (omega arith) s₁ w₁)
            λ cs s₂ w₂ z. gives w₂ (same z))))

  numeral-Gives :
      {t : Token} {ts rest : List Token} {v : V} {k : Option ℕ} {ls : Children V}
      → t.type ≡ number
      → stof (text_of tk t) ≡ some v
      → Links tk stof ts rest ls
      → length (t ∷ ts) ≤ suc n
      → (s : Parser) → Stands tk s (t ∷ ts)
      → Gives tk (Same (node literal [] (value v) k ls)) rest (parse_call tk stof n expr item s)
  unfolding parse_call
  numeral-Gives {t} e f ls b s w = Gives-current tk _ w (
      Gives-otherwise tk t.type TokenType.identifier _ _ (λ q. cc)
        (Gives-test tk t.type number _ _ e (
          Gives-bind tk (literal-Gives tk stof e f w) λ a s₁ w₁ h. rw h (
            Gives-bind tk (links-Gives n ls (omega arith) (omega arith) s₁ w₁)
              λ cs s₂ w₂ z. gives w₂ (same z)))))

  Items-Gives :
      (p g : NodeType) (m : ℕ) {ts rest : List Token} {is : Children V}
      → Items tk stof (in_local_scope p g) ts rest is
      → length ts ≤ n
      → length ts ≤ m
      → (s : Parser) → Stands tk s ts
      → Gives tk (SameAll is) rest (until_bracer tk (item p g) m s)
  unfolding until_bracer
  Items-Gives p g zero (closed e) b l s w = absurd (omega arith)
  Items-Gives p g zero (opened e i is) b l s w = absurd (omega arith)
  Items-Gives p g (suc m) (closed {t} e) b l s w =
      Gives-current tk _ w (Gives-test tk t.type bracer _ _ e (gives w same_nil))
  Items-Gives p g (suc m) (opened {t} e i is) b l s w = Gives-current tk _ w (
      Gives-otherwise tk t.type bracer _ _ e (
        Gives-bind tk (gives_item p g _ _ _ i b s w) λ c s₁ w₁ q.
          Gives-bind tk
            (Items-Gives p g m is (omega (arith, Item-length tk stof i))
              (omega (arith, Item-length tk stof i)) s₁ w₁)
            λ cs s₂ w₂ z. gives w₂ (same_cons q z)))

  pub Scope-Completes :
      (p : NodeType) → Completes tk stof (Scope tk stof p) n (parse_scope tk stof n expr item p)
  unfolding parse_scope
  Scope-Completes p _ _ _ (enclosed {ts = []} o is e) b s w = elim o [ ]
  Scope-Completes p _ _ _ (enclosed {u = u} {ts = t ∷ ts} o is e) b s w = Gives-current tk _ w (
      Gives-bind tk (Opening-Gives tk stof o w) λ _ s₁ w₁ _.
        Gives-bind tk
          (Items-Gives scope p n is (omega (arith, Opening-length tk stof o))
            (omega (arith, Opening-length tk stof o)) s₁ w₁)
          λ cs s₂ w₂ z.
            Gives-bind tk (advance-Gives tk w₂ (λ q. cc)) λ _ s₃ w₃ _. gives w₃ (same z))

  pub Body-Completes :
      (p g : NodeType)
      → Completes tk stof (Body tk stof p) n (parse_function_body tk stof n expr item p g)
  unfolding parse_function_body
  Body-Completes p g _ _ _ (scoped {t} e x) b s w =
      Gives-current tk _ w (Gives-test tk t.type bracel _ _ e (Scope-Completes p _ _ _ x b s w))
  Body-Completes p g _ _ _ (expressed {t} {ts} e x) b s w = Gives-current tk _ w (
      Gives-otherwise tk t.type bracel _ _ (λ q. cc)
        (Gives-test tk t.type equals _ _ e (
          Gives-bind tk (advance-Gives tk w (λ q. cc))
            λ _ s₁ w₁ _. gives_expr p ts _ _ x (omega arith) s₁ w₁)))

  Parts-Gives :
      (p : NodeType) (m : ℕ) {ts rest : List Token} {is : Children V}
      → Parts tk stof ts rest is
      → length ts ≤ n
      → length ts ≤ m
      → (s : Parser) → Stands tk s ts
      → Gives tk (SameAll is) rest (block_parts tk (item anonymous_block p) m s)
  unfolding block_parts
  Parts-Gives p zero (no_part e) b l s w = absurd (omega arith)
  Parts-Gives p zero (next_part e i d is) b l s w = absurd (omega arith)
  Parts-Gives p (suc m) (no_part {t} e) b l s w =
      Gives-current tk _ w (Gives-test tk t.type bracer _ _ e (gives w same_nil))
  Parts-Gives p (suc m) (next_part {t} e i d is) b l s w = Gives-current tk _ w (
      Gives-otherwise tk t.type bracer _ _ e (
        Gives-bind tk (gives_item anonymous_block p _ _ _ i b s w) λ c s₁ w₁ q.
          Gives-bind tk (after_part-Gives tk stof d w₁) λ _ s₂ w₂ _.
            Gives-bind tk
              (Parts-Gives p m is (omega (arith, Item-length tk stof i, Separator-length tk stof d))
                (omega (arith, Item-length tk stof i, Separator-length tk stof d)) s₂ w₂)
              λ cs s₃ w₃ z. gives w₃ (same_cons q z)))

  block-Gives :
      (p : NodeType) {t u v : Token} {ts rest : List Token} {k : Option ℕ} {is : Children V}
      → t.type ≡ bracel
      → u.type ≢ bracer
      → Parts tk stof (u ∷ ts) (v ∷ rest) is
      → v.type ≡ bracer
      → length (t ∷ u ∷ ts) ≤ suc n
      → (s : Parser) → Stands tk s (t ∷ u ∷ ts)
      → Gives tk
          (Same (bare anonymous_block k is))
          rest
          (parse_anonymous_block tk stof n expr item p s)
  unfolding parse_anonymous_block advance_then_check_not
  block-Gives p {t} {u} {v} e f is g b s w = Gives-current tk _ w (
      Gives-test tk t.type bracel _ _ e (
        Gives-bind tk
          (Gives-bind tk (advance-Gives tk w (λ q. cc)) λ _ s₁ w₁ _.
            Gives-current tk {Q = λ _. Unit {0}} _ w₁
              (Gives-otherwise tk u.type bracer _ _ f (gives w₁ tt)))
          λ _ s₂ w₂ _.
            Gives-bind tk (Parts-Gives p n is (omega arith) (omega arith) s₂ w₂) λ cs s₃ w₃ z.
              Gives-bind tk (advance-Gives tk w₃ (λ q. cc)) λ _ s₄ w₄ _. gives w₄ (same z)))

  lambda-Gives :
      (p : NodeType) {t u v : Token} {ts rs bs rest : List Token} {k : Option ℕ} {ps r c : Ast V}
      → t.type ≡ underscore
      → u.type ≡ bracketl
      → Portlist tk stof ts (v ∷ rs) ps
      → v.type ≡ bracketr
      → Returns tk stof rs bs r
      → Body tk stof lambda bs rest c
      → length (t ∷ u ∷ ts) ≤ suc n
      → (s : Parser) → Stands tk s (t ∷ u ∷ ts)
      → Gives tk
          (Same (bare lambda k (cons ps (cons r (cons c nil)))))
          rest
          (parse_lambda tk stof n expr item p s)
  unfolding parse_lambda advance_then_check
  lambda-Gives p {t} {u} {v} e f ps g r c b s w =
      let shorter = Portlist-length tk stof ps in
      Gives-current tk _ w (
        Gives-test tk t.type underscore _ _ e (
          Gives-bind tk
            (Gives-bind tk (advance-Gives tk w (λ q. cc)) λ _ s₁ w₁ _.
              Gives-current tk {Q = λ _. Unit {0}} _ w₁
                (Gives-test tk u.type bracketl _ _ f (gives w₁ tt)))
            λ _ s₂ w₂ _. Gives-bind tk (advance-Gives tk w₂ (λ q. cc)) λ _ s₃ w₃ _.
              Gives-bind tk
                (Portlist-Completes tk stof n expr item gives_expr gives_item _ _ _ ps (omega arith)
                  s₃ w₃)
                λ x s₄ w₄ z₄. Gives-current tk _ w₄ (
                  Gives-test tk v.type bracketr _ _ g (
                    Gives-bind tk (advance-Gives tk w₄ (λ q. cc)) λ _ s₅ w₅ _.
                      Gives-bind tk
                        (Returns-Completes tk stof n expr item gives_expr gives_item _ _ _ r
                          (omega (arith, shorter)) s₅ w₅)
                        λ y s₆ w₆ z₆.
                          Gives-bind tk
                            (Body-Completes lambda p _ _ _ c
                              (omega (arith, shorter, Returns-length tk stof r)) s₆ w₆)
                            λ a s₇ w₇ z₇.
                              gives w₇
                                (same (same_cons z₄ (same_cons z₆ (same_cons z₇ same_nil))))))))

  pub Expression-Completes :
      (p : NodeType)
      → Completes tk stof (Expression tk stof) (suc n) (parse_expression_step tk stof n expr item p)
  unfolding parse_expression_step
  Expression-Completes p _ _ _ (called {t} (name e f) ls) b s w = Gives-current tk _ w (
      Gives-if tk (same_token t.type TokenType.identifier || same_token t.type number) _ _
        (rw (e, same_token_refl TokenType.identifier)) (call-Gives (name e f) ls b s w))
  Expression-Completes p _ _ _ (numeral {t} e f ls) b s w = Gives-current tk _ w (
      Gives-if tk (same_token t.type TokenType.identifier || same_token t.type number) _ _
        (rw e refl) (numeral-Gives e f ls b s w))
  Expression-Completes p _ _ _ (abstracted {t} e f ps g r c) b s w = Gives-current tk _ w (
      Gives-else tk (same_token t.type TokenType.identifier || same_token t.type number) _ _
        (rw e refl) (Gives-test tk t.type underscore _ _ e (lambda-Gives p e f ps g r c b s w)))
  Expression-Completes p _ _ _ (block {t} e f is g) b s w = Gives-current tk _ w (
      Gives-else tk (same_token t.type TokenType.identifier || same_token t.type number) _ _
        (rw e refl)
        (Gives-otherwise tk t.type underscore _ _ (λ q. cc)
          (Gives-test tk t.type bracel _ _ e (block-Gives p e f is g b s w))))
