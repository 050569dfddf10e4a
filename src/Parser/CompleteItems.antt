-- ===== src/Parser/CompleteItems.antt =====
-- Items of libelement/src/ast/parser_internal.cpp, from the grammar to the parser.
use element.Prelude.{
  ℕ, suc, List, [], ◌∷◌, Option, some, Bool, false, ◌||◌, ◌&&◌, ◌≡◌, refl, ◌∙◌, ◌≢◌, ◌≤◌, length,
  arith, if◌then◌else◌,
}
use element.Tokeniser.State.{TokenType, bracel, equals, Token, Tokeniser, text_of}
use element.Parser.Ast.{
  NodeType, function, struct, namespace, constraint, no_body, Flags, no_flags, flags, Ast, node,
  nil, cons, bare, leaf, declaration_has_outputs,
}
use element.Parser.Outcome.{Parser, P, pure, ◌>>=◌}
use element.Parser.Words.{word, same_text}
use element.Parser.Steps.{same_token, nearest}
use element.Parser.Expressions.{parse_scope, parse_function_body}
use element.Parser.Declarations.{
  in_local_scope, parse_qualifiers, end_function, parse_function, parse_struct, parse_constraint,
  parse_namespace, parse_qualified, parse_item_step,
}
use element.Parser.Stream.{Stands, same_token_refl, same_token_differs}
use element.Parser.Gives.{
  Same, same, same_nil, same_cons, Gives, gives, Gives-bind, Gives-current, Gives-if, Gives-else,
  Gives-test, Gives-otherwise, advance-Gives, advance-Gives_more,
}
use element.Parser.Grammar.{
  SkipsFunction, Qualifiers, intrinsic, unqualified, HasPorts, IsName, Expression, scoped,
  expressed, Scope, Declaration, declared, FunctionBody, bodied, bodiless, StructBody, with_scope,
  without_scope, Item, namespaced, structured, constrained, defined,
}
use element.Parser.Lengths.{Declaration-length, Qualifiers-length, SkipsFunction-length}
use element.Parser.CheckLaws.{intrinsic-Declaration}
use element.Parser.CompletePorts.{Completes, IsName-Gives}
use element.Parser.CompleteExpressions.{Scope-Completes, Body-Completes}
use element.Parser.CompleteDeclarations.{
  Declaration-Completes, FunctionBody-ne-nil, SkipsFunction-Gives, and_right_false,
  check_outputs-Gives, check_portlist-Gives, function_words, intrinsic-Same, type-Same, other_word,
}

module _ (tk : Tokeniser) {V : Type 0} (stof : List ℕ → Option V) (n : ℕ)
    (expr : NodeType → P (Ast V)) (item : NodeType → NodeType → P (Ast V))
    (gives_expr : (p : NodeType) → Completes tk stof (Expression tk stof) n (expr p))
    (gives_item : (p g : NodeType)
      → Completes tk stof (Item tk stof (in_local_scope p g)) n (item p g)) where
  StructBody-Gives :
      {t : Token} {ts rest : List Token} {b : Ast V}
      → StructBody tk stof (t ∷ ts) rest b
      → length (t ∷ ts) ≤ n
      → (s : Parser) → Stands tk s (t ∷ ts)
      → Gives tk (Same b) rest (
          (if same_token t.type bracel
              then parse_scope tk stof n expr item struct
              else nearest >>= λ j. pure (leaf no_body j))
            s)
  StructBody-Gives {t} (with_scope e x) l s w =
      Gives-test tk t.type bracel _ _ e
        (Scope-Completes tk stof n expr item gives_expr gives_item struct _ _ _ x l s w)
  StructBody-Gives {t} (without_scope e) l s w =
      Gives-otherwise tk t.type bracel _ _ e (gives w (same same_nil))

  FunctionBody-Gives :
      (p : NodeType) {fl : Flags} {local : Bool} {bs ts rest : List Token} {t : Token}
      {d a b : Ast V}
      → FunctionBody tk stof fl (t ∷ ts) rest b
      → Declaration tk stof fl local bs (t ∷ ts) d
      → Same d a
      → length (t ∷ ts) ≤ n
      → (s : Parser) → Stands tk s (t ∷ ts)
      → Gives tk (Same b) rest (
          (if same_token t.type bracel || same_token t.type equals
              then parse_function_body tk stof n expr item function p
              else end_function tk stof n expr item a)
            s)
  FunctionBody-Gives p {t = t} (bodied (scoped e x)) d y l s w =
      (Gives-if tk (same_token t.type bracel || same_token t.type equals) _ _
        (rw (e, same_token_refl bracel))
        (Body-Completes tk stof n expr item gives_expr gives_item function p _ _ _ (scoped e x) l s
          w))
  FunctionBody-Gives p {t = t} (bodied (expressed e x)) d y l s w =
      (Gives-if tk (same_token t.type bracel || same_token t.type equals) _ _ (rw e refl) (
        Body-Completes tk stof n expr item gives_expr gives_item function p _ _ _ (expressed e x) l
          s w))
  FunctionBody-Gives p {t = t} (bodiless e f g) d y l s w =
      (Gives-else tk (same_token t.type bracel || same_token t.type equals) _ _
        (rw (same_token_differs t.type bracel e) (same_token_differs t.type equals f))
        (rw (intrinsic-Same y ∙ intrinsic-Declaration tk stof d, g) (gives w (same same_nil))))

  Qualifiers-Gives :
      {t : Token} {ts ms : List Token} {fl : Flags} {s : Parser}
      → Qualifiers tk stof ts (t ∷ ms) fl
      → same_text (text_of tk t) (word "intrinsic") ≡ false
      → Stands tk s ts
      → Gives tk (λ a. a ≡ fl) (t ∷ ms) (parse_qualifiers tk stof n expr item s)
  unfolding parse_qualifiers
  Qualifiers-Gives (intrinsic {t} e f) h w = Gives-current tk _ w (
      Gives-if tk
        (same_token t.type TokenType.identifier && same_text (text_of tk t) (word "intrinsic")) _ _
        (rw (e, f, same_token_refl TokenType.identifier))
        (Gives-bind tk (advance-Gives tk w (λ q. cc)) λ _ s₁ w₁ _. gives w₁ refl))
  Qualifiers-Gives (unqualified {t}) h w = Gives-current tk _ w (
      Gives-else tk
        (same_token t.type TokenType.identifier && same_text (text_of tk t) (word "intrinsic")) _ _
        (and_right_false (same_token t.type TokenType.identifier)
          (same_text (text_of tk t) (word "intrinsic")) h)
        (gives w refl))

  struct-Gives :
      {t : Token} {ms bs rest : List Token} {fl : Flags} {k : Option ℕ} {d b : Ast V}
      → Declaration tk stof fl false ms bs d
      → HasPorts tk stof fl d
      → declaration_has_outputs d ≡ some false
      → StructBody tk stof bs rest b
      → length ms ≤ n
      → (s : Parser) → Stands tk s (t ∷ ms)
      → Gives tk
          (Same (bare struct k (cons d (cons b nil))))
          rest
          (parse_struct tk stof n expr item fl s)
  unfolding parse_struct
  struct-Gives {bs = []} d h e b l s w = elim b [ ]
  struct-Gives {ms = []} {bs = v ∷ vs} d h e b l s w =
      absurd (omega (arith, Declaration-length tk stof d))
  struct-Gives {ms = u ∷ us} {bs = v ∷ vs} {fl} d h e b l s w =
      Gives-bind tk (advance-Gives_more tk w) λ _ s₁ w₁ _.
        Gives-bind tk
          (Declaration-Completes tk stof n expr item gives_expr gives_item fl false _ _ _ d
            (omega arith) s₁ w₁)
          λ a s₂ w₂ q.
            Gives-bind tk (check_portlist-Gives tk stof n expr item d h q w₂) λ _ s₃ w₃ _.
              Gives-bind tk (check_outputs-Gives tk stof n expr item _ a e q w₃) λ _ s₄ w₄ _.
                Gives-current tk _ w₄ (
                  Gives-bind tk
                    (StructBody-Gives b (omega (arith, Declaration-length tk stof d)) s₄ w₄)
                    λ c s₅ w₅ z. gives w₅ (same (same_cons q (same_cons z same_nil))))

  constraint-Gives :
      {t u : Token} {ms rest : List Token} {fl : Flags} {j k : Option ℕ} {d : Ast V}
      → Declaration tk stof fl false ms (u ∷ rest) d
      → HasPorts tk stof fl d
      → u.type ≢ bracel
      → length ms ≤ n
      → (s : Parser) → Stands tk s (t ∷ ms)
      → Gives tk
          (Same (bare constraint k (cons d (cons (leaf no_body j) nil))))
          (u ∷ rest)
          (parse_constraint tk stof n expr item fl s)
  unfolding parse_constraint
  constraint-Gives {u = u} {fl = fl} (declared x i o) h e l s w =
      Gives-bind tk (advance-Gives_more tk w) λ _ s₁ w₁ _.
        Gives-bind tk
          (Declaration-Completes tk stof n expr item gives_expr gives_item fl false _ _ _
            (declared x i o) (omega arith) s₁ w₁)
          λ a s₂ w₂ q.
            Gives-bind tk (check_portlist-Gives tk stof n expr item (declared x i o) h q w₂)
              λ _ s₃ w₃ _. Gives-current tk _ w₃ (
                Gives-otherwise tk u.type bracel _ _ e
                  (gives w₃ (same (same_cons q (same_cons (same same_nil) same_nil)))))

  function-Gives :
      (p g : NodeType) {t : Token} {ms ds bs rest : List Token} {fl : Flags} {k : Option ℕ}
      {d b : Ast V}
      → SkipsFunction tk stof fl t ms ds
      → Declaration tk stof fl (in_local_scope p g) ds bs d
      → FunctionBody tk stof fl bs rest b
      → length (t ∷ ms) ≤ suc n
      → (s : Parser) → Stands tk s (t ∷ ms)
      → Gives tk
          (Same (bare function k (cons d (cons b nil))))
          rest
          (parse_function tk stof n expr item p g fl s)
  unfolding parse_function
  function-Gives p g {bs = []} y d b l s w = absurd (FunctionBody-ne-nil tk stof b refl)
  function-Gives p g {bs = v ∷ vs} {fl} y d b l s w =
      let shorter = Declaration-length tk stof d in
      Gives-bind tk (SkipsFunction-Gives tk stof n expr item y (omega (arith, shorter)) w)
        λ _ s₁ w₁ _.
          Gives-bind tk
            (Declaration-Completes tk stof n expr item gives_expr gives_item fl (in_local_scope p g)
              _ _ _ d (omega (arith, SkipsFunction-length tk stof y)) s₁ w₁)
            λ a s₂ w₂ q. rw (type-Same tk stof d q) (
              Gives-current tk _ w₂ (
                Gives-bind tk
                  (FunctionBody-Gives p b d q
                    (omega (arith, shorter, SkipsFunction-length tk stof y)) s₂ w₂)
                  λ c s₃ w₃ z. gives w₃ (same (same_cons q (same_cons z same_nil)))))

  namespace-Gives :
      {t u : Token} {ts rest : List Token} {x : List ℕ} {k : Option ℕ} {b : Ast V}
      → IsName tk stof false false u x
      → Scope tk stof namespace ts rest b
      → length (t ∷ u ∷ ts) ≤ suc n
      → (s : Parser) → Stands tk s (t ∷ u ∷ ts)
      → Gives tk
          (Same (node namespace x (flags no_flags) k (cons b nil)))
          rest
          (parse_namespace tk stof n expr item s)
  unfolding parse_namespace
  namespace-Gives x b l s w = Gives-bind tk (advance-Gives_more tk w) λ _ s₁ w₁ _.
      Gives-bind tk (IsName-Gives tk stof x w₁) λ a s₂ w₂ h. rw h (
        Gives-bind tk
          (Scope-Completes tk stof n expr item gives_expr gives_item namespace _ _ _ b (omega arith)
            s₂ w₂)
          λ c s₃ w₃ z. gives w₃ (same (same_cons z same_nil)))

  -- What follows the qualifiers, if they have been any.
  qualified-Gives :
      (p g : NodeType) {t : Token} {ts ms rest : List Token} {fl : Flags} {x : Ast V} {s : Parser}
      → Qualifiers tk stof ts (t ∷ ms) fl
      → same_text (text_of tk t) (word "intrinsic") ≡ false
      → same_text (text_of tk t) (word "namespace") ≡ false
      → Stands tk s ts
      → ((s' : Parser)
          → Stands tk s' (t ∷ ms)
          → Gives tk (Same x) rest (parse_qualified tk stof n expr item p g fl s'))
      → Gives tk (Same x) rest (parse_item_step tk stof n expr item p g s)
  unfolding parse_item_step
  qualified-Gives p g (intrinsic {t = i} e f) h h' w k = Gives-current tk _ w (
      Gives-else tk (same_text (text_of tk i) (word "namespace")) _ _
        (other_word (text_of tk i) (word "intrinsic") (word "namespace") f refl)
        (Gives-bind tk (Qualifiers-Gives (intrinsic e f) h w) λ a s₁ w₁ q. rw q (k s₁ w₁)))
  qualified-Gives p g {t} unqualified h h' w k = Gives-current tk _ w (
      Gives-else tk (same_text (text_of tk t) (word "namespace")) _ _ h'
        (Gives-bind tk (Qualifiers-Gives unqualified h w) λ a s₁ w₁ q. rw q (k s₁ w₁)))

  pub Item-Completes :
      (p g : NodeType)
      → Completes tk stof
          (Item tk stof (in_local_scope p g))
          (suc n)
          (parse_item_step tk stof n expr item p g)
  unfolding parse_item_step parse_qualified
  Item-Completes p g _ _ _ (namespaced {t} e x b) l s w =
      Gives-current tk _ w (
        Gives-if tk (same_text (text_of tk t) (word "namespace")) _ _ e (namespace-Gives x b l s w))
  Item-Completes p g ts _ _ (structured {t} y e d h o b) l s w =
      qualified-Gives p g y (other_word (text_of tk t) (word "struct") (word "intrinsic") e refl)
        (other_word (text_of tk t) (word "struct") (word "namespace") e refl) w
        λ s₁ w₁. Gives-current tk _ w₁ (
          Gives-if tk (same_text (text_of tk t) (word "struct")) _ _ e
            (struct-Gives d h o b (omega (arith, Qualifiers-length tk stof y)) s₁ w₁))
  Item-Completes p g ts _ _ (constrained {t} y e d h f) l s w =
      qualified-Gives p g y
        (other_word (text_of tk t) (word "constraint") (word "intrinsic") e refl)
        (other_word (text_of tk t) (word "constraint") (word "namespace") e refl) w
        λ s₁ w₁. Gives-current tk _ w₁ (
          Gives-else tk (same_text (text_of tk t) (word "struct")) _ _
            (other_word (text_of tk t) (word "constraint") (word "struct") e refl)
            (Gives-if tk (same_text (text_of tk t) (word "constraint")) _ _ e
              (constraint-Gives d h f (omega (arith, Qualifiers-length tk stof y)) s₁ w₁)))
  Item-Completes p g ts _ _ (defined {t} y k d b) l s w =
      let (a, c, e, f) = function_words tk stof k d in
      qualified-Gives p g y a e w λ s₁ w₁. Gives-current tk _ w₁ (
        Gives-else tk (same_text (text_of tk t) (word "struct")) _ _ c (
          Gives-else tk (same_text (text_of tk t) (word "constraint")) _ _ f
            (function-Gives p g k d b (omega (arith, Qualifiers-length tk stof y)) s₁ w₁)))
