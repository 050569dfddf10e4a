-- ===== src/Parser/CheckLaws.antt =====
-- Declarations and their checks in libelement/src/ast/parser_internal.cpp, from the parser to the
-- grammar.
use mathlib.Core.Path.{subst}
use element.Prelude.{
  ℕ, suc, List, ◌∷◌, Option, some, Bool, true, false, not, ◌||◌, ◌&&◌, ◌≡◌, refl, ◌⊎◌, inl, inr,
  length, arith, and-true,
}
use element.Result.{missing_closing_parenthesis_for_portlist}
use element.Tokeniser.State.{TokenType, bracketl, bracketr, Token, Tokeniser, text_of}
use element.Parser.Ast.{
  NodeType, Payload, Flags, Ast, node, nil, cons, declaration_has_outputs, declaration_is_intrinsic,
  declaration_has_portlist, same_node, node_type,
}
use element.Parser.Outcome.{Parser, P}
use element.Parser.Words.{word, same_text}
use element.Parser.Steps.{same_token}
use element.Parser.Declarations.{
  in_local_scope, parse_qualifiers, parse_inputs, parse_declaration, skip_function, check_portlist,
  check_outputs,
}
use element.Parser.Stream.{Stands, same_token_sound}
use element.Parser.Ends.{
  Ends, ended, refused, Ends-bind, Ends-if, Ends-test, Ends-current, Ends-weaken, advance-Ends,
  Reads, ReadsAny,
}
use element.Parser.Terminals.{parse_identifier-Ends}
use element.Parser.Grammar.{
  SkipsFunction, skipped, kept, Qualifiers, intrinsic, unqualified, HasPorts, excused, has_ports,
  Expression, portlisted, typed, untyped, Inputs, listed, unlisted, Declaration, declared, Item,
}
use element.Parser.PortLaws.{parse_return_type-ReadsAny, parse_portlist-Reads}

pub or-false : (a b : Bool) → (a || b) ≡ false → (a ≡ false) × (b ≡ false)
or-false a b h = ground arith

module _ (tk : Tokeniser) {V : Type 0} (stof : List ℕ → Option V) where
  -- What a declaration's tree tells of it.
  pub intrinsic-Declaration :
      {fl : Flags} {local : Bool} {ts rest : List Token} {d : Ast V}
      → Declaration tk stof fl local ts rest d
      → declaration_is_intrinsic d ≡ some fl.intrinsic
  unfolding declaration_is_intrinsic
  intrinsic-Declaration (declared x i o) = refl

  pub type-Declaration :
      {fl : Flags} {local : Bool} {ts rest : List Token} {d : Ast V}
      → Declaration tk stof fl local ts rest d
      → same_node (node_type d) NodeType.declaration ≡ true
  type-Declaration (declared x i o) = refl

  portlist-Inputs :
      {ts rest : List Token} {i : Ast V}
      → Inputs tk stof ts rest i
      → (d : Flags) (o : Ast V) (k : Option ℕ) (x : List ℕ)
      → (declaration_has_portlist
            (node NodeType.declaration x (Payload.flags d) k (cons i (cons o nil)))
          ≡ some true)
        ⊎ (declaration_has_portlist
              (node NodeType.declaration x (Payload.flags d) k (cons i (cons o nil)))
            ≡ some false)
  unfolding declaration_has_portlist
  portlist-Inputs (listed e (portlisted ps) f) d o k x = inl refl
  portlist-Inputs (unlisted e) d o k x = inr refl

  pub portlist-Declaration :
      {fl : Flags} {local : Bool} {ts rest : List Token} {d : Ast V}
      → Declaration tk stof fl local ts rest d
      → (declaration_has_portlist d ≡ some true) ⊎ (declaration_has_portlist d ≡ some false)
  portlist-Declaration (declared {n = x} {k} {o = o} _ i _) = portlist-Inputs i _ o k x

  outputs-Declaration :
      {fl : Flags} {local : Bool} {ts rest : List Token} {d : Ast V}
      → Declaration tk stof fl local ts rest d
      → (declaration_has_outputs d ≡ some true) ⊎ (declaration_has_outputs d ≡ some false)
  unfolding declaration_has_outputs
  outputs-Declaration (declared x i (typed e t)) = inl refl
  outputs-Declaration (declared x i (untyped e)) = inr refl

module _ (tk : Tokeniser) {V : Type 0} (stof : List ℕ → Option V) (n : ℕ)
    (expr : NodeType → P (Ast V)) (item : NodeType → NodeType → P (Ast V))
    (reads_expr : (p : NodeType) → Reads tk stof (Expression tk stof) n (expr p))
    (reads_item : (p g : NodeType)
      → Reads tk stof (Item tk stof (in_local_scope p g)) n (item p g)) where
  pub parse_qualifiers-ReadsAny :
      ReadsAny tk stof (Qualifiers tk stof) (suc n) (parse_qualifiers tk stof n expr item)
  unfolding parse_qualifiers
  parse_qualifiers-ReadsAny s t ts w b = Ends-current tk stof _ w (
      Ends-if tk stof
        (same_token t.type TokenType.identifier && same_text (text_of tk t) (word "intrinsic")) _ _
        (λ e. Ends-bind tk stof (advance-Ends tk stof w) λ _ s₁ u us w₁ l₁ p. rw p (
          ended w₁ (omega arith) (
            intrinsic (same_token_sound t.type TokenType.identifier (and-true _ _ e).0)
              (and-true _ _ e).1)))
        (λ _. ended w (omega arith) unqualified))

  parse_inputs-ReadsAny :
      ReadsAny tk stof (Inputs tk stof) (suc n) (parse_inputs tk stof n expr item)
  unfolding parse_inputs
  parse_inputs-ReadsAny s t ts w b = Ends-current tk stof _ w (
      Ends-test tk stof t.type bracketl _ _
        (λ e. Ends-bind tk stof (advance-Ends tk stof w) λ _ s₁ u us w₁ l₁ p. rw p (
          Ends-bind tk stof
            (parse_portlist-Reads tk stof n expr item reads_expr reads_item s₁ u us w₁
              (omega arith))
            λ ps s₂ v vs w₂ l₂ x. Ends-current tk stof _ w₂ (
              Ends-test tk stof v.type bracketr _ _
                (λ f.
                  Ends-bind tk stof (advance-Ends tk stof w₂)
                    λ _ s₃ y ys w₃ l₃ q. ended w₃ (omega arith) (listed e (rw q at x) f))
                (λ f. refused {r = missing_closing_parenthesis_for_portlist} (λ q. cc)))))
        (λ e. ended w (omega arith) (unlisted e)))

  pub parse_declaration-Reads :
      (local : Bool) (fl : Flags)
      → Reads tk stof
          (Declaration tk stof fl local)
          (suc n)
          (parse_declaration tk stof n expr item local fl)
  unfolding parse_declaration
  parse_declaration-Reads local fl s t ts w b =
      Ends-bind tk stof (parse_identifier-Ends tk stof false local w) λ name s₁ u us w₁ l₁ (p, x).
        rw p (
          Ends-bind tk stof (parse_inputs-ReadsAny s₁ u us w₁ (omega arith)) λ is s₂ v vs w₂ l₂ i.
            Ends-bind tk stof
              (parse_return_type-ReadsAny tk stof n expr item reads_expr reads_item s₂ v vs w₂
                (omega arith))
              λ o s₃ y ys w₃ l₃ r. ended w₃ (omega arith) (declared x i r))

  pub skip_function-ReadsAny :
      (fl : Flags) {s : Parser} {t : Token} {ts : List Token}
      → Stands tk s (t ∷ ts)
      → Ends tk stof
          (λ _ rest. SkipsFunction tk stof fl t ts rest)
          (suc (length ts))
          (skip_function tk stof n expr item fl s)
  unfolding skip_function
  skip_function-ReadsAny fl {s} {t} {ts} w = Ends-current tk stof _ w (
      Ends-if tk stof (same_text (text_of tk t) (word "function") && fl.intrinsic) _ _
        (λ e.
          Ends-weaken tk stof (omega arith)
            (λ _ rest p. subst (λ r. SkipsFunction tk stof fl t ts r) p (skipped e))
            (advance-Ends tk stof w))
        (λ e. ended w (omega arith) (kept e)))

  pub check_portlist-Ends :
      {fl : Flags} {local : Bool} {bs rest : List Token} {d : Ast V} {s : Parser} {t : Token}
      {ts : List Token}
      → Declaration tk stof fl local bs rest d
      → Stands tk s (t ∷ ts)
      → Ends tk stof
          (λ _ rest. (t ∷ ts ≡ rest) × HasPorts tk stof fl d)
          (suc (length ts))
          (check_portlist tk stof n expr item d s)
  unfolding check_portlist
  check_portlist-Ends {fl} x w = elim (portlist-Declaration tk stof x) [
    | inl e ↦
        rw (intrinsic-Declaration tk stof x, e)
          (Ends-if tk stof (not fl.intrinsic && not true) _ _ (λ _. refused (λ q. cc))
            (λ _. ended w (omega arith) (refl, has_ports e)))
    | inr e ↦
        rw (intrinsic-Declaration tk stof x, e)
          (Ends-if tk stof (not fl.intrinsic && not false) _ _ (λ _. refused (λ q. cc))
            (λ f. ended w (omega arith) (refl, excused (ground arith))))
  ]

  pub check_outputs-Ends :
      {fl : Flags} {local : Bool} {bs rest : List Token} {d : Ast V} {s : Parser} {t : Token}
      {ts : List Token}
      → Declaration tk stof fl local bs rest d
      → Stands tk s (t ∷ ts)
      → Ends tk stof
          (λ _ rest. (t ∷ ts ≡ rest) × (declaration_has_outputs d ≡ some false))
          (suc (length ts))
          (check_outputs tk stof n expr item d s)
  unfolding check_outputs
  check_outputs-Ends x w = elim (outputs-Declaration tk stof x) [
    | inl e ↦ rw e (refused (λ q. cc))
    | inr e ↦ rw e (ended w (omega arith) (refl, refl))
  ]
