-- ===== src/Parser/CompleteDeclarations.antt =====
-- Declarations of libelement/src/ast/parser_internal.cpp, from the grammar to the parser.
use element.Prelude.{
  ℕ, suc, List, [], ◌∷◌, Option, some, Bool, true, false, not, ◌&&◌, ◌≡◌, refl, ap, ◌∙◌, ◌≢◌, ◌<◌,
  inl, inr, length, arith, and-true,
}
use element.Tokeniser.State.{bracketl, bracketr, Token, Tokeniser, text_of}
use element.Parser.Ast.{
  NodeType, Payload, Flags, Ast, declaration_is_intrinsic, declaration_has_portlist,
  declaration_has_outputs, same_node, node_type,
}
use element.Parser.Outcome.{Parser, P}
use element.Parser.Words.{word, same_text}
use element.Parser.WordsLaws.{check_reserved_words_iff}
use element.Parser.Names.{same_text_iff, same_text-false}
use element.Parser.Declarations.{
  in_local_scope, parse_inputs, parse_declaration, skip_function, check_portlist, check_outputs,
}
use element.Parser.Stream.{Stands}
use element.Parser.Gives.{
  Same, same, same_nil, same_cons, Gives, gives, Gives-bind, Gives-current, Gives-if, Gives-else,
  Gives-test, Gives-otherwise, advance-Gives, advance-Gives_more,
}
use element.Parser.Grammar.{
  SkipsFunction, skipped, kept, HasPorts, excused, has_ports, IsName, name, Expression, Inputs,
  listed, unlisted, Declaration, declared, FunctionBody, bodied, bodiless, Item,
}
use element.Parser.Lengths.{Body-length, Inputs-length}
use element.Parser.CheckLaws.{intrinsic-Declaration, portlist-Declaration}
use element.Parser.CompletePorts.{Completes, IsName-Gives, Returns-Completes, Portlist-Completes}

-- A text that is one word is no other.
pub other_word :
    (x a b : List ℕ) → same_text x a ≡ true → same_text a b ≡ false → same_text x b ≡ false
other_word x a b e f = rw ((same_text_iff x a).0 e) f

-- What the checks read does not depend on positions.
pub and_right_false : (a b : Bool) → b ≡ false → (a && b) ≡ false
and_right_false a b h = ground arith

module _ {V : Type 0} where
  pub intrinsic-Same :
      {d a : Ast V} → Same d a → declaration_is_intrinsic a ≡ declaration_is_intrinsic d
  unfolding declaration_is_intrinsic
  intrinsic-Same (same same_nil) = refl
  intrinsic-Same (same (same_cons x same_nil)) = refl
  intrinsic-Same (same {u = Payload.value v} (same_cons x (same_cons y z))) = refl
  intrinsic-Same (same {u = Payload.flags f} (same_cons x (same_cons y z))) = refl

  portlist-Same : {d a : Ast V} → Same d a → declaration_has_portlist a ≡ declaration_has_portlist d
  unfolding declaration_has_portlist
  portlist-Same (same same_nil) = refl
  portlist-Same (same (same_cons x same_nil)) = refl
  portlist-Same (same (same_cons (same {u = Payload.value v} x) (same_cons y z))) = refl
  portlist-Same (same (same_cons (same {u = Payload.flags f} x) (same_cons y z))) = refl

  outputs-Same : {d a : Ast V} → Same d a → declaration_has_outputs a ≡ declaration_has_outputs d
  unfolding declaration_has_outputs
  outputs-Same (same same_nil) = refl
  outputs-Same (same (same_cons x same_nil)) = refl
  outputs-Same (same (same_cons x (same_cons (same y) z))) = refl

module _ (tk : Tokeniser) {V : Type 0} (stof : List ℕ → Option V) where
  pub type-Same :
      {fl : Flags} {local : Bool} {ts rest : List Token} {d a : Ast V}
      → Declaration tk stof fl local ts rest d
      → Same d a
      → same_node (node_type a) NodeType.declaration ≡ true
  type-Same (declared x i o) (same z) = refl

  -- A name is none of the words that begin other items.
  IsName-words :
      {args names : Bool} {t : Token} {x : List ℕ}
      → IsName tk stof args names t x
      → (same_text (text_of tk t) (word "intrinsic") ≡ false)
        × (same_text (text_of tk t) (word "struct") ≡ false)
        × (same_text (text_of tk t) (word "namespace") ≡ false)
        × (same_text (text_of tk t) (word "constraint") ≡ false)
  IsName-words {args} {names} {t} (name e f) =
      let (a, b, c, d, _) = (check_reserved_words_iff (text_of tk t) args names).0 f in
      (
        (same_text-false (text_of tk t) (word "intrinsic")).1 a,
        (same_text-false (text_of tk t) (word "struct")).1 b,
        (same_text-false (text_of tk t) (word "namespace")).1 c,
        (same_text-false (text_of tk t) (word "constraint")).1 d,
      )

  -- The first token of a function's declaration, or the word before it, begins no other item.
  pub function_words :
      {fl : Flags} {local : Bool} {t : Token} {ms ds rest : List Token} {d : Ast V}
      → SkipsFunction tk stof fl t ms ds
      → Declaration tk stof fl local ds rest d
      → (same_text (text_of tk t) (word "intrinsic") ≡ false)
        × (same_text (text_of tk t) (word "struct") ≡ false)
        × (same_text (text_of tk t) (word "namespace") ≡ false)
        × (same_text (text_of tk t) (word "constraint") ≡ false)
  function_words {t = t} (skipped e) d =
      let f = (and-true _ _ e).0 in
      (
        other_word (text_of tk t) (word "function") (word "intrinsic") f refl,
        other_word (text_of tk t) (word "function") (word "struct") f refl,
        other_word (text_of tk t) (word "function") (word "namespace") f refl,
        other_word (text_of tk t) (word "function") (word "constraint") f refl,
      )
  function_words (kept e) (declared x i o) = IsName-words x

  pub FunctionBody-ne-nil :
      {fl : Flags} {ts rest : List Token} {b : Ast V} → FunctionBody tk stof fl ts rest b → ts ≢ []
  FunctionBody-ne-nil (bodied x) e = absurd (omega (arith, Body-length tk stof x, ap length e))
  FunctionBody-ne-nil (bodiless e f g) h = cc

  pub SkipsFunction-Gives :
      (n : ℕ) (expr : NodeType → P (Ast V)) (item : NodeType → NodeType → P (Ast V)) {fl : Flags}
      {t : Token} {ms ds : List Token} {s : Parser}
      → SkipsFunction tk stof fl t ms ds
      → (0 < length ds)
      → Stands tk s (t ∷ ms)
      → Gives tk (λ _. Unit {0}) ds (skip_function tk stof n expr item fl s)
  unfolding skip_function
  SkipsFunction-Gives n expr item {fl} {t} {ds = []} d b w = absurd (omega arith)
  SkipsFunction-Gives n expr item {fl} {t} {ds = u ∷ us} (skipped e) b w = Gives-current tk _ w (
      Gives-if tk (same_text (text_of tk t) (word "function") && fl.intrinsic) _ _ e
        (advance-Gives_more tk w))
  SkipsFunction-Gives n expr item {fl} {t} (kept e) b w = Gives-current tk _ w (
      Gives-else tk (same_text (text_of tk t) (word "function") && fl.intrinsic) _ _ e (gives w tt))

  -- The checks of a struct's or a constraint's declaration pass.
  pub check_portlist-Gives :
      (n : ℕ) (expr : NodeType → P (Ast V)) (item : NodeType → NodeType → P (Ast V)) {fl : Flags}
      {local : Bool} {bs ms ts : List Token} {d a : Ast V} {s : Parser}
      → Declaration tk stof fl local bs ms d
      → HasPorts tk stof fl d
      → Same d a
      → Stands tk s ts
      → Gives tk (λ _. Unit {0}) ts (check_portlist tk stof n expr item a s)
  unfolding check_portlist
  check_portlist-Gives n expr item {fl} x (excused e) y w = elim (portlist-Declaration tk stof x) [
    | inl p ↦
        rw (intrinsic-Same y ∙ intrinsic-Declaration tk stof x, portlist-Same y ∙ p, e) (gives w tt)
    | inr p ↦
        rw (intrinsic-Same y ∙ intrinsic-Declaration tk stof x, portlist-Same y ∙ p, e) (gives w tt)
  ]
  check_portlist-Gives n expr item {fl} x (has_ports p) y w =
      rw (intrinsic-Same y ∙ intrinsic-Declaration tk stof x, portlist-Same y ∙ p)
        (Gives-else tk (not fl.intrinsic && not true) _ _ (ground arith) (gives w tt))

  pub check_outputs-Gives :
      (n : ℕ) (expr : NodeType → P (Ast V)) (item : NodeType → NodeType → P (Ast V))
      {ts : List Token} (d a : Ast V) {s : Parser}
      → declaration_has_outputs d ≡ some false
      → Same d a
      → Stands tk s ts
      → Gives tk (λ _. Unit {0}) ts (check_outputs tk stof n expr item a s)
  unfolding check_outputs
  check_outputs-Gives n expr item d a e y w = rw (outputs-Same y ∙ e) (gives w tt)

module _ (tk : Tokeniser) {V : Type 0} (stof : List ℕ → Option V) (n : ℕ)
    (expr : NodeType → P (Ast V)) (item : NodeType → NodeType → P (Ast V))
    (gives_expr : (p : NodeType) → Completes tk stof (Expression tk stof) n (expr p))
    (gives_item : (p g : NodeType)
      → Completes tk stof (Item tk stof (in_local_scope p g)) n (item p g)) where
  Inputs-Completes : Completes tk stof (Inputs tk stof) (suc n) (parse_inputs tk stof n expr item)
  unfolding parse_inputs
  Inputs-Completes _ _ _ (listed {t} {u} e ps f) b s w = Gives-current tk _ w (
      Gives-test tk t.type bracketl _ _ e (
        Gives-bind tk (advance-Gives tk w (λ q. cc)) λ _ s₁ w₁ _.
          Gives-bind tk
            (Portlist-Completes tk stof n expr item gives_expr gives_item _ _ _ ps (omega arith) s₁
              w₁)
            λ a s₂ w₂ q. Gives-current tk _ w₂ (
              Gives-test tk u.type bracketr _ _ f
                (Gives-bind tk (advance-Gives tk w₂ (λ h. cc)) λ _ s₃ w₃ _. gives w₃ q))))
  Inputs-Completes _ _ _ (unlisted {t} e) b s w =
      Gives-current tk _ w (Gives-otherwise tk t.type bracketl _ _ e (gives w (same same_nil)))

  pub Declaration-Completes :
      (fl : Flags) (local : Bool)
      → Completes tk stof
          (Declaration tk stof fl local)
          (suc n)
          (parse_declaration tk stof n expr item local fl)
  unfolding parse_declaration
  Declaration-Completes fl local _ _ _ (declared x i o) b s w =
      Gives-bind tk (IsName-Gives tk stof x w) λ a s₁ w₁ e. rw e (
        Gives-bind tk (Inputs-Completes _ _ _ i (omega arith) s₁ w₁) λ c s₂ w₂ q.
          Gives-bind tk
            (Returns-Completes tk stof n expr item gives_expr gives_item _ _ _ o
              (omega (arith, Inputs-length tk stof i)) s₂ w₂)
            λ r s₃ w₃ z. gives w₃ (same (same_cons q (same_cons z same_nil))))
