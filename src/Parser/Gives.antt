-- ===== src/Parser/Gives.antt =====
-- Runs of the methods of libelement/src/ast/parser_internal.cpp that succeed, and trees up to
-- positions.
use element.Prelude.{
  ℕ, List, [], ◌∷◌, Option, Bool, true, false, ◌≡◌, refl, ap, ◌∙◌, ◌≢◌, if◌then◌else◌,
}
use element.Result.{ElementResult}
use element.Tokeniser.State.{TokenType, eof, Token, Tokeniser}
use element.Parser.Ast.{NodeType, Payload, Ast, Children, node, nil, cons}
use element.Parser.Outcome.{Parser, Outcome, parsed, P, bind, failing_with}
use element.Parser.Steps.{same_token, current, advance, advance_ok}
use element.Parser.Stream.{
  Stands, current-Stands, advance_result-more, moved_to-Stands, same_token_refl, same_token_differs,
  only_eof,
}

-- Trees that differ in the positions of tokens only.
mutual
  pub data Same {V : Type 0} : Ast V → Ast V → Type 0 where
    same :
        {t : NodeType} {n : List ℕ} {u : Payload V} {j k : Option ℕ} {cs ds : Children V}
        → SameAll cs ds
        → Same (node t n u j cs) (node t n u k ds)

  pub data SameAll {V : Type 0} : Children V → Children V → Type 0 where
    same_nil : SameAll nil nil
    same_cons :
        {c d : Ast V} {cs ds : Children V}
        → Same c d
        → SameAll cs ds
        → SameAll (cons c cs) (cons d ds)

module _ (tk : Tokeniser) where
  -- It has parsed to a value of which `Q` holds, and stands at `rest`.
  pub data Gives {A : Type 0} (Q : A → Type 0) (rest : List Token) : Outcome A → Type 0 where
    gives : {a : A} {s : Parser} → Stands tk s rest → Q a → Gives Q rest (parsed a s)

  module _ {A : Type 0} {Q : A → Type 0} {rest : List Token} where
    pub Gives-bind :
        {B : Type 0} {R : B → Type 0} {ms : List Token} {o : Outcome A} {f : A → P B}
        → Gives Q ms o
        → ((a : A) (s : Parser) → Stands tk s ms → Q a → Gives R rest (f a s))
        → Gives R rest (bind o f)
    Gives-bind (gives {a} {s} w q) k = k a s w q

    pub Gives-failing_with :
        (r : ElementResult) {o : Outcome A} → Gives Q rest o → Gives Q rest (failing_with r o)
    Gives-failing_with r (gives w q) = gives w q

    pub Gives-current :
        {s : Parser} {t : Token} {ts : List Token} (f : Token → P A)
        → Stands tk s (t ∷ ts)
        → Gives Q rest (f t s)
        → Gives Q rest (bind (current tk s) f)
    Gives-current f w g = rw (current-Stands tk w) g

    pub Gives-if :
        (c : Bool) (x y : P A) {s : Parser}
        → c ≡ true
        → Gives Q rest (x s)
        → Gives Q rest ((if c then x else y) s)
    Gives-if c x y e g = rw e g

    pub Gives-else :
        (c : Bool) (x y : P A) {s : Parser}
        → c ≡ false
        → Gives Q rest (y s)
        → Gives Q rest ((if c then x else y) s)
    Gives-else c x y e g = rw e g

    pub Gives-test :
        (a b : TokenType) (x y : P A) {s : Parser}
        → a ≡ b
        → Gives Q rest (x s)
        → Gives Q rest ((if same_token a b then x else y) s)
    Gives-test a b x y {s} e g =
        Gives-if (same_token a b) x y (ap (λ z. same_token z b) e ∙ same_token_refl b) g

    pub Gives-otherwise :
        (a b : TokenType) (x y : P A) {s : Parser}
        → a ≢ b
        → Gives Q rest (y s)
        → Gives Q rest ((if same_token a b then x else y) s)
    Gives-otherwise a b x y n g = Gives-else (same_token a b) x y (same_token_differs a b n) g

  -- Over a token that is not the last.
  pub advance-Gives :
      {s : Parser} {t : Token} {ts : List Token}
      → Stands tk s (t ∷ ts)
      → t.type ≢ eof
      → Gives (λ _. Unit {0}) ts (advance tk s)
  unfolding advance
  advance-Gives {ts = []} w e = absurd (e (only_eof w.stream))
  advance-Gives {ts = u ∷ us} w e = rw (advance_result-more tk w) (gives (moved_to-Stands tk w) tt)

  pub advance_ok-Gives :
      {s : Parser} {t : Token} {ts : List Token}
      → Stands tk s (t ∷ ts)
      → t.type ≢ eof
      → Gives (λ b. b ≡ true) ts (advance_ok tk s)
  unfolding advance_ok
  advance_ok-Gives {ts = []} w e = absurd (e (only_eof w.stream))
  advance_ok-Gives {ts = u ∷ us} w e =
      rw (advance_result-more tk w) (gives (moved_to-Stands tk w) refl)

  -- Over a token that others follow.
  pub advance-Gives_more :
      {s : Parser} {t u : Token} {us : List Token}
      → Stands tk s (t ∷ u ∷ us)
      → Gives (λ _. Unit {0}) (u ∷ us) (advance tk s)
  unfolding advance
  advance-Gives_more w = rw (advance_result-more tk w) (gives (moved_to-Stands tk w) tt)
