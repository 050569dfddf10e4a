-- ===== src/Parser/LoopLaws.antt =====
-- The loops of libelement/src/ast/parser_internal.cpp, from the parser to the grammar.
use mathlib.Core.Path.{subst}
use element.Prelude.{ℕ, zero, suc, List, ◌∷◌, Option, ◌≡◌, ◌≢◌, ◌<◌, length, arith}
use element.Tokeniser.State.{comma, bracer, Token, Tokeniser}
use element.Parser.Ast.{Ast, Children, nil, cons}
use element.Parser.Outcome.{Parser, P}
use element.Parser.Stream.{Stands}
use element.Parser.Loops.{separated, until_bracer, after_part, block_parts}
use element.Parser.Ends.{
  Ends, ended, refused, Ends-bind, Ends-test, Ends-current, Ends-advance_ok, Ends-weaken,
  advance-Ends, Reads,
}
use element.Parser.Terminals.{Heads}
use element.Parser.Grammar.{Separator, closing, separating}

module _ (tk : Tokeniser) {V : Type 0} (stof : List ℕ → Option V) where
  after_part-Ends :
      {s : Parser} {t : Token} {ts : List Token}
      → Stands tk s (t ∷ ts)
      → Ends tk stof (λ _ rest. Separator (t ∷ ts) rest) (suc (length ts)) (after_part tk s)
  unfolding after_part
  after_part-Ends {s} {t} {ts} w = Ends-current tk stof _ w (
      Ends-test tk stof t.type bracer _ _ (λ e. ended w (omega arith) (closing e))
        λ e.
          Ends-test tk stof t.type comma _ _
            (λ f.
              Ends-weaken tk stof (omega arith)
                (λ _ rest p. subst (λ r. Separator (t ∷ ts) r) p (separating f))
                (advance-Ends tk stof w))
            (λ f. refused (λ q. cc)))

module _ (tk : Tokeniser) {V : Type 0} (stof : List ℕ → Option V)
    (X : List Token → List Token → Ast V → Type 0)
    (R : List Token → List Token → Children V → Type 0) {n : ℕ} where
  pub separated-Reads :
      (part : P (Ast V))
      → Reads tk stof X n part
      → ((t : Token) (ts rest : List Token) (c : Ast V)
          → X ts (t ∷ rest) c
          → t.type ≢ comma
          → R ts (t ∷ rest) (cons c nil))
      → ((t : Token) (ts ms rest : List Token) (c : Ast V) (cs : Children V)
          → X ts (t ∷ ms) c
          → t.type ≡ comma
          → R ms rest cs
          → R ts rest (cons c cs))
      → (m : ℕ) → (s : Parser) (t : Token) (ts : List Token) → Stands tk s (t ∷ ts)
      → length ts < n
      → length ts < m
      → Ends tk stof (λ a rest. R (t ∷ ts) rest a) (length ts) (separated tk part m s)
  unfolding separated
  separated-Reads part h one many zero s t ts w b l = absurd (omega arith)
  separated-Reads part h one many (suc m) s t ts w b l =
      Ends-bind tk stof (h s t ts w b) λ c s₁ u us w₁ l₁ x. Ends-current tk stof _ w₁ (
        Ends-bind tk stof {Q = λ cs rest. R (t ∷ ts) rest (cons c cs)}
          (Ends-test tk stof u.type comma _ _
            (λ e.
              Ends-advance_ok tk stof _ w₁ (λ f. cc)
                λ s₂ v vs w₂ l₂ p.
                  Ends-weaken tk stof (omega arith)
                    (λ cs rest r. many u (t ∷ ts) us rest c cs x e (rw p r))
                    (separated-Reads part h one many m s₂ v vs w₂ (omega arith) (omega arith)))
            (λ e. ended w₁ l₁ (one u (t ∷ ts) us c x e)))
          λ cs s₂ v vs w₂ l₂ r. ended w₂ l₂ r)

  pub until_bracer-Reads :
      (part : P (Ast V))
      → Reads tk stof X n part
      → ((t : Token) (ts : List Token) → t.type ≡ bracer → R (t ∷ ts) (t ∷ ts) nil)
      → ((t : Token) (ts ms rest : List Token) (c : Ast V) (cs : Children V)
          → t.type ≢ bracer
          → X (t ∷ ts) ms c
          → R ms rest cs
          → R (t ∷ ts) rest (cons c cs))
      → (m : ℕ) → (s : Parser) (t : Token) (ts : List Token) → Stands tk s (t ∷ ts)
      → length ts < n
      → length ts < m
      → Ends tk stof
          (λ a rest. R (t ∷ ts) rest a × Heads (λ u. u.type ≡ bracer) rest)
          (suc (length ts))
          (until_bracer tk part m s)
  unfolding until_bracer
  until_bracer-Reads part h closed opened zero s t ts w b l = absurd (omega arith)
  until_bracer-Reads part h closed opened (suc m) s t ts w b l = Ends-current tk stof _ w (
      Ends-test tk stof t.type bracer _ _ (λ e. ended w (omega arith) (closed t ts e, e))
        (λ e. Ends-bind tk stof (h s t ts w b) λ c s₁ u us w₁ l₁ x.
          Ends-bind tk stof
            (until_bracer-Reads part h closed opened m s₁ u us w₁ (omega arith) (omega arith))
            λ cs s₂ v vs w₂ l₂ (r, f).
              ended w₂ (omega arith) (opened t ts (u ∷ us) (v ∷ vs) c cs e x r, f)))

  pub block_parts-Reads :
      (part : P (Ast V))
      → Reads tk stof X n part
      → ((t : Token) (ts : List Token) → t.type ≡ bracer → R (t ∷ ts) (t ∷ ts) nil)
      → ((t : Token) (ts ms ns rest : List Token) (c : Ast V) (cs : Children V)
          → t.type ≢ bracer
          → X (t ∷ ts) ms c
          → Separator ms ns
          → R ns rest cs
          → R (t ∷ ts) rest (cons c cs))
      → (m : ℕ) → (s : Parser) (t : Token) (ts : List Token) → Stands tk s (t ∷ ts)
      → length ts < n
      → length ts < m
      → Ends tk stof
          (λ a rest. R (t ∷ ts) rest a × Heads (λ u. u.type ≡ bracer) rest)
          (suc (length ts))
          (block_parts tk part m s)
  unfolding block_parts
  block_parts-Reads part h closed opened zero s t ts w b l = absurd (omega arith)
  block_parts-Reads part h closed opened (suc m) s t ts w b l = Ends-current tk stof _ w (
      Ends-test tk stof t.type bracer _ _ (λ e. ended w (omega arith) (closed t ts e, e))
        (λ e. Ends-bind tk stof (h s t ts w b) λ c s₁ u us w₁ l₁ x.
          Ends-bind tk stof (after_part-Ends tk stof w₁) λ _ s₂ v vs w₂ l₂ d.
            Ends-bind tk stof
              (block_parts-Reads part h closed opened m s₂ v vs w₂ (omega arith) (omega arith))
              λ cs s₃ y ys w₃ l₃ (r, f).
                ended w₃ (omega arith) (opened t ts (u ∷ us) (v ∷ vs) (y ∷ ys) c cs e x d r, f)))
