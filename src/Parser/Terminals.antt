-- ===== src/Parser/Terminals.antt =====
-- The terminals of libelement/src/ast/parser_internal.cpp, from the parser to the grammar.
use element.Prelude.{ℕ, List, [], ◌∷◌, Option, none, some, Bool, ◌≡◌, refl, ◌≢◌, ◌<◌, length}
use element.Result.{ElementResult, ok}
use element.Tokeniser.State.{TokenType, number, Token, Tokeniser, text_of}
use element.Parser.Outcome.{Parser, bind, pure, ◌>>◌}
use element.Parser.Words.{check_reserved_words}
use element.Parser.Steps.{
  advance, advance_then_check, advance_then_check_not, parse_identifier, parse_literal,
  finish_identifier, convert,
}
use element.Parser.Stream.{Stands, token-Stands}
use element.Parser.Ends.{
  Ends, refused, threw, Ends-test, Ends-current, advance-Ends, Ends-bind, ended,
}
use element.Parser.Grammar.{IsName, name}

-- A statement about the first token.
abbrev pub Heads : (Token → Type 0) → List Token → Type 0
Heads X [] = Unit
Heads X (t ∷ ts) = X t

module _ (tk : Tokeniser) {V : Type 0} (stof : List ℕ → Option V) where
  pub advance_then_check-Ends :
      (type : TokenType) (r : ElementResult) {s : Parser} {t : Token} {ts : List Token}
      → Stands tk s (t ∷ ts)
      → r ≢ ok
      → Ends tk stof
          (λ _ rest. (ts ≡ rest) × Heads (λ u. u.type ≡ type) rest)
          (length ts)
          (advance_then_check tk type r s)
  unfolding advance_then_check
  advance_then_check-Ends type r h e =
      Ends-bind tk stof (advance-Ends tk stof h) λ _ s' u us h' l p.
        Ends-current tk stof _ h'
          (Ends-test tk stof u.type type _ _ (λ q. ended h' l (p, q)) (λ q. refused e))

  pub advance_then_check_not-Ends :
      (type : TokenType) (r : ElementResult) {s : Parser} {t : Token} {ts : List Token}
      → Stands tk s (t ∷ ts)
      → r ≢ ok
      → Ends tk stof
          (λ _ rest. (ts ≡ rest) × Heads (λ u. u.type ≢ type) rest)
          (length ts)
          (advance_then_check_not tk type r s)
  unfolding advance_then_check_not
  advance_then_check_not-Ends type r h e =
      Ends-bind tk stof (advance-Ends tk stof h) λ _ s' u us h' l p.
        Ends-current tk stof _ h'
          (Ends-test tk stof u.type type _ _ (λ q. refused e) (λ q. ended h' l (p, q)))

  finish-Ends :
      (args names : Bool) {s : Parser} {t u : Token} {ts us : List Token}
      → t.type ≡ TokenType.identifier
      → (r : ElementResult) → check_reserved_words (text_of tk t) args names ≡ r
      → Stands tk s (u ∷ us)
      → length us < length ts
      → ts ≡ u ∷ us
      → Ends tk stof
          (λ n rest. (ts ≡ rest) × IsName tk stof args names t n)
          (length ts)
          (finish_identifier tk (text_of tk t) r s)
  finish-Ends args names q ok e h l p = ended h l (p, name q e)
  finish-Ends args names q _ e h l p = refused (λ e'. cc)

  pub parse_identifier-Ends :
      (args names : Bool) {s : Parser} {t : Token} {ts : List Token}
      → Stands tk s (t ∷ ts)
      → Ends tk stof
          (λ n rest. (ts ≡ rest) × IsName tk stof args names t n)
          (length ts)
          (parse_identifier tk args names s)
  unfolding parse_identifier
  parse_identifier-Ends args names {t = t} h = Ends-current tk stof _ h (
      Ends-test tk stof t.type TokenType.identifier _ _
        (λ q. Ends-bind tk stof (advance-Ends tk stof h) λ _ s' u us h' l p.
          finish-Ends args names q (check_reserved_words (text_of tk t) args names) refl h' l p)
        (λ q. refused (λ e. cc)))

  convert-Ends :
      (o : Option V) {s : Parser} {t : Token} {ts : List Token}
      → stof (text_of tk t) ≡ o
      → Stands tk s (t ∷ ts)
      → t.type ≡ number
      → Ends tk stof
          (λ v rest. (ts ≡ rest) × (stof (text_of tk t) ≡ some v))
          (length ts)
          (bind (convert tk stof o s) (λ v. advance tk >> pure v))
  convert-Ends none {s} e h q = threw s.token_index (token-Stands tk h) q e
  convert-Ends (some v) e h q =
      Ends-bind tk stof (advance-Ends tk stof h) λ _ s' u us h' l p. ended h' l (p, e)

  pub parse_literal-Ends :
      {s : Parser} {t : Token} {ts : List Token}
      → Stands tk s (t ∷ ts)
      → t.type ≡ number
      → Ends tk stof
          (λ v rest. (ts ≡ rest) × (stof (text_of tk t) ≡ some v))
          (length ts)
          (parse_literal tk stof s)
  unfolding parse_literal
  parse_literal-Ends {s} {t} h e = Ends-current tk stof _ h (
      Ends-test tk stof t.type number _ _ (λ q. convert-Ends (stof (text_of tk t)) refl h q)
        (λ q. absurd (q e)))
