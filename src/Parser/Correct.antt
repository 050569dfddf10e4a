-- ===== src/Parser/Correct.antt =====
-- `ast_build` of libelement/src/ast/parser_internal.cpp, from the parser to the grammar.
use element.Prelude.{ℕ, List, Option, none, some, ◌≡◌, ◌≢◌, get_elem?}
use element.Result.{ElementResult, ok}
use element.Tokeniser.State.{number, Token, Tokeniser, text_of}
use element.Parser.Ast.{Ast}
use element.Parser.Outcome.{Parser, Outcome, parsed, failed, thrown}
use element.Parser.Ends.{Ends}
use element.Parser.BuildLaws.{IsTree}
use element.Parser.Valid.{IsValid}

module _ (tk : Tokeniser) {V : Type 0} (stof : List ℕ → Option V) where
  -- There is the tree of the tokens, by the grammar, and it is valid; or there is an error; or the text of a
  -- number is too much for `std::stof`.
  pub data Builds : Outcome (Ast V) → Type 0 where
    built : {a : Ast V} {s : Parser} → IsTree tk stof a → IsValid a → Builds (parsed a s)
    rejected : {r : ElementResult} → r ≢ ok → Builds (failed r)
    raised :
        (k : ℕ) {t : Token}
        → get_elem? tk.tokens k ≡ some t
        → t.type ≡ number
        → stof (text_of tk t) ≡ none
        → Builds thrown
