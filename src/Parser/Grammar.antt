-- ===== src/Parser/Grammar.antt =====
-- The grammar of Element, as libelement/src/ast/parser_internal.cpp reads it. A phrase goes from what is left
-- before it to what is left after it, and has a tree.
use element.Prelude.{ℕ, List, [], ◌∷◌, Option, some, Bool, true, false, ◌&&◌, ◌≡◌, ◌≢◌}
use element.Result.{ok}
use element.Tokeniser.State.{
  TokenType, number, underscore, dot, bracketl, bracketr, colon, comma, bracel, bracer, equals, eof,
  Token, Tokeniser, text_of,
}
use element.Parser.Ast.{
  NodeType, no_node, function, struct, namespace, declaration, scope, constraint, exprlist,
  portlist, port, typename, call, lambda, literal, no_body, unspecified_type, unspecified_default,
  anonymous_block, Flags, no_flags, intrinsic_flag, empty_input_flag, value, flags, Ast, node,
  Children, nil, cons, bare, leaf, declaration_has_outputs, declaration_has_portlist,
}
use element.Parser.Words.{word, same_text, check_reserved_words}
use element.Parser.Declarations.{in_local_scope}

-- The brace that opens a scope may be missing.
pub data Opening : List Token → List Token → Type 0 where
  braced : {t : Token} {ts : List Token} → t.type ≡ bracel → Opening (t ∷ ts) ts
  unbraced : {t : Token} {ts : List Token} → t.type ≢ bracel → Opening (t ∷ ts) (t ∷ ts)

-- What stands after a part of an anonymous block.
pub data Separator : List Token → List Token → Type 0 where
  closing : {t : Token} {ts : List Token} → t.type ≡ bracer → Separator (t ∷ ts) (t ∷ ts)
  separating : {t : Token} {ts : List Token} → t.type ≡ comma → Separator (t ∷ ts) ts

module _ (tk : Tokeniser) {V : Type 0} (stof : List ℕ → Option V) where
  -- An identifier that is not reserved.
  pub data IsName (args names : Bool) (t : Token) : List ℕ → Type 0 where
    name :
        t.type ≡ TokenType.identifier
        → check_reserved_words (text_of tk t) args names ≡ ok
        → IsName args names t (text_of tk t)

  pub data IsPortName (t : Token) : List ℕ → Type 0 where
    named : {n : List ℕ} → IsName true false t n → IsPortName t n
    unnamed : t.type ≡ underscore → IsPortName t []

  -- The word `function` is skipped after `intrinsic`.
  pub data SkipsFunction (fl : Flags) (t : Token) (ts : List Token) : List Token → Type 0 where
    skipped :
        same_text (text_of tk t) (word "function") && fl.intrinsic ≡ true → SkipsFunction fl t ts ts
    kept :
        same_text (text_of tk t) (word "function") && fl.intrinsic ≡ false
        → SkipsFunction fl t ts (t ∷ ts)

  pub data Qualifiers : List Token → List Token → Flags → Type 0 where
    intrinsic :
        {t : Token} {ts : List Token}
        → t.type ≡ TokenType.identifier
        → same_text (text_of tk t) (word "intrinsic") ≡ true
        → Qualifiers (t ∷ ts) ts intrinsic_flag
    unqualified : {t : Token} {ts : List Token} → Qualifiers (t ∷ ts) (t ∷ ts) no_flags

  pub data HasPorts (fl : Flags) (d : Ast V) : Type 0 where
    excused : fl.intrinsic ≡ true → HasPorts fl d
    has_ports : declaration_has_portlist d ≡ some true → HasPorts fl d

  mutual
    pub data Expression : List Token → List Token → Ast V → Type 0 where
      called :
          {t : Token} {ts rest : List Token} {n : List ℕ} {k : Option ℕ} {ls : Children V}
          → IsName false false t n
          → Links ts rest ls
          → Expression (t ∷ ts) rest (node call n (flags no_flags) k ls)
      numeral :
          {t : Token} {ts rest : List Token} {v : V} {k : Option ℕ} {ls : Children V}
          → t.type ≡ number
          → stof (text_of tk t) ≡ some v
          → Links ts rest ls
          → Expression (t ∷ ts) rest (node literal [] (value v) k ls)
      abstracted :
          {t u v : Token} {ts rs bs rest : List Token} {k : Option ℕ} {ps r b : Ast V}
          → t.type ≡ underscore
          → u.type ≡ bracketl
          → Portlist ts (v ∷ rs) ps
          → v.type ≡ bracketr
          → Returns rs bs r
          → Body lambda bs rest b
          → Expression (t ∷ u ∷ ts) rest (bare lambda k (cons ps (cons r (cons b nil))))
      block :
          {t u v : Token} {ts rest : List Token} {k : Option ℕ} {is : Children V}
          → t.type ≡ bracel
          → u.type ≢ bracer
          → Parts (u ∷ ts) (v ∷ rest) is
          → v.type ≡ bracer
          → Expression (t ∷ u ∷ ts) rest (bare anonymous_block k is)

    -- What a call or a literal is the start of.
    pub data Links : List Token → List Token → Children V → Type 0 where
      stop :
          {t : Token} {ts : List Token}
          → t.type ≢ bracketl
          → t.type ≢ dot
          → Links (t ∷ ts) (t ∷ ts) nil
      arguments :
          {ts ms rest : List Token} {e : Ast V} {ls : Children V}
          → Exprlist ts ms e
          → Links ms rest ls
          → Links ts rest (cons e ls)
      member :
          {t u : Token} {ts rest : List Token} {n : List ℕ} {k : Option ℕ} {ls : Children V}
          → t.type ≡ dot
          → IsName false false u n
          → Links ts rest ls
          → Links (t ∷ u ∷ ts) rest (cons (node call n (flags no_flags) k nil) ls)

    pub data Exprlist : List Token → List Token → Ast V → Type 0 where
      passed :
          {t u v : Token} {ts rest : List Token} {k : Option ℕ} {es : Children V}
          → t.type ≡ bracketl
          → u.type ≢ bracketr
          → Expressions (u ∷ ts) (v ∷ rest) es
          → v.type ≡ bracketr
          → Exprlist (t ∷ u ∷ ts) rest (bare exprlist k es)

    -- One or more, with commas between them.
    pub data Expressions : List Token → List Token → Children V → Type 0 where
      one :
          {t : Token} {ts rest : List Token} {e : Ast V}
          → Expression ts (t ∷ rest) e
          → t.type ≢ comma
          → Expressions ts (t ∷ rest) (cons e nil)
      many :
          {t : Token} {ts ms rest : List Token} {e : Ast V} {es : Children V}
          → Expression ts (t ∷ ms) e
          → t.type ≡ comma
          → Expressions ms rest es
          → Expressions ts rest (cons e es)

    pub data Portlist : List Token → List Token → Ast V → Type 0 where
      portlisted :
          {ts rest : List Token} {k : Option ℕ} {ps : Children V}
          → Ports ts rest ps
          → Portlist ts rest (bare portlist k ps)

    pub data Ports : List Token → List Token → Children V → Type 0 where
      one_port :
          {t : Token} {ts rest : List Token} {p : Ast V}
          → Port ts (t ∷ rest) p
          → t.type ≢ comma
          → Ports ts (t ∷ rest) (cons p nil)
      more_ports :
          {t : Token} {ts ms rest : List Token} {p : Ast V} {ps : Children V}
          → Port ts (t ∷ ms) p
          → t.type ≡ comma
          → Ports ms rest ps
          → Ports ts rest (cons p ps)

    pub data Port : List Token → List Token → Ast V → Type 0 where
      ported :
          {t : Token} {ts ms rest : List Token} {n : List ℕ} {k : Option ℕ} {r d : Ast V}
          → IsPortName t n
          → Returns ts ms r
          → Defaults ms rest d
          → Port (t ∷ ts) rest (node port n (flags no_flags) k (cons r (cons d nil)))

    pub data Returns : List Token → List Token → Ast V → Type 0 where
      typed :
          {t : Token} {ts rest : List Token} {k : Option ℕ} {e : Ast V}
          → t.type ≡ colon
          → Expression ts rest e
          → Returns (t ∷ ts) rest (bare typename k (cons e nil))
      untyped :
          {t : Token} {ts : List Token} {k : Option ℕ}
          → t.type ≢ colon
          → Returns (t ∷ ts) (t ∷ ts) (leaf unspecified_type k)

    pub data Defaults : List Token → List Token → Ast V → Type 0 where
      given :
          {t : Token} {ts rest : List Token} {e : Ast V}
          → t.type ≡ equals
          → Expression ts rest e
          → Defaults (t ∷ ts) rest e
      left_out :
          {t : Token} {ts : List Token} {k : Option ℕ}
          → t.type ≢ equals
          → Defaults (t ∷ ts) (t ∷ ts) (leaf unspecified_default k)

    -- The body of a function or a lambda.
    pub data Body : NodeType → List Token → List Token → Ast V → Type 0 where
      scoped :
          {parent : NodeType} {t : Token} {ts rest : List Token} {b : Ast V}
          → t.type ≡ bracel
          → Scope parent (t ∷ ts) rest b
          → Body parent (t ∷ ts) rest b
      expressed :
          {parent : NodeType} {t : Token} {ts rest : List Token} {e : Ast V}
          → t.type ≡ equals
          → Expression ts rest e
          → Body parent (t ∷ ts) rest e

    pub data Scope : NodeType → List Token → List Token → Ast V → Type 0 where
      enclosed :
          {parent : NodeType} {u : Token} {ts ms rest : List Token} {k : Option ℕ} {is : Children V}
          → Opening ts ms
          → Items (in_local_scope scope parent) ms (u ∷ rest) is
          → u.type ≡ bracer
          → Scope parent ts rest (bare scope k is)

    -- Up to a brace that closes them.
    pub data Items : Bool → List Token → List Token → Children V → Type 0 where
      closed :
          {local : Bool} {t : Token} {ts : List Token}
          → t.type ≡ bracer
          → Items local (t ∷ ts) (t ∷ ts) nil
      opened :
          {local : Bool} {t : Token} {ts ms rest : List Token} {i : Ast V} {is : Children V}
          → t.type ≢ bracer
          → Item local (t ∷ ts) ms i
          → Items local ms rest is
          → Items local (t ∷ ts) rest (cons i is)

    -- The parts of an anonymous block, with commas between them, and perhaps one after them.
    pub data Parts : List Token → List Token → Children V → Type 0 where
      no_part : {t : Token} {ts : List Token} → t.type ≡ bracer → Parts (t ∷ ts) (t ∷ ts) nil
      next_part :
          {t : Token} {ts ms ns rest : List Token} {i : Ast V} {is : Children V}
          → t.type ≢ bracer
          → Item false (t ∷ ts) ms i
          → Separator ms ns
          → Parts ns rest is
          → Parts (t ∷ ts) rest (cons i is)

    pub data Inputs : List Token → List Token → Ast V → Type 0 where
      listed :
          {t u : Token} {ts rest : List Token} {ps : Ast V}
          → t.type ≡ bracketl
          → Portlist ts (u ∷ rest) ps
          → u.type ≡ bracketr
          → Inputs (t ∷ ts) rest ps
      unlisted :
          {t : Token} {ts : List Token} {k : Option ℕ}
          → t.type ≢ bracketl
          → Inputs (t ∷ ts) (t ∷ ts) (node no_node [] (flags empty_input_flag) k nil)

    -- `local` is whether `return` may be declared.
    pub data Declaration : Flags → Bool → List Token → List Token → Ast V → Type 0 where
      declared :
          {fl : Flags} {local : Bool} {t : Token} {ts ms rest : List Token} {n : List ℕ}
          {k : Option ℕ} {is o : Ast V}
          → IsName false local t n
          → Inputs ts ms is
          → Returns ms rest o
          → Declaration fl local
              (t ∷ ts)
              rest
              (node declaration n (flags fl) k (cons is (cons o nil)))

    -- A function without a body is intrinsic.
    pub data FunctionBody : Flags → List Token → List Token → Ast V → Type 0 where
      bodied :
          {fl : Flags} {ts rest : List Token} {b : Ast V}
          → Body function ts rest b
          → FunctionBody fl ts rest b
      bodiless :
          {fl : Flags} {t : Token} {ts : List Token} {k : Option ℕ}
          → t.type ≢ bracel
          → t.type ≢ equals
          → fl.intrinsic ≡ true
          → FunctionBody fl (t ∷ ts) (t ∷ ts) (leaf no_body k)

    pub data StructBody : List Token → List Token → Ast V → Type 0 where
      with_scope :
          {t : Token} {ts rest : List Token} {b : Ast V}
          → t.type ≡ bracel
          → Scope struct (t ∷ ts) rest b
          → StructBody (t ∷ ts) rest b
      without_scope :
          {t : Token} {ts : List Token} {k : Option ℕ}
          → t.type ≢ bracel
          → StructBody (t ∷ ts) (t ∷ ts) (leaf no_body k)

    -- A struct or a constraint that is not intrinsic has ports, and a struct has no return type.
    pub data Item : Bool → List Token → List Token → Ast V → Type 0 where
      namespaced :
          {local : Bool} {t u : Token} {ts rest : List Token} {n : List ℕ} {k : Option ℕ}
          {b : Ast V}
          → same_text (text_of tk t) (word "namespace") ≡ true
          → IsName false false u n
          → Scope namespace ts rest b
          → Item local (t ∷ u ∷ ts) rest (node namespace n (flags no_flags) k (cons b nil))
      structured :
          {local : Bool} {t : Token} {ts ms bs rest : List Token} {fl : Flags} {k : Option ℕ}
          {d b : Ast V}
          → Qualifiers ts (t ∷ ms) fl
          → same_text (text_of tk t) (word "struct") ≡ true
          → Declaration fl false ms bs d
          → HasPorts fl d
          → declaration_has_outputs d ≡ some false
          → StructBody bs rest b
          → Item local ts rest (bare struct k (cons d (cons b nil)))
      constrained :
          {local : Bool} {t u : Token} {ts ms rest : List Token} {fl : Flags} {j k : Option ℕ}
          {d : Ast V}
          → Qualifiers ts (t ∷ ms) fl
          → same_text (text_of tk t) (word "constraint") ≡ true
          → Declaration fl false ms (u ∷ rest) d
          → HasPorts fl d
          → u.type ≢ bracel
          → Item local ts (u ∷ rest) (bare constraint k (cons d (cons (leaf no_body j) nil)))
      defined :
          {local : Bool} {t : Token} {ts ms ds bs rest : List Token} {fl : Flags} {k : Option ℕ}
          {d b : Ast V}
          → Qualifiers ts (t ∷ ms) fl
          → SkipsFunction fl t ms ds
          → Declaration fl local ds bs d
          → FunctionBody fl bs rest b
          → Item local ts rest (bare function k (cons d (cons b nil)))

  -- A source: items up to its end.
  pub data Source : List Token → Children V → Type 0 where
    finished : {t : Token} → t.type ≡ eof → Source (t ∷ []) nil
    unfinished :
        {t : Token} {ts ms : List Token} {i : Ast V} {is : Children V}
        → t.type ≢ eof
        → Item false (t ∷ ts) ms i
        → Source ms is
        → Source (t ∷ ts) (cons i is)
