-- ===== src/Parser/Lengths.antt =====
-- How many tokens a phrase leaves, by the grammar of libelement/src/ast/parser_internal.cpp.
use element.Prelude.{ℕ, suc, List, Option, Bool, ◌<◌, ◌≤◌, length, arith}
use element.Tokeniser.State.{Token, Tokeniser}
use element.Parser.Ast.{NodeType, Flags, Ast, Children}
use element.Parser.Grammar.{
  Separator, closing, separating, Opening, braced, unbraced, SkipsFunction, skipped, kept,
  Qualifiers, intrinsic, unqualified, Expression, called, numeral, abstracted, block, Links, stop,
  arguments, member, Exprlist, passed, Expressions, one, many, Portlist, portlisted, Ports,
  one_port, more_ports, Port, ported, Returns, typed, untyped, Defaults, given, left_out, Body,
  scoped, expressed, Scope, enclosed, Items, closed, opened, Parts, no_part, next_part, Inputs,
  listed, unlisted, Declaration, declared, FunctionBody, bodied, bodiless, StructBody, with_scope,
  without_scope, Item, namespaced, structured, constrained, defined,
}

module _ (tk : Tokeniser) {V : Type 0} (stof : List ℕ → Option V) where
  pub Separator-length : {ts rest : List Token} → Separator ts rest → length rest ≤ length ts
  Separator-length (closing e) = omega arith
  Separator-length (separating e) = omega arith

  pub Opening-length : {ts rest : List Token} → Opening ts rest → length rest ≤ length ts
  Opening-length (braced e) = omega arith
  Opening-length (unbraced e) = omega arith

  pub SkipsFunction-length :
      {fl : Flags} {t : Token} {ts rest : List Token}
      → SkipsFunction tk stof fl t ts rest
      → length rest ≤ suc (length ts)
  SkipsFunction-length (skipped e) = omega arith
  SkipsFunction-length (kept e) = omega arith

  pub Qualifiers-length :
      {ts rest : List Token} {fl : Flags} → Qualifiers tk stof ts rest fl → length rest ≤ length ts
  Qualifiers-length (intrinsic e f) = omega arith
  Qualifiers-length unqualified = omega arith

  mutual
    pub Expression-length :
        {ts rest : List Token} {a : Ast V} → Expression tk stof ts rest a → length rest < length ts
    Expression-length (called x ls) = omega (arith, Links-length ls)
    Expression-length (numeral e f ls) = omega (arith, Links-length ls)
    Expression-length (abstracted e f ps g r c) =
        omega (arith, Portlist-length ps, Returns-length r, Body-length c)
    Expression-length (block e f is g) = omega (arith, Parts-length is)

    pub Links-length :
        {ts rest : List Token} {cs : Children V}
        → Links tk stof ts rest cs
        → length rest ≤ length ts
    Links-length (stop e f) = omega arith
    Links-length (arguments e ls) = omega (arith, Exprlist-length e, Links-length ls)
    Links-length (member e x ls) = omega (arith, Links-length ls)

    pub Exprlist-length :
        {ts rest : List Token} {a : Ast V} → Exprlist tk stof ts rest a → length rest < length ts
    Exprlist-length (passed e f es g) = omega (arith, Expressions-length es)

    pub Expressions-length :
        {ts rest : List Token} {cs : Children V}
        → Expressions tk stof ts rest cs
        → length rest < length ts
    Expressions-length (one e f) = omega (arith, Expression-length e)
    Expressions-length (many e f es) = omega (arith, Expression-length e, Expressions-length es)

    pub Portlist-length :
        {ts rest : List Token} {a : Ast V} → Portlist tk stof ts rest a → length rest < length ts
    Portlist-length (portlisted ps) = omega (arith, Ports-length ps)

    pub Ports-length :
        {ts rest : List Token} {cs : Children V}
        → Ports tk stof ts rest cs
        → length rest < length ts
    Ports-length (one_port p e) = omega (arith, Port-length p)
    Ports-length (more_ports p e ps) = omega (arith, Port-length p, Ports-length ps)

    pub Port-length :
        {ts rest : List Token} {a : Ast V} → Port tk stof ts rest a → length rest < length ts
    Port-length (ported x r d) = omega (arith, Returns-length r, Defaults-length d)

    pub Returns-length :
        {ts rest : List Token} {a : Ast V} → Returns tk stof ts rest a → length rest ≤ length ts
    Returns-length (typed e x) = omega (arith, Expression-length x)
    Returns-length (untyped e) = omega arith

    pub Defaults-length :
        {ts rest : List Token} {a : Ast V} → Defaults tk stof ts rest a → length rest ≤ length ts
    Defaults-length (given e x) = omega (arith, Expression-length x)
    Defaults-length (left_out e) = omega arith

    pub Body-length :
        {p : NodeType} {ts rest : List Token} {a : Ast V}
        → Body tk stof p ts rest a
        → length rest < length ts
    Body-length (scoped e b) = omega (arith, Scope-length b)
    Body-length (expressed e x) = omega (arith, Expression-length x)

    pub Scope-length :
        {p : NodeType} {ts rest : List Token} {a : Ast V}
        → Scope tk stof p ts rest a
        → length rest < length ts
    Scope-length (enclosed o is e) = omega (arith, Opening-length o, Items-length is)

    pub Items-length :
        {local : Bool} {ts rest : List Token} {cs : Children V}
        → Items tk stof local ts rest cs
        → length rest ≤ length ts
    Items-length (closed e) = omega arith
    Items-length (opened e i is) = omega (arith, Item-length i, Items-length is)

    pub Parts-length :
        {ts rest : List Token} {cs : Children V}
        → Parts tk stof ts rest cs
        → length rest ≤ length ts
    Parts-length (no_part e) = omega arith
    Parts-length (next_part e i d is) =
        omega (arith, Item-length i, Separator-length d, Parts-length is)

    pub Inputs-length :
        {ts rest : List Token} {a : Ast V} → Inputs tk stof ts rest a → length rest ≤ length ts
    Inputs-length (listed e ps f) = omega (arith, Portlist-length ps)
    Inputs-length (unlisted e) = omega arith

    pub Declaration-length :
        {fl : Flags} {local : Bool} {ts rest : List Token} {a : Ast V}
        → Declaration tk stof fl local ts rest a
        → length rest < length ts
    Declaration-length (declared x i o) = omega (arith, Inputs-length i, Returns-length o)

    pub FunctionBody-length :
        {fl : Flags} {ts rest : List Token} {a : Ast V}
        → FunctionBody tk stof fl ts rest a
        → length rest ≤ length ts
    FunctionBody-length (bodied b) = omega (arith, Body-length b)
    FunctionBody-length (bodiless e f g) = omega arith

    pub StructBody-length :
        {ts rest : List Token} {a : Ast V} → StructBody tk stof ts rest a → length rest ≤ length ts
    StructBody-length (with_scope e b) = omega (arith, Scope-length b)
    StructBody-length (without_scope e) = omega arith

    pub Item-length :
        {local : Bool} {ts rest : List Token} {a : Ast V}
        → Item tk stof local ts rest a
        → length rest < length ts
    Item-length (namespaced e x b) = omega (arith, Scope-length b)
    Item-length (structured y e d h o b) =
        omega (arith, Qualifiers-length y, Declaration-length d, StructBody-length b)
    Item-length (constrained y e d h f) = omega (arith, Qualifiers-length y, Declaration-length d)
    Item-length (defined y k d b) = omega (
      arith,
      Qualifiers-length y,
      SkipsFunction-length k,
      Declaration-length d,
      FunctionBody-length b,
    )
