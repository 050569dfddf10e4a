-- ===== src/Parser/Checkable.antt =====
-- The assertions of the validation (libelement/src/ast/parser_internal.cpp), on trees of the
-- grammar.
use element.Prelude.{ℕ, List, [], ◌∷◌, Option, some, Bool, true, false, ◌≡◌, refl, if◌then◌else◌}
use element.Result.{ElementResult, ok, multiple_definitions}
use element.Tokeniser.State.{Token, Tokeniser}
use element.Parser.Ast.{
  NodeType, function, declaration, scope, same_node, Flags, Ast, Children, nil, cons, node_type,
  node_identifier, children, child_at,
}
use element.Parser.Validate.{
  both, and_then, contains_name, is_declaration_or_scope, validate_type, validate_portlist,
  struct_child, struct_children, struct_body, validate_struct, validate_scope, validate,
  validate_all,
}
use element.Parser.Grammar.{
  Expression, called, numeral, abstracted, block, Links, stop, arguments, member, Exprlist, passed,
  Expressions, one, many, Portlist, portlisted, Ports, one_port, more_ports, Port, ported, Returns,
  typed, untyped, Defaults, given, left_out, Body, scoped, expressed, Scope, enclosed, Items,
  closed, opened, Parts, no_part, next_part, Inputs, listed, unlisted, Declaration, declared,
  FunctionBody, bodied, bodiless, StructBody, with_scope, without_scope, Item, namespaced,
  structured, constrained, defined, Source, finished, unfinished,
}
use element.Parser.BuildLaws.{IsTree, tree}

-- No assertion has failed.
pub data Checked : Option ElementResult → Type 0 where
  checked : {r : ElementResult} → Checked (some r)

fine : Checked (some ok)
fine = checked

both-Checked : {a b : Option ElementResult} → Checked a → Checked b → Checked (both a b)
both-Checked checked checked = checked

and_then-some :
    (r : ElementResult) {b : Option ElementResult} → Checked b → Checked (and_then (some r) b)
and_then-some ok h = h
and_then-some _ h = checked

and_then-Checked : {a b : Option ElementResult} → Checked a → Checked b → Checked (and_then a b)
and_then-Checked (checked {r}) h = and_then-some r h

if-Checked :
    (c : Bool) {a b : Option ElementResult} → Checked a → Checked b → Checked (if c then a else b)
if-Checked true h k = h
if-Checked false h k = k

module _ {V : Type 0} where
  -- The first child, where there is one of a type that the assertions expect.
  pub data HasName : Ast V → Type 0 where
    named :
        {i d : Ast V}
        → child_at (children i) 0 ≡ some d
        → is_declaration_or_scope (node_type d) ≡ true
        → HasName i

  pub data Named : Children V → Type 0 where
    none_left : Named nil
    one_left : {c : Ast V} {cs : Children V} → HasName c → Named cs → Named (cons c cs)

  struct_child-Checked :
      (name : List ℕ) {i : Ast V}
      → HasName i
      → Checked (struct_child name (child_at (children i) 0))
  struct_child-Checked name (named e f) = rw (e, f) checked

  struct_children-Checked :
      (name : List ℕ) {cs : Children V} → Named cs → Checked (struct_children name cs)
  unfolding struct_children
  struct_children-Checked name none_left = checked
  struct_children-Checked name (one_left h hs) =
      both-Checked (struct_child-Checked name h) (struct_children-Checked name hs)

  validate_scope-Checked :
      {cs : Children V} → Named cs → (names : List (List ℕ)) → Checked (validate_scope names cs)
  unfolding validate_scope
  validate_scope-Checked none_left names = checked
  validate_scope-Checked (one_left {c} {cs} (named {d = d} e f) hs) names =
      if-Checked (same_node (node_type c) function)
        (rw e (
          if-Checked (contains_name (node_identifier d) names)
            (both-Checked (checked {r = multiple_definitions}) (validate_scope-Checked hs names))
            (validate_scope-Checked hs (node_identifier d ∷ names))))
        (validate_scope-Checked hs names)

module _ (tk : Tokeniser) {V : Type 0} (stof : List ℕ → Option V) where
  type-Declaration :
      {fl : Flags} {local : Bool} {ts rest : List Token} {d : Ast V}
      → Declaration tk stof fl local ts rest d
      → node_type d ≡ declaration
  type-Declaration (declared x i o) = refl

  type-Scope :
      {p : NodeType} {ts rest : List Token} {b : Ast V}
      → Scope tk stof p ts rest b
      → node_type b ≡ scope
  type-Scope (enclosed o is e) = refl

  Item-HasName :
      {local : Bool} {ts rest : List Token} {i : Ast V} → Item tk stof local ts rest i → HasName i
  Item-HasName (namespaced e x b) = named refl (rw (type-Scope b))
  Item-HasName (structured y e d h o b) = named refl (rw (type-Declaration d))
  Item-HasName (constrained y e d h f) = named refl (rw (type-Declaration d))
  Item-HasName (defined y k d b) = named refl (rw (type-Declaration d))

  Items-Named :
      {local : Bool} {ts rest : List Token} {is : Children V}
      → Items tk stof local ts rest is
      → Named is
  Items-Named (closed e) = none_left
  Items-Named (opened e i is) = one_left (Item-HasName i) (Items-Named is)

  Source-Named : {ts : List Token} {is : Children V} → Source tk stof ts is → Named is
  Source-Named (finished e) = none_left
  Source-Named (unfinished e i is) = one_left (Item-HasName i) (Source-Named is)

  struct_body-Checked :
      (name : List ℕ) {ts rest : List Token} {b : Ast V}
      → StructBody tk stof ts rest b
      → Checked (struct_body name b)
  struct_body-Checked name (with_scope e (enclosed o is f)) =
      struct_children-Checked name (Items-Named is)
  struct_body-Checked name (without_scope e) = checked

  validate_struct-Checked :
      {fl : Flags} {local : Bool} {ts ms rest : List Token} {d b : Ast V}
      → Declaration tk stof fl local ts ms d
      → StructBody tk stof ms rest b
      → Checked (validate_struct (cons d (cons b nil)))
  unfolding validate_struct
  validate_struct-Checked {d = d} x b =
      rw (type-Declaration x) (struct_body-Checked (node_identifier d) b)

  mutual
    unfolding validate validate_type

    Expression-Checked :
        {ts rest : List Token} {a : Ast V} → Expression tk stof ts rest a → Checked (validate a)
    Expression-Checked (called x ls) = (Links-Checked ls)
    Expression-Checked (numeral e f ls) = (Links-Checked ls)
    Expression-Checked (abstracted e f ps g r c) =
        (both-Checked (Portlist-Checked ps)
          (both-Checked (Returns-Checked r) (both-Checked (Body-Checked c) fine)))
    Expression-Checked (block e f is g) = (Parts-Checked is)

    Links-Checked :
        {ts rest : List Token} {cs : Children V}
        → Links tk stof ts rest cs
        → Checked (validate_all cs)
    Links-Checked (stop e f) = fine
    Links-Checked (arguments e ls) = both-Checked (Exprlist-Checked e) (Links-Checked ls)
    Links-Checked (member e x ls) = both-Checked fine (Links-Checked ls)

    Exprlist-Checked :
        {ts rest : List Token} {a : Ast V} → Exprlist tk stof ts rest a → Checked (validate a)
    Exprlist-Checked (passed e f es g) = (Expressions-Checked es)

    Expressions-Checked :
        {ts rest : List Token} {cs : Children V}
        → Expressions tk stof ts rest cs
        → Checked (validate_all cs)
    Expressions-Checked (one e f) = both-Checked (Expression-Checked e) fine
    Expressions-Checked (many e f es) = both-Checked (Expression-Checked e) (Expressions-Checked es)

    Portlist-Checked :
        {ts rest : List Token} {a : Ast V} → Portlist tk stof ts rest a → Checked (validate a)
    Portlist-Checked (portlisted {ps = cs} ps) =
        and_then-some (validate_portlist cs) (Ports-Checked ps)

    Ports-Checked :
        {ts rest : List Token} {cs : Children V}
        → Ports tk stof ts rest cs
        → Checked (validate_all cs)
    Ports-Checked (one_port p e) = both-Checked (Port-Checked p) fine
    Ports-Checked (more_ports p e ps) = both-Checked (Port-Checked p) (Ports-Checked ps)

    Port-Checked :
        {ts rest : List Token} {a : Ast V} → Port tk stof ts rest a → Checked (validate a)
    Port-Checked (ported x r d) =
        (both-Checked (Returns-Checked r) (both-Checked (Defaults-Checked d) fine))

    Returns-Checked :
        {ts rest : List Token} {a : Ast V} → Returns tk stof ts rest a → Checked (validate a)
    Returns-Checked (typed e x) = (both-Checked (Expression-Checked x) fine)
    Returns-Checked (untyped e) = fine

    Defaults-Checked :
        {ts rest : List Token} {a : Ast V} → Defaults tk stof ts rest a → Checked (validate a)
    Defaults-Checked (given e x) = Expression-Checked x
    Defaults-Checked (left_out e) = fine

    Body-Checked :
        {p : NodeType} {ts rest : List Token} {a : Ast V}
        → Body tk stof p ts rest a
        → Checked (validate a)
    Body-Checked (scoped e b) = Scope-Checked b
    Body-Checked (expressed e x) = Expression-Checked x

    Scope-Checked :
        {p : NodeType} {ts rest : List Token} {a : Ast V}
        → Scope tk stof p ts rest a
        → Checked (validate a)
    Scope-Checked (enclosed o is e) =
        and_then-Checked (validate_scope-Checked (Items-Named is) []) (Items-Checked is)

    Items-Checked :
        {local : Bool} {ts rest : List Token} {cs : Children V}
        → Items tk stof local ts rest cs
        → Checked (validate_all cs)
    Items-Checked (closed e) = fine
    Items-Checked (opened e i is) = both-Checked (Item-Checked i) (Items-Checked is)

    Parts-Checked :
        {ts rest : List Token} {cs : Children V}
        → Parts tk stof ts rest cs
        → Checked (validate_all cs)
    Parts-Checked (no_part e) = fine
    Parts-Checked (next_part e i d is) = both-Checked (Item-Checked i) (Parts-Checked is)

    Inputs-Checked :
        {ts rest : List Token} {a : Ast V} → Inputs tk stof ts rest a → Checked (validate a)
    Inputs-Checked (listed e ps f) = Portlist-Checked ps
    Inputs-Checked (unlisted e) = fine

    Declaration-Checked :
        {fl : Flags} {local : Bool} {ts rest : List Token} {a : Ast V}
        → Declaration tk stof fl local ts rest a
        → Checked (validate a)
    Declaration-Checked (declared x i o) =
        (both-Checked (Inputs-Checked i) (both-Checked (Returns-Checked o) fine))

    FunctionBody-Checked :
        {fl : Flags} {ts rest : List Token} {a : Ast V}
        → FunctionBody tk stof fl ts rest a
        → Checked (validate a)
    FunctionBody-Checked (bodied b) = Body-Checked b
    FunctionBody-Checked (bodiless e f g) = fine

    StructBody-Checked :
        {ts rest : List Token} {a : Ast V} → StructBody tk stof ts rest a → Checked (validate a)
    StructBody-Checked (with_scope e b) = Scope-Checked b
    StructBody-Checked (without_scope e) = fine

    Item-Checked :
        {local : Bool} {ts rest : List Token} {a : Ast V}
        → Item tk stof local ts rest a
        → Checked (validate a)
    Item-Checked (namespaced e x b) = (both-Checked (Scope-Checked b) fine)
    Item-Checked (structured y e d h o b) =
        and_then-Checked (validate_struct-Checked d b)
          (both-Checked (Declaration-Checked d) (both-Checked (StructBody-Checked b) fine))
    Item-Checked (constrained y e d h f) =
        (both-Checked (Declaration-Checked d) (both-Checked (fine) fine))
    Item-Checked (defined y k d b) =
        (both-Checked (Declaration-Checked d) (both-Checked (FunctionBody-Checked b) fine))

  Source-Checked :
      {ts : List Token} {is : Children V} → Source tk stof ts is → Checked (validate_all is)
  unfolding validate
  Source-Checked (finished e) = fine
  Source-Checked (unfinished e i is) = both-Checked (Item-Checked i) (Source-Checked is)

  -- Whatever the parser has built can be validated.
  pub validate-Checked : {a : Ast V} → IsTree tk stof a → Checked (validate a)
  unfolding validate validate_type
  validate-Checked (tree is) =
      and_then-Checked (validate_scope-Checked (Source-Named is) []) (Source-Checked is)
