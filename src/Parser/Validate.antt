-- ===== src/Parser/Validate.antt =====
-- The validation of a tree (libelement/src/ast/parser_internal.cpp). `none` is a failed assertion.
use element.Prelude.{ℕ, Bool, false, ◌||◌, List, [], ◌∷◌, Option, none, some, if◌then◌else◌}
use element.Result.{ElementResult, ok, missing_ports, multiple_definitions, invalid_identifier}
use element.Parser.Ast.{
  NodeType, root, function, struct, declaration, scope, portlist, same_node, Ast, node, Children,
  nil, cons, node_type, node_identifier, children, child_at,
}
use element.Parser.Words.{same_text}

-- The first error, of two results.
abbrev pub first_error : ElementResult → ElementResult → ElementResult
first_error ok r = r
first_error e r = e

abbrev pub both : Option ElementResult → Option ElementResult → Option ElementResult
both none b = none
both (some r) none = none
both (some r) (some r') = some (first_error r r')

abbrev pub contains_name : List ℕ → List (List ℕ) → Bool
contains_name n [] = false
contains_name n (m ∷ ms) = same_text m n || contains_name n ms

abbrev pub is_declaration_or_scope : NodeType → Bool
is_declaration_or_scope t = same_node t declaration || same_node t scope

-- The functions of a scope, by the names of those before them.
abbrev pub add_name :
    List (List ℕ) → List ℕ → (List (List ℕ) → Option ElementResult) → Option ElementResult
add_name names name rest =
    if contains_name name names
    then both (some multiple_definitions) (rest names)
    else rest (name ∷ names)

-- The children of a node are validated only where the node itself is valid; of their errors the first is kept.
abbrev pub and_then : Option ElementResult → Option ElementResult → Option ElementResult
and_then none rest = none
and_then (some ok) rest = rest
and_then (some r) rest = some r

module _ {V : Type 0} where
  -- Whether a node has the name of one that comes after it.
  unfoldable pub named_again : List ℕ → Children V → Bool
  named_again name nil = false
  named_again name (cons c cs) = same_text name (node_identifier c) || named_again name cs

  unfoldable pub has_duplicate : Children V → Bool
  has_duplicate nil = false
  has_duplicate (cons c cs) = named_again (node_identifier c) cs || has_duplicate cs

  abbrev pub validate_portlist : Children V → ElementResult
  validate_portlist nil = missing_ports
  validate_portlist cs = if has_duplicate cs then multiple_definitions else ok

  -- A child of a struct's scope, by its own first child.
  abbrev pub struct_child : List ℕ → Option (Ast V) → Option ElementResult
  struct_child name none = none
  struct_child name (some d) =
      if is_declaration_or_scope (node_type d)
      then some (if same_text name (node_identifier d) then invalid_identifier else ok)
      else none

  unfoldable pub struct_children : List ℕ → Children V → Option ElementResult
  struct_children name nil = some ok
  struct_children name (cons c cs) =
      both (struct_child name (child_at (children c) 0)) (struct_children name cs)

  abbrev pub struct_body : List ℕ → Ast V → Option ElementResult
  struct_body name b =
      if same_node (node_type b) scope then struct_children name (children b) else some ok

  unfoldable pub validate_struct : Children V → Option ElementResult
  validate_struct nil = none
  validate_struct (cons d nil) = some ok
  validate_struct (cons d (cons b cs)) =
      if same_node (node_type d) declaration then struct_body (node_identifier d) b else none

  abbrev pub scope_child :
      List (List ℕ) → Option (Ast V) → (List (List ℕ) → Option ElementResult) → Option ElementResult
  scope_child names none rest = none
  scope_child names (some d) rest = add_name names (node_identifier d) rest

  unfoldable pub validate_scope : List (List ℕ) → Children V → Option ElementResult
  validate_scope names nil = some ok
  validate_scope names (cons c cs) =
      if same_node (node_type c) function
      then scope_child names (child_at (children c) 0) (λ ns. validate_scope ns cs)
      else validate_scope names cs

  unfoldable pub validate_type : Ast V → Option ElementResult
  validate_type (node portlist name u k cs) = some (validate_portlist cs)
  validate_type (node struct name u k cs) = validate_struct cs
  validate_type (node root name u k cs) = validate_scope [] cs
  validate_type (node scope name u k cs) = validate_scope [] cs
  validate_type (node _ name u k cs) = some ok

  unfoldable mutual
    pub validate : Ast V → Option ElementResult
    validate (node t name u k cs) = and_then (validate_type (node t name u k cs)) (validate_all cs)

    pub validate_all : Children V → Option ElementResult
    validate_all nil = some ok
    validate_all (cons c cs) = both (validate c) (validate_all cs)
