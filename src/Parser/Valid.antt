-- ===== src/Parser/Valid.antt =====
-- What the validation of libelement/src/ast/parser_internal.cpp asks of a tree, without its loops.
use element.Prelude.{ℕ, List, [], ◌∷◌, ◌++◌, Option, none, some, ◌≢◌, All, if◌then◌else◌}
use element.Parser.Ast.{
  NodeType, function, scope, portlist, struct, root, same_node, Ast, node, Children, nil, cons,
  node_type, node_identifier, children, child_at,
}
use element.Parser.Names.{Unique}

module _ {V : Type 0} where
  abbrev pub names : Children V → List (List ℕ)
  names nil = []
  names (cons c cs) = node_identifier c ∷ names cs

  abbrev pub name_of : Option (Ast V) → List (List ℕ)
  name_of none = []
  name_of (some d) = node_identifier d ∷ []

  -- The names of the first children: the declarations of the items.
  abbrev pub member_names : Children V → List (List ℕ)
  member_names nil = []
  member_names (cons c cs) = name_of (child_at (children c) 0) ++ member_names cs

  abbrev pub function_names : Children V → List (List ℕ)
  function_names nil = []
  function_names (cons c cs) =
      if same_node (node_type c) function
      then name_of (child_at (children c) 0) ++ function_names cs
      else function_names cs

  -- The names that a struct's own name must not be among.
  abbrev pub body_names : Ast V → List (List ℕ)
  body_names b = if same_node (node_type b) scope then member_names (children b) else []

  abbrev pub IsValidStruct : Children V → Type 0
  IsValidStruct nil = Unit
  IsValidStruct (cons d nil) = Unit
  IsValidStruct (cons d (cons b cs)) = All (λ m. node_identifier d ≢ m) (body_names b)

  -- What a node of one type asks of its children: the ports of a list, of which there is one at least, and the
  -- functions of a scope have different names, and no member of a struct has the struct's.
  unfoldable pub IsValidNode : NodeType → Children V → Type 0
  IsValidNode portlist cs = (cs ≢ nil) × Unique (names cs)
  IsValidNode struct cs = IsValidStruct cs
  IsValidNode root cs = Unique (function_names cs)
  IsValidNode scope cs = Unique (function_names cs)
  IsValidNode _ cs = Unit

  unfoldable mutual
    pub IsValid : Ast V → Type 0
    IsValid (node t name u k cs) = IsValidNode t cs × AreValid cs

    pub AreValid : Children V → Type 0
    AreValid nil = Unit
    AreValid (cons c cs) = IsValid c × AreValid cs
