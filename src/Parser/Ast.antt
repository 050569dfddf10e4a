-- ===== src/Parser/Ast.antt =====
-- `element_ast` (libelement/src/ast/ast_internal.hpp and ast_internal.cpp), with the types of
-- libelement/include/element/ast.h. A node's parent is the node that it stands in. `none` is a failed
-- assertion, or a child that is not there.
use element.Prelude.{ℕ, zero, suc, Bool, true, false, not, ◌&&◌, List, [], Option, none, some, ◌==◌}

pub data NodeType : Type 0 where
  no_node root function struct namespace declaration scope : NodeType
  constraint expression exprlist portlist port typename call : NodeType
  lambda identifier literal no_body unspecified_type : NodeType
  unspecified_default anonymous_block : NodeType

-- The numbers of the enumeration.
abbrev pub node_code : NodeType → ℕ
node_code no_node = 0
node_code root = 1
node_code function = 2
node_code struct = 3
node_code namespace = 4
node_code declaration = 5
node_code scope = 6
node_code constraint = 7
node_code expression = 8
node_code exprlist = 9
node_code portlist = 10
node_code port = 11
node_code typename = 12
node_code call = 13
node_code lambda = 14
node_code identifier = 15
node_code literal = 16
node_code no_body = 17
node_code unspecified_type = 18
node_code unspecified_default = 19
node_code anonymous_block = 20

abbrev pub same_node : NodeType → NodeType → Bool
same_node a b = node_code a == node_code b

-- The two bits of `element_ast_flags`.
pub record Flags : Type 0 where
  pub intrinsic : Bool
  pub empty_input : Bool

abbrev pub no_flags : Flags
no_flags = record { intrinsic = false; empty_input = false }

abbrev pub intrinsic_flag : Flags
intrinsic_flag = record { intrinsic = true; empty_input = false }

abbrev pub empty_input_flag : Flags
empty_input_flag = record { intrinsic = false; empty_input = true }

-- The union.
pub data Payload (V : Type 0) : Type 0 where
  value : V → Payload V
  flags : Flags → Payload V

-- Type, identifier, union, position of the nearest token, children.
mutual
  pub data Ast (V : Type 0) : Type 0 where
    node : NodeType → List ℕ → Payload V → Option ℕ → Children V → Ast V

  pub data Children (V : Type 0) : Type 0 where
    nil : Children V
    cons : Ast V → Children V → Children V

abbrev pub map_option : {X Y : Type 0} → (X → Y) → Option X → Option Y
map_option f none = none
map_option f (some x) = some (f x)

-- What follows `assert`.
abbrev pub asserting : {X : Type 0} → Bool → Option X → Option X
asserting true x = x
asserting false x = none

abbrev pub lacks_inputs : Option Flags → Option Bool
lacks_inputs none = none
lacks_inputs (some f) = some (not f.empty_input)

module _ {V : Type 0} where
  abbrev pub node_type : Ast V → NodeType
  node_type (node t name u k cs) = t

  abbrev pub node_identifier : Ast V → List ℕ
  node_identifier (node t name u k cs) = name

  abbrev pub children : Ast V → Children V
  children (node t name u k cs) = cs

  abbrev pub nearest_token : Ast V → Option ℕ
  nearest_token (node t name u k cs) = k

  abbrev pub child_count : Children V → ℕ
  child_count nil = 0
  child_count (cons c cs) = suc (child_count cs)

  abbrev pub child_at : Children V → ℕ → Option (Ast V)
  child_at nil k = none
  child_at (cons c cs) zero = some c
  child_at (cons c cs) (suc k) = child_at cs k

  -- `flags` is read of no literal.
  abbrev pub flags_of : Ast V → Option Flags
  flags_of (node t name (value v) k cs) = none
  flags_of (node t name (flags f) k cs) = some f

  -- A node with neither a name nor flags, as `make_node` makes it.
  abbrev pub bare : NodeType → Option ℕ → Children V → Ast V
  bare t k cs = node t [] (flags no_flags) k cs

  abbrev pub leaf : NodeType → Option ℕ → Ast V
  leaf t k = bare t k nil

  -- children.size() > 0
  abbrev pub has_first : Children V → Bool
  has_first nil = false
  has_first (cons c cs) = true

  -- children.size() > 1
  abbrev pub has_second : Children V → Bool
  has_second nil = false
  has_second (cons c cs) = has_first cs

  -- The type of the first child.
  abbrev pub first_is : NodeType → Children V → Bool
  first_is t nil = false
  first_is t (cons c cs) = same_node (node_type c) t

  abbrev pub struct_is_valid : Ast V → Bool
  struct_is_valid a = same_node (node_type a) struct && has_first (children a)

  abbrev pub function_is_valid : Ast V → Bool
  function_is_valid a =
      same_node (node_type a) function
      && has_first (children a)
      && first_is declaration (children a)

  abbrev pub constraint_is_valid : Ast V → Bool
  constraint_is_valid a = same_node (node_type a) constraint && has_first (children a)

  abbrev pub struct_get_declaration : Ast V → Option (Ast V)
  struct_get_declaration a = asserting (struct_is_valid a) (child_at (children a) 0)

  abbrev pub function_get_declaration : Ast V → Option (Ast V)
  function_get_declaration a = asserting (function_is_valid a) (child_at (children a) 0)

  abbrev pub constraint_get_declaration : Ast V → Option (Ast V)
  constraint_get_declaration a = asserting (constraint_is_valid a) (child_at (children a) 0)

  -- With the assertion that it begins with: where one of the two fails, `assert(declaration_is_valid())`
  -- does.
  abbrev pub declaration_is_valid : Ast V → Bool
  declaration_is_valid a = has_second (children a) && same_node (node_type a) declaration

  -- The children of a valid declaration: its inputs and its outputs.
  abbrev pub outputs_at : Ast V → Option (Ast V)
  outputs_at a = child_at (children a) 1

  unfoldable pub declaration_has_outputs : Ast V → Option Bool
  declaration_has_outputs a =
      asserting (declaration_is_valid a)
        (map_option (λ o. not (same_node (node_type o) unspecified_type)) (outputs_at a))

  unfoldable pub declaration_is_intrinsic : Ast V → Option Bool
  declaration_is_intrinsic a =
      asserting (declaration_is_valid a) (map_option (λ f. f.intrinsic) (flags_of a))

  abbrev pub flags_of_child : Option (Ast V) → Option Flags
  flags_of_child none = none
  flags_of_child (some a) = flags_of a

  unfoldable pub declaration_has_portlist : Ast V → Option Bool
  declaration_has_portlist a =
      asserting (declaration_is_valid a) (lacks_inputs (flags_of_child (child_at (children a) 0)))
