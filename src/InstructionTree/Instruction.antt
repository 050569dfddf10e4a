-- ===== src/InstructionTree/Instruction.antt =====
-- The instruction classes of libelement/src/instruction_tree/instructions.hpp. Instructions are held
-- by shared pointers and compared by these: the first argument of each constructor is the address.
-- The type annotation that an instruction carries is passed on and never read here, and is left out,
-- and so are the names of a structure for debugging and the set of a loop's inputs.
use element.Prelude.{ℕ, suc, ◌+◌, Bool, true, false, ◌&&◌, ◌||◌}
use element.InstructionTree.Arithmetic.{NullaryOp, UnaryOp, BinaryOp}

mutual
  pub data Instruction (V : Type 0) : Type 0 where
    constant : ℕ → V → Instruction V
    input : ℕ → ℕ → ℕ → Instruction V
    serialised_structure : ℕ → Instructions V → Instruction V
    nullary : ℕ → NullaryOp → Instruction V
    unary : ℕ → UnaryOp → Instruction V → Instruction V
    binary : ℕ → BinaryOp → Instruction V → Instruction V → Instruction V
    if_else : ℕ → Instruction V → Instruction V → Instruction V → Instruction V
    for_loop : ℕ → Instruction V → Instruction V → Instruction V → Instruction V
    indexer : ℕ → Instruction V → ℕ → Instruction V
    select : ℕ → Instruction V → Instructions V → Instruction V

  pub data Instructions (V : Type 0) : Type 0 where
    nil : Instructions V
    cons : Instruction V → Instructions V → Instructions V

module _ {V : Type 0} where
  abbrev pub address : Instruction V → ℕ
  address (constant p v) = p
  address (input p scope index) = p
  address (serialised_structure p ds) = p
  address (nullary p o) = p
  address (unary p o a) = p
  address (binary p o a b) = p
  address (if_else p c t f) = p
  address (for_loop p i c b) = p
  address (indexer p l i) = p
  address (select p s os) = p

  abbrev pub count : Instructions V → ℕ
  count nil = 0
  count (cons d ds) = suc (count ds)

  -- get_size
  unfoldable mutual
    pub size : Instruction V → ℕ
    size (constant p v) = 1
    size (input p scope index) = 1
    size (serialised_structure p ds) = size_all ds
    size (nullary p o) = 1
    size (unary p o a) = 1
    size (binary p o a b) = 1
    size (if_else p c t f) = 1
    size (for_loop p i c b) = size i
    size (indexer p l i) = 1
    size (select p s os) = 1

    pub size_all : Instructions V → ℕ
    size_all nil = 0
    size_all (cons d ds) = size d + size_all ds

  -- is_constant: an input and a nullary operation have their own, all others ask their dependents.
  unfoldable mutual
    pub is_constant : Instruction V → Bool
    is_constant (constant p v) = true
    is_constant (input p scope index) = false
    is_constant (serialised_structure p ds) = is_constant_all ds
    is_constant (nullary p o) = true
    is_constant (unary p o a) = is_constant a
    is_constant (binary p o a b) = is_constant a && is_constant b
    is_constant (if_else p c t f) = is_constant c && is_constant t && is_constant f
    is_constant (for_loop p i c b) = is_constant i && is_constant c && is_constant b
    is_constant (indexer p l i) = is_constant l
    is_constant (select p s os) = is_constant s && is_constant_all os

    pub is_constant_all : Instructions V → Bool
    is_constant_all nil = true
    is_constant_all (cons d ds) = is_constant d && is_constant_all ds

  -- Whether there is a loop in the tree.
  unfoldable mutual
    pub has_loop : Instruction V → Bool
    has_loop (constant p v) = false
    has_loop (input p scope index) = false
    has_loop (serialised_structure p ds) = any_has_loop ds
    has_loop (nullary p o) = false
    has_loop (unary p o a) = has_loop a
    has_loop (binary p o a b) = has_loop a || has_loop b
    has_loop (if_else p c t f) = has_loop c || has_loop t || has_loop f
    has_loop (for_loop p i c b) = true
    has_loop (indexer p l i) = has_loop l
    has_loop (select p s os) = has_loop s || any_has_loop os

    pub any_has_loop : Instructions V → Bool
    any_has_loop nil = false
    any_has_loop (cons d ds) = has_loop d || any_has_loop ds
