-- ===== src/InstructionTree/Validity.antt =====
-- The instruction trees (libelement/src/instruction_tree/instructions.hpp) that the evaluator may be
-- given.
use element.Prelude.{ℕ, ◌≡◌, ◌≤◌, ◌<◌, List, [], ◌∷◌, ◌++◌, Option, some, false, get_elem?}
use element.InstructionTree.Arithmetic.{NullaryOp, UnaryOp, BinaryOp}
use element.InstructionTree.Instruction.{Instruction, Instructions, count, size, has_loop}

-- A tree as the object model builds it, where the boundaries have these lengths: parts have the sizes
-- that the evaluator asserts, the initial values of a loop hold no loop, each input exists, and at each address that is cached stands this
-- instruction, `at p` being the instruction at `p`.
mutual
  pub data IsValid {V : Type 0} (at : ℕ → Option (Instruction V))
      : List ℕ → Instruction V → Type 0 where
    constant : {ns : List ℕ} {p : ℕ} {v : V} → IsValid at ns (Instruction.constant p v)
    input :
        {ns : List ℕ} {p scope index n : ℕ}
        → get_elem? ns scope ≡ some n
        → index < n
        → IsValid at ns (Instruction.input p scope index)
    structure :
        {ns : List ℕ} {p : ℕ} {ds : Instructions V}
        → AreValid at ns ds
        → IsValid at ns (Instruction.serialised_structure p ds)
    nullary :
        {ns : List ℕ} {p : ℕ} {o : NullaryOp}
        → at p ≡ some (Instruction.nullary p o)
        → IsValid at ns (Instruction.nullary p o)
    unary :
        {ns : List ℕ} {p : ℕ} {o : UnaryOp} {a : Instruction V}
        → at p ≡ some (Instruction.unary p o a)
        → size a ≡ 1
        → IsValid at ns a
        → IsValid at ns (Instruction.unary p o a)
    binary :
        {ns : List ℕ} {p : ℕ} {o : BinaryOp} {a b : Instruction V}
        → at p ≡ some (Instruction.binary p o a b)
        → size a ≡ 1
        → size b ≡ 1
        → IsValid at ns a
        → IsValid at ns b
        → IsValid at ns (Instruction.binary p o a b)
    if_else :
        {ns : List ℕ} {p : ℕ} {c t f : Instruction V}
        → at p ≡ some (Instruction.if_else p c t f)
        → size c ≡ 1
        → size t ≡ 1
        → size f ≡ 1
        → IsValid at ns c
        → IsValid at ns t
        → IsValid at ns f
        → IsValid at ns (Instruction.if_else p c t f)
    for_loop :
        {ns : List ℕ} {p : ℕ} {i c b : Instruction V}
        → has_loop i ≡ false
        → 1 ≤ size i
        → size c ≡ 1
        → size b ≡ size i
        → IsValid at ns i
        → IsValid at (ns ++ size i ∷ []) c
        → IsValid at (ns ++ size i ∷ []) b
        → IsValid at ns (Instruction.for_loop p i c b)
    indexer :
        {ns : List ℕ} {p k : ℕ} {l : Instruction V}
        → at p ≡ some (Instruction.indexer p l k)
        → k < size l
        → IsValid at ns l
        → IsValid at ns (Instruction.indexer p l k)
    select :
        {ns : List ℕ} {p : ℕ} {s : Instruction V} {os : Instructions V}
        → size s ≡ 1
        → 0 < count os
        → IsValid at ns s
        → AreOptions at ns os
        → IsValid at ns (Instruction.select p s os)

  pub data AreValid {V : Type 0} (at : ℕ → Option (Instruction V))
      : List ℕ → Instructions V → Type 0 where
    nil : {ns : List ℕ} → AreValid at ns Instructions.nil
    cons :
        {ns : List ℕ} {d : Instruction V} {ds : Instructions V}
        → IsValid at ns d
        → AreValid at ns ds
        → AreValid at ns (Instructions.cons d ds)

  -- The options of a selection, each of size 1.
  pub data AreOptions {V : Type 0} (at : ℕ → Option (Instruction V))
      : List ℕ → Instructions V → Type 0 where
    no_option : {ns : List ℕ} → AreOptions at ns Instructions.nil
    option :
        {ns : List ℕ} {d : Instruction V} {ds : Instructions V}
        → size d ≡ 1
        → IsValid at ns d
        → AreOptions at ns ds
        → AreOptions at ns (Instructions.cons d ds)
