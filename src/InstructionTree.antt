-- ===== src/InstructionTree.antt =====
-- libelement/src/instruction_tree: instructions, their evaluation and its cache.
pub mod Arithmetic
pub mod Instruction
pub mod Cache
pub mod Outcome
pub mod Evaluator
pub mod Meaning
pub mod Validity
pub mod View
pub mod Agreement
pub mod Consistency
pub mod Refines
pub mod Parts
pub mod Ends
pub mod Constant
pub mod Peephole
pub mod ConstantLaws
pub mod Tests
