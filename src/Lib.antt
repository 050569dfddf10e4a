-- ===== src/Lib.antt =====
-- Element: a verification of libelement, the library that reads, compiles and evaluates Element programs.
--
-- A source text becomes tokens (Tokeniser), a parser makes a syntax tree of these, the object model
-- reduces that to a tree of instructions (InstructionTree), and this is evaluated, with a cache of
-- values, or is compiled on.
--
-- - Result: the result codes of libelement/include/element/common.h.
-- - Tokeniser: `element_tokeniser_ctx` of libelement/src/token_internal.cpp. The context is the record
--   Tokeniser, passed from call to call; `run` is the `while` loop with its switch, `tokenise_number`,
--   `tokenise_identifier` and `tokenise_comment` are the methods of these names. The UTF-8 library that
--   the source calls is not in the repository: what it gives from the first byte on is the parameter
--   Input. A failed assertion and the copy of a line beyond the string that is to hold it end the run without a
--   result. The loop takes fuel, one more than the number of code points, and this is enough since
--   each pass reads one at least. Reading and Grammar are the specification.
-- - Parser: the syntax tree of libelement/src/ast/ast_internal.hpp (Ast) and `element_parser_ctx` of
--   libelement/src/ast/parser_internal.cpp: the steps over the tokens (Steps), the methods from `parse_typename` to
--   `parse_item` (Expressions, Declarations, with their loops in Loops), `parse` and `ast_build` (Build), and `validate`
--   (Validate). A token pointer is a position in the tokeniser's list, a method returns the nodes that it adds, and
--   Outcome has its ends. `std::stof` is a parameter. `text_of` is the text of a token that has
--   one. The methods call one another with fuel, one more than there are
--   tokens, which is enough since a token at least is read between two calls of one method. Grammar and Valid are the
--   specification (Correct and Complete compare the parser with these), and Sources connects the parser to the tokeniser.
-- - InstructionTree: the instructions of libelement/src/instruction_tree/instructions.hpp (Instruction), the
--   cache of cache.hpp (Cache) and the evaluator of evaluator.cpp (Evaluator, with the chaining of calls in
--   Outcome). Arithmetic is the parameter for `float` and <cmath>. Meaning is the specification,
--   and Agreement compares calls with it. Fuel bounds the passes of each loop.
--   Constant and Peephole are `get_constant_value` and `optimise_binary` of instructions.cpp.
-- - Lmnt: the state of the compiler to LMNT code, libelement/src/lmnt/compiler_state.cpp and compiler_state.hpp
--   (Allocation, Allocator, State, Uses) with naive_allocator.hpp (NaiveAllocator), whose places Packed and AllPacked follow. A pointer to an allocation is
--   a position in the allocator's storage, and the recursion through parents takes fuel, one more
--   than there are allocations, since a chain of parents that is no cycle passes each at most once. 16-bit sums wrap around.
--
-- Integers of the source that count bytes, lines and columns are natural numbers: a source is taken to
-- be shorter than 2 GB. Messages for the log, the types of instructions, the object
-- model, and the compilation of single instructions to LMNT code are not modelled.
pub mod InstructionTree
pub mod Lmnt
pub mod Parser
pub mod Prelude
pub mod Result
pub mod Tokeniser
