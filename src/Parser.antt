-- ===== src/Parser.antt =====
-- libelement/src/ast: the parser from tokens to syntax trees, and the validation of these.
pub mod Ast
pub mod Outcome
pub mod Words
pub mod Steps
pub mod Loops
pub mod Expressions
pub mod Declarations
pub mod Validate
pub mod Build
pub mod Stream
pub mod Ends
pub mod Grammar
pub mod Terminals
pub mod LoopLaws
pub mod PortLaws
pub mod ExpressionLaws
pub mod CheckLaws
pub mod DeclarationLaws
pub mod BuildLaws
pub mod Checkable
pub mod Correct
pub mod Sources
pub mod Names
pub mod WordsLaws
pub mod Valid
pub mod ValidLaws
pub mod Lengths
pub mod Gives
pub mod CompletePorts
pub mod CompleteExpressions
pub mod CompleteDeclarations
pub mod CompleteItems
pub mod SameLaws
pub mod Complete
mod Tests
