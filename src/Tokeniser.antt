-- ===== src/Tokeniser.antt =====
-- libelement/src/token_internal.cpp: the tokeniser.
pub mod Chars
pub mod CharsLaws
pub mod Input
pub mod Number
pub mod State
pub mod Run
pub mod Segment
pub mod Grammar
pub mod ScanLaws
pub mod Reading
pub mod SpellsLaws
pub mod StateLaws
pub mod StartLaws
pub mod RunLaws
pub mod Correct
pub mod Texts
pub mod Clear
pub mod Identifier
pub mod Ascii
mod Tests
