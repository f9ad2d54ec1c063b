-- ===== src/Lexer.antt =====
-- The lexer of the source index (mcp/gxp_core/source_lex.py).
pub mod Chars
pub mod Ends
pub mod Template
pub mod Source
pub mod Blank
pub mod Pairs
pub mod Ahead
pub mod Arguments
pub mod Tests
