-- ===== src/Condition.antt =====
-- Condition trees of a canvas (mcp/gxp_core/canvas.py).
pub mod Text
pub mod Ast
pub mod Build
pub mod Evaluate
pub mod Meaning
pub mod Tests
