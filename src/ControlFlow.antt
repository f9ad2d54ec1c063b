-- ===== src/ControlFlow.antt =====
-- `ControlFlowAnalyzer.analyze_group` of mcp/gxp_core/canvas.py: block markers replayed on a stack.
pub mod Node
pub mod Replay
pub mod Group
pub mod Grammar
pub mod Nesting
pub mod Scenario
pub mod Branches
mod Tests
