-- ===== src/FlowGraph.antt =====
-- The flow graphs that GNU Radio Companion wrote as Python, and that their setters reconfigure.
pub mod Arith
pub mod PostFilter
pub mod ErrorPropagation
mod Tests
