-- ===== src/Analysis.antt =====
-- dispatcher/static_analysis.py: what is collected from the sources of a submission, and what becomes
-- of it.
pub mod Cycles
pub mod Ast
pub mod Definitions
pub mod Python
pub mod Kinds
pub mod Cpp
pub mod Report
pub mod Sources
pub mod Analyzer
pub mod Run
