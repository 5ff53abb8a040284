-- ===== src/Reaction.antt =====
-- reaction/: the graph of an automation chain.
pub mod Traversal
pub mod Graph
pub mod Evaluator
pub mod Rules
pub mod Compiler
