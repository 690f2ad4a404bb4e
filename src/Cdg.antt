-- ===== src/Cdg.antt =====
-- control_dependence.h and control_dependence.cpp: the control dependence graph and its closure.
pub mod Digraph
pub mod Dfs
pub mod Frontier
pub mod ControlDep
