-- ===== src/BbOps.antt =====
-- worklist-ai/bbops.cpp: the transfer functions of instructions and basic blocks.
pub mod Assign
pub mod Transfer
