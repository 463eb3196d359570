-- ===== src/LatticeFact.antt =====
-- worklist-ai/latticefact.cpp: the class `LatticeFact` over an abstract domain of Apron. The
-- overloads of a method for names and constants are one function of its two `Sides`.
pub mod Constr
pub mod Query
pub mod Assign
pub mod Meet
pub mod Constrain
