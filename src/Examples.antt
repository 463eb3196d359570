-- ===== src/Examples.antt =====
-- Concrete runs, and the theorems applied to them.
pub mod Facts
pub mod Blocks
pub mod Loops
pub mod Orders
mod Numbers
mod Rounds
mod Explored
mod Ids
mod Threads
mod Gathered
