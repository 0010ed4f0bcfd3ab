-- ===== src/Script.antt =====
-- src/sudoku.lua, the script with the rules of the puzzle.
pub mod Cell
pub mod Board
pub mod Solution
pub mod Load
pub mod Rules
pub mod Crossing
pub mod Pairs
pub mod Strategies
pub mod Session
pub mod Hint
pub mod Commands
pub mod Eval
