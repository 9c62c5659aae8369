-- ===== src/Board.antt =====
-- harness/wave_board.py: the board on which independent sessions claim registered tasks.
pub mod Records
pub mod Operations
pub mod Machine
pub mod Claims
pub mod Calls
pub mod Status
mod Samples
