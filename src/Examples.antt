-- ===== src/Examples.antt =====
-- Concrete targets, answers and histories on which the development's statements are tried.
pub mod Data
mod Parts
mod Store
mod CommandLine
mod Session
mod Actions
