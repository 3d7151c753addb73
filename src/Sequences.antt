-- ===== src/Sequences.antt =====
-- vgseer/sequences.c: the escape sequences in what a terminal and a shell say to one another.
pub mod Pattern
pub mod State
pub mod Handlers
pub mod Navigation
pub mod Check
pub mod Language
