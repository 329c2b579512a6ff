-- ===== src/Section.antt =====
-- What makes an `asm!` block a restartable sequence: a check of its lines, and what follows from it for
-- every run.
pub mod Check
pub mod Lines
pub mod Exec
pub mod Step
pub mod Runs
pub mod Direct
pub mod IndexTest
pub mod Foreign
pub mod Linearized
pub mod Interrupt
pub mod Settle
pub mod Attempt
pub mod Linear
