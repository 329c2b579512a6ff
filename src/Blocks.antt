-- ===== src/Blocks.antt =====
-- The twelve blocks are restartable sequences, and what each does.
pub mod Spec
pub mod Literal
pub mod X86_64
pub mod Aarch64
