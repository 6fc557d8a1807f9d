-- ===== src/Identity.antt =====
-- internal/identity: label sets and the 64-bit identities that stand for them.
pub mod Labels
pub mod Allocator
pub mod Probe
pub mod Invariant
pub mod Remove
pub mod Undo
