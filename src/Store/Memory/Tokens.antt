-- ===== src/Store/Memory/Tokens.antt =====
-- The life of a screen token in internal/store/memory.go.
mod Frame
pub mod Once
pub mod Redeemable
