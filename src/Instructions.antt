-- ===== src/Instructions.antt =====
-- The handlers of programs/pump-raydium/src/instructions, over the machine of Svm.
pub mod Configure
pub mod Create
pub mod Swap
pub mod Migrate
pub mod Keeps
pub mod Seals
pub mod Holds
pub mod Owned
pub mod Emits
