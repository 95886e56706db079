-- ===== src/Command.antt =====
-- cmd/hauler/cli/store: the commands over a store.
pub mod Remove
pub mod Verify
pub mod Rewriting
pub mod Images
pub mod Charts
pub mod Names
pub mod Precedence
pub mod Resolving
pub mod Documents
pub mod Content
pub mod Files
pub mod Discovery
