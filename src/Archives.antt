-- ===== src/Archives.antt =====
-- pkg/archives: splitting an archive into chunks and joining them.
pub mod Split
pub mod Naming
