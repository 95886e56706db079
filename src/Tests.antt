-- ===== src/Tests.antt =====
-- The theorems at concrete inputs.
pub mod Index
pub mod Graph
pub mod Cleaning
pub mod Copying
pub mod Blobs
pub mod Tools
pub mod Adding
pub mod Jobs
pub mod Resolving
pub mod Catalog
pub mod Chunks
pub mod Contents
