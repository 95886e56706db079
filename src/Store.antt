-- ===== src/Store.antt =====
-- pkg/store: the layout over the OCI index and the blobs.
pub mod Manifest
pub mod Remove
pub mod Check
pub mod CleanUp
pub mod Copy
pub mod CopyAll
pub mod Catalog
pub mod Inventory
pub mod Add
