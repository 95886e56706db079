-- ===== src/Content.antt =====
-- pkg/content: descriptors, references and the OCI layout.
pub mod Descriptor
pub mod Reference
pub mod Index
pub mod Blob
