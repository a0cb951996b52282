-- ===== src/Service.antt =====
-- The WebDAV layer of src/service/webdav.ts over the in-memory gateway of src/service/mockGateway.ts.
pub mod Overwrite
pub mod Download
mod Tests
