-- ===== src/Mock.antt =====
-- src/service/mockGateway.ts: the in-memory gateway, with drafts and injected faults.
pub mod Tree
pub mod State
pub mod Reading
pub mod Put
pub mod Visible
pub mod Ops
mod Tests
