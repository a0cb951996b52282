-- ===== src/Session.antt =====
-- src/service/sessionStore.ts: the session lock, the private files and the credentials store, over a
-- model of the one directory that they use.
pub mod Disk
pub mod Write
pub mod Lock
pub mod Directory
pub mod Store
pub mod Tests
