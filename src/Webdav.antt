-- ===== src/Webdav.antt =====
-- src/service/webdav.ts: the WebDAV layer over any gateway.
pub mod Http
pub mod Range
pub mod Headers
pub mod Handlers
pub mod Put
pub mod Dispatch
pub mod Guarded
pub mod Answers
pub mod Tests
