-- ===== src/Sdk.antt =====
-- Parts of src/service/sdkGateway.ts: the cache of resolved paths, what is listed of the nodes of a
-- folder, the errors, and the ranged read.
pub mod Cache
pub mod Nodes
pub mod Errors
pub mod Seek
pub mod Client
pub mod Resolve
pub mod Queries
pub mod Uploads
pub mod Changes
pub mod Whole
mod Tests
mod ClientTests
