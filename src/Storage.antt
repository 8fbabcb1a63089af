-- ===== src/Storage.antt =====
-- src/aiobt/storage: the files on disk, the two backends, and what a backend promises.
pub mod Files
pub mod Backend
pub mod Disk
pub mod Compact
pub mod Backends
mod Examples
