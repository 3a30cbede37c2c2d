-- ===== src/Mesophyll.antt =====
-- src/mesophyll: the calls between a worker and the master.
pub mod Proto
pub mod Server
pub mod Client
pub mod Thread
pub mod Fleet
pub mod Feeds
pub mod Startup
pub mod Routing
pub mod Examples
