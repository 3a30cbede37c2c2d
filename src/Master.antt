-- ===== src/Master.antt =====
-- src/master: the process that starts the workers and serves them.
pub mod ProcessHandle
pub mod Context
pub mod Sessions
pub mod Cache
pub mod Auth
pub mod Handler
pub mod Pool
pub mod Bot
pub mod Gkv
pub mod Discord
pub mod Syscall
pub mod WebApi
pub mod Examples
