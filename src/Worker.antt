-- ===== src/Worker.antt =====
-- src/worker: the tenants of one worker, their VMs, and the events and syscalls between them.
pub mod Tenant
pub mod Node
pub mod Vms
pub mod SimpleEvent
pub mod Dispatch
pub mod Syscall
pub mod Coherence
pub mod Thread
pub mod Examples
