-- ===== src/Scripts.antt =====
-- The scripts beside the tools: the command `microstack`, the update of the paths of a snap, and
-- the check of a systemd service.
pub mod Proxy
pub mod Paths
pub mod Systemd
