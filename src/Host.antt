-- ===== src/Host.antt =====
-- host/src/main.rs: the daemon with its connection to the runtime and its clients, how it is
-- started and stopped, and the client's commands.
pub mod Connection
pub mod Clients
pub mod Daemon
pub mod Client
pub mod Process
pub mod Spawn
pub mod Main
