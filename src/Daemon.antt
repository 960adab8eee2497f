-- ===== src/Daemon.antt =====
-- src/daemon: the state of the daemon, what it does to the host, and what its events do to both.
pub mod State
pub mod Host
pub mod Monad
pub mod Sysctl
pub mod Lifecycle
pub mod Cache
pub mod Runner
pub mod Start
