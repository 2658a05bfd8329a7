-- ===== src/Daemon.antt =====
-- internal/daemon: the lifecycle of the configured mappings.
pub mod Ensure
pub mod State
pub mod Effects
pub mod Outcomes
pub mod Invariant
pub mod Scheduling
pub mod Release
pub mod Detect
pub mod Order
pub mod Probes
pub mod Run
pub mod Due
pub mod Clients
pub mod Wiring
pub mod Frame
pub mod Members
pub mod Destination
pub mod Punctual
pub mod Continuity
pub mod Registry
pub mod Configured
pub mod Tests
