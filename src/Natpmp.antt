-- ===== src/Natpmp.antt =====
-- internal/portmapper/natpmp: the NAT-PMP client.
pub mod Codec
pub mod Tests
pub mod Wire
pub mod Client
pub mod Leases
pub mod Destination
pub mod Gateway
