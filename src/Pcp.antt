-- ===== src/Pcp.antt =====
-- internal/portmapper/pcp: the PCP client.
pub mod Codec
pub mod Tests
pub mod Wire
pub mod Client
pub mod Leases
pub mod Nonces
pub mod Datagrams
pub mod Destination
pub mod Gateway
