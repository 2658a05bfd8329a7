-- ===== src/Upnp.antt =====
-- internal/portmapper/upnp: the UPnP client.
pub mod Soap
pub mod Ssdp
pub mod Device
pub mod Client
pub mod Leases
pub mod Targets
pub mod Tests
pub mod Preference
pub mod Xml
pub mod Envelope
pub mod Posts
pub mod Search
