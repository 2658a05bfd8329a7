-- ===== src/Config.antt =====
-- internal/config/config.go: the configuration, its expansion into requests, and its validation.
pub mod Expansion
pub mod Level
pub mod Load
pub mod Requests
pub mod Tests
pub mod Validate
