-- ===== src/Config.antt =====
-- The configuration: its data, its accessors and its validation.
pub mod Types
pub mod Target
pub mod Listener
pub mod Listen
pub mod Validate
pub mod Load
pub mod Yaml
pub mod Decode
