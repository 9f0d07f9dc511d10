-- ===== src/Handler.antt =====
-- handler.rs: the handling of one request.
pub mod Route
pub mod Dispatch
pub mod Collect
pub mod Handle
