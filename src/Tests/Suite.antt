-- ===== src/Tests/Suite.antt =====
-- The unit tests of the source, read as statements about the model, which holds them.
mod Cache
mod Configs
mod Good
mod Texts
mod Transforms
mod Contexts
mod Signing
