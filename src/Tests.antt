-- ===== src/Tests.antt =====
-- Runs of the model on concrete inputs, and the theorems at inputs that meet their hypotheses.
mod Contexts
mod Headers
mod Responses
mod Handlers
mod Handles
mod Runs
mod Configs
mod Servers
mod Signing
mod Texts
mod Targets
mod Auth
mod Services
mod Mains
mod Suite
