-- ===== src/Auth.antt =====
-- aws_auth: the cache of credentials, the providers, and the signing of requests.
pub mod Cache
pub mod Refresh
pub mod Providers
pub mod Signer
pub mod Service
pub mod Calls
