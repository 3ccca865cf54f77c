-- ===== src/Horizon.antt =====
-- internal/issuer/horizon: the client of a Horizon instance, its answers, and the requests.
pub mod TrustChain
pub mod ApiError
pub mod ClientConfig
pub mod Health
pub mod Annotations
pub mod Requests
pub mod Polling
