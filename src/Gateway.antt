-- ===== src/Gateway.antt =====
-- The gateway (gateway).
pub mod Newest
pub mod Metering
pub mod Identity
pub mod Aperture
pub mod Webhook
pub mod Resolver
pub mod Audit
pub mod Setec
pub mod Values
pub mod Campaigns
pub mod Proxy
pub mod S3
pub mod Github
pub mod Discussions
mod Tests
