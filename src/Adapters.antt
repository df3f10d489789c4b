-- ===== src/Adapters.antt =====
-- The adapters between the campaign runner and the agents (deploy/adapters).
pub mod Protocol
pub mod Adapter
pub mod Hexstrike
pub mod Prompt
pub mod Tinyclaw
pub mod Ironclaw
mod Tests
