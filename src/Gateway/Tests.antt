-- ===== src/Gateway/Tests.antt =====
-- Concrete inputs for the theorems on the gateway.
mod Usage
mod Access
mod Secrets
mod Tools
mod Exports
mod Subprocess
mod Discussions
