-- ===== src/Tests.antt =====
-- A concrete channel, tests of the definitions, and the theorems at concrete inputs.
mod Channel
mod Backend
mod Reading
mod Store
mod Handlers
mod Uploads
mod Copies
mod Gateways
mod Signatures
