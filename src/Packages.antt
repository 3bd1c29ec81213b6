-- ===== src/Packages.antt =====
-- The package container (paxalia/packages/format.py).
pub mod Format
pub mod Payload
pub mod Build
pub mod Sample
pub mod Tests
