-- ===== src/Uploads.antt =====
-- The chunked upload sessions (paxalia/views/uploads.py) on which a release upload and a send of the
-- Transfer Center stand.
pub mod Session
pub mod Extension
pub mod Init
pub mod Preflight
pub mod Chunk
pub mod Complete
pub mod Sequence
pub mod Delivery
pub mod Tests
