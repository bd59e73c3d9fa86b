-- ===== src/Framing.antt =====
-- The byte protocols of the servers and clients.
pub mod Delimiter
pub mod Header
pub mod LengthHeader
