-- ===== src/Ssu/RoundTrip.antt =====
-- What the packet builder writes, the packet parser reads back.
pub mod HeaderCodec
pub mod Messages
pub mod Sessions
