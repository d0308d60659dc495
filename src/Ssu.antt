-- ===== src/Ssu.antt =====
-- src/core/router/transports/ssu: the packets of the semi-reliable UDP transport and their delivery.
pub mod Header
pub mod Packet
pub mod Parser
pub mod Builder
pub mod RoundTrip
pub mod Data
