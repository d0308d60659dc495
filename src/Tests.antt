-- ===== src/Tests.antt =====
-- The theorems at concrete inputs.
mod Delivery
mod Fragments
mod Packets
mod Streams
mod Timing
mod Tunnel
mod Hops
mod Streaming
