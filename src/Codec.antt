-- ===== src/Codec.antt =====
-- src/protocol/packets/mod.rs: what the packets' codecs share, and the codec of a packet.
pub mod Header
pub mod Fixed
pub mod Publish
pub mod Subscribe
pub mod Connect
pub mod Packet
