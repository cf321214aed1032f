-- ===== src/Packet.antt =====
-- Protocol-v1 packet framing (steganographer-core/src/packet.rs).
pub mod Types
pub mod Locator
pub mod Integer
pub mod Crc
pub mod Wire
pub mod Envelope
pub mod Generic
pub mod Ots
