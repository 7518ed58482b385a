-- ===== src/Protocol.antt =====
-- internal/modules/broker/protocol: the MQTT 3.1.1 wire format.
pub mod Packet
pub mod Codec
pub mod Encoder
pub mod Reader
pub mod Client
pub mod Decoder
