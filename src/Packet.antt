-- ===== src/Packet.antt =====
-- src/packet.rs and src/packet/: the reliable packets of a connection.
pub mod Kind
pub mod Packets
pub mod Error
pub mod Frame
pub mod Buffer
pub mod Serialize
pub mod Queue
pub mod Out
pub mod Reassemble
pub mod SendBuffer
pub mod ReceiveBuffer
pub mod Buffers
pub mod Arrivals
pub mod Exchange
pub mod Tests
