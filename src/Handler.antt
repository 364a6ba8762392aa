-- ===== src/Handler.antt =====
-- What src/net.rs tells a `ConnectionHandler`: raw packets and errors.
pub mod Buffers
use packet_test.Common.{Bool, List, [], ◌∷◌, Option, none, some}
use packet_test.Socket.{SocketAddr, IoError}
use packet_test.Packet.Error.{HandlePacketError}

pub data PartInfo : Type 0 where
  pending reassembled duplicate : PartInfo

pub data RawPacket : Type 0 where
  part : SocketAddr → PartInfo → RawPacket
  done : SocketAddr → Bool → RawPacket
  ack : SocketAddr → Bool → RawPacket

-- The validation error of rkyv is left out.
pub data HandlerError (PacketId : Type 0) : Type 0 where
  recv : IoError → HandlerError PacketId
  send : SocketAddr → IoError → HandlerError PacketId
  packet_validation : SocketAddr → HandlerError PacketId
  handle : SocketAddr → HandlePacketError PacketId → HandlerError PacketId
  timeout : SocketAddr → HandlerError PacketId

-- A call of the handler: `raw_packet` or `error`.
pub data Report (PacketId : Type 0) : Type 0 where
  raw_packet : RawPacket → Report PacketId
  error : HandlerError PacketId → Report PacketId
