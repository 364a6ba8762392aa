-- ===== src/Packet/Error.antt =====
-- The error types of src/packet.rs.
use packet_test.Common.{ℕ}
use packet_test.Socket.{IoError}

pub record SeqIndexOutOfRange : Type 0 where
  pub seq_index : ℕ
  pub seq_max : ℕ

pub record SeqIndexAckedBeforeSent : Type 0 where
  pub seq_index : ℕ

pub data PacketAckErrorKind : Type 0 where
  invalid_packet_id : PacketAckErrorKind
  seq_index_out_of_range : SeqIndexOutOfRange → PacketAckErrorKind
  seq_index_acked_before_sent : SeqIndexAckedBeforeSent → PacketAckErrorKind

pub data PacketReceiveErrorKind : Type 0 where
  mismatch : PacketReceiveErrorKind
  seq_index_out_of_range : SeqIndexOutOfRange → PacketReceiveErrorKind
  io : IoError → PacketReceiveErrorKind

pub record PacketAckError (PacketId : Type 0) : Type 0 where
  pub id : PacketId
  pub kind : PacketAckErrorKind

pub record PacketReceiveError (PacketId : Type 0) : Type 0 where
  pub id : PacketId
  pub kind : PacketReceiveErrorKind

pub record InvalidDonePacketId (PacketId : Type 0) : Type 0 where
  pub id : PacketId

pub data HandlePacketError (PacketId : Type 0) : Type 0 where
  empty : HandlePacketError PacketId
  malformed : HandlePacketError PacketId
  receive_error : PacketReceiveError PacketId → HandlePacketError PacketId
  ack_error : PacketAckError PacketId → HandlePacketError PacketId
  done_error : InvalidDonePacketId PacketId → HandlePacketError PacketId
  io_error : IoError → HandlePacketError PacketId
  unexpected_kind : ℕ → HandlePacketError PacketId
  validation : HandlePacketError PacketId
