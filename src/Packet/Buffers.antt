-- ===== src/Packet/Buffers.antt =====
-- `PacketBuffers` of src/packet.rs: both directions of one connection.
pub mod Dispatch
pub mod Panics
use packet_test.Common.{ℕ, List, [], ◌∷◌, Option, none, some, Result, ok, err, Bool, true, false}
use packet_test.Common.Dict.{Ord}
use packet_test.Socket.{NonBlockingUdpSocket, IoError}
use packet_test.Packet.Kind.{Uuid}
use packet_test.Packet.Error.{HandlePacketError, empty, unexpected_kind}
use packet_test.Packet.Serialize.{Panicking}
use packet_test.Packet.Reassemble.{ReceivedPacket}
use packet_test.Packet.SendBuffer
use packet_test.Packet.SendBuffer.{SendPacketBuffer, SentPacketHandling}
use packet_test.Packet.ReceiveBuffer
use packet_test.Packet.ReceiveBuffer.{ReceivePacketBuffer, ReceivedPacketHandling}

pub record PacketBuffers (PacketId : Type 0) : Type 0 where
  pub send_buffer : SendPacketBuffer PacketId
  pub receive_buffer : ReceivePacketBuffer PacketId

pub data PacketHandling : Type 0 where
  received : ReceivedPacket → PacketHandling
  finished : Bool → PacketHandling
  acked : Bool → PacketHandling

abbrev pub Handled : Type 0 → Type 0
Handled PacketId = Panicking (
    Result (HandlePacketError PacketId) PacketHandling
    × PacketBuffers PacketId
    × NonBlockingUdpSocket)

module _ {PacketId : Type 0} ⦃o : Ord PacketId⦄ ⦃u : Uuid PacketId⦄ where
  unfoldable pub new : ℕ → PacketBuffers PacketId
  new initial_send_batch_size = record {
    send_buffer = SendBuffer.new initial_send_batch_size;
    receive_buffer = record { packets = [] };
  }

  unfoldable pub send :
      PacketBuffers PacketId
      → PacketId
      → List (List ℕ)
      → ℕ
      → NonBlockingUdpSocket
      → ℕ
      → Panicking (Result IoError PacketId × PacketBuffers PacketId × NonBlockingUdpSocket)
  send b id writes background_serialization_threshold socket now =
      elim (SendBuffer.send b.send_buffer id writes background_serialization_threshold socket now) [
        | none ↦ none
        | some (r, s, socket') ↦ some (r, record b { send_buffer = s }, socket')
      ]

  -- The second half of `handle`: what the receive buffer left to the send buffer.
  unfoldable pub handle_sent :
      PacketBuffers PacketId → ℕ → List ℕ → NonBlockingUdpSocket → Handled PacketId
  handle_sent b kind buf socket = elim (SendBuffer.handle b.send_buffer buf) [
    | none ↦ none
    | some (err e, s) ↦ some (err e, record b { send_buffer = s }, socket)
    | some (ok (SentPacketHandling.acked duplicate), s) ↦
        some (ok (acked duplicate), record b { send_buffer = s }, socket)
    | some (ok SentPacketHandling.unhandled, s) ↦
        some (err (unexpected_kind kind), record b { send_buffer = s }, socket)
  ]

  unfoldable pub handle :
      PacketBuffers PacketId → List ℕ → NonBlockingUdpSocket → ℕ → Handled PacketId
  handle b [] socket now = some (err empty, b, socket)
  handle b (kind ∷ rest) socket now =
      elim (ReceiveBuffer.handle b.receive_buffer (kind ∷ rest) socket now) [
        | none ↦ none
        | some (err e, r, socket') ↦ some (err e, record b { receive_buffer = r }, socket')
        | some (ok (ReceivedPacketHandling.acked part), r, socket') ↦
            some (ok (received part), record b { receive_buffer = r }, socket')
        | some (ok (ReceivedPacketHandling.finished known), r, socket') ↦
            some (ok (finished known), record b { receive_buffer = r }, socket')
        | some (ok ReceivedPacketHandling.unhandled, r, socket') ↦
            handle_sent (record b { receive_buffer = r }) kind (kind ∷ rest) socket'
      ]

  abbrev pub timeout_sent : Option ℕ → SendPacketBuffer PacketId → SendPacketBuffer PacketId
  timeout_sent none s = s
  timeout_sent (some max_missed_acks) s = SendBuffer.timeout_packets s max_missed_acks

  abbrev pub timeout_received :
      Option ℕ → ℕ → ReceivePacketBuffer PacketId → ReceivePacketBuffer PacketId
  timeout_received none now r = r
  timeout_received (some receive_timeout) now r =
      ReceiveBuffer.timeout_packets r receive_timeout now

  unfoldable pub timeout_packets :
      PacketBuffers PacketId → Option ℕ → Option ℕ → ℕ → PacketBuffers PacketId
  timeout_packets b max_missed_acks receive_timeout now = record {
    send_buffer = timeout_sent max_missed_acks b.send_buffer;
    receive_buffer = timeout_received receive_timeout now b.receive_buffer;
  }

  unfoldable pub update :
      PacketBuffers PacketId
      → ℕ
      → Option ℕ
      → Option ℕ
      → NonBlockingUdpSocket
      → ℕ
      → Result IoError (Unit {0}) × PacketBuffers PacketId × NonBlockingUdpSocket
  update b resend_delay max_missed_acks receive_timeout socket now =
      let b' = timeout_packets b max_missed_acks receive_timeout now in
      let (r, s, socket') = SendBuffer.send_pending b'.send_buffer resend_delay socket now in
      (r, record b' { send_buffer = s }, socket')
