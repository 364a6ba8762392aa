-- ===== src/Handler/Buffers.antt =====
-- How server and client hand a datagram to the buffers of its sender: `handle_buffers` of
-- src/net/server.rs, and the same lines of `update` in src/net/client.rs.
pub mod Arrivals
pub mod Single
pub mod Panics
use packet_test.Common.{ℕ, List, [], ◌∷◌, Option, none, some, Result, ok, err, Bool}
use packet_test.Common.Dict.{Ord}
use packet_test.Socket.{SocketAddr, UdpSocket}
use packet_test.Packet.Kind.{Uuid}
use packet_test.Packet.Error.{HandlePacketError}
use packet_test.Packet.Serialize.{Panicking}
use packet_test.Packet.Reassemble.{ReceivedPacket}
use packet_test.Packet.Buffers
use packet_test.Packet.Buffers.{PacketBuffers, PacketHandling}
use packet_test.Handler.{
  PartInfo, RawPacket, HandlerError, Report, raw_packet, error, packet_validation,
}

-- What a datagram comes to: a validated packet, if it completed one, and the reports.
abbrev pub Seen : Type 0 → Type 0 → Type 0
Seen A PacketId = Option A × List (Report PacketId)

module _ {A PacketId : Type 0} where
  unfoldable pub validated : SocketAddr → Option A → Seen A PacketId
  validated addr none = (none, error (packet_validation addr) ∷ [])
  validated addr (some packet) = (some packet, [])

  -- `check` is `check_archived_root`.
  unfoldable pub report_part : (List ℕ → Option A) → SocketAddr → ReceivedPacket → Seen A PacketId
  report_part check addr ReceivedPacket.pending =
      (none, raw_packet (RawPacket.part addr PartInfo.pending) ∷ [])
  report_part check addr ReceivedPacket.duplicate =
      (none, raw_packet (RawPacket.part addr PartInfo.duplicate) ∷ [])
  report_part check addr (ReceivedPacket.reassembled bytes) =
      let (packet, errors) : Seen A PacketId = validated addr (check bytes) in
      (packet, raw_packet (RawPacket.part addr PartInfo.reassembled) ∷ errors)

  unfoldable pub report_handling :
      (List ℕ → Option A)
      → SocketAddr
      → Result (HandlePacketError PacketId) PacketHandling
      → Seen A PacketId
  report_handling check addr (err e) = (none, error (HandlerError.handle addr e) ∷ [])
  report_handling check addr (ok (PacketHandling.received part)) = report_part check addr part
  report_handling check addr (ok (PacketHandling.finished known)) =
      (none, raw_packet (RawPacket.done addr known) ∷ [])
  report_handling check addr (ok (PacketHandling.acked duplicate)) =
      (none, raw_packet (RawPacket.ack addr duplicate) ∷ [])

module _ {A PacketId : Type 0} ⦃o : Ord PacketId⦄ ⦃u : Uuid PacketId⦄ where
  unfoldable pub handle_buffers :
      (List ℕ → Option A)
      → PacketBuffers PacketId
      → List ℕ
      → UdpSocket
      → SocketAddr
      → ℕ
      → Panicking (Seen A PacketId × PacketBuffers PacketId × UdpSocket)
  handle_buffers check buffers buf socket addr now =
      elim (Buffers.handle buffers buf (record { socket = socket; addr = addr }) now) [
        | none ↦ none
        | some (r, buffers', socket') ↦
            some (report_handling check addr r, buffers', socket'.socket)
      ]
