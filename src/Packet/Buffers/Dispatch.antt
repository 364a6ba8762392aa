-- ===== src/Packet/Buffers/Dispatch.antt =====
-- Which of the two buffers a datagram goes to.
use packet_test.Common.{
  ℕ, ◌^◌, ◌<◌, ◌≡◌, refl, arith, List, ◌∷◌, ◌++◌, none, some, Result, ok, err, Bool, ◌⊎◌, inl, inr,
  Result-split,
}
use packet_test.Common.Bytes.{to_le_bytes}
use packet_test.Common.Dict.{Ord}
use packet_test.Socket.{NonBlockingUdpSocket}
use packet_test.Packet.Kind.{PacketKind, Uuid, from_byte, to_byte}
use packet_test.Packet.Error.{HandlePacketError, PacketAckErrorKind, unexpected_kind, ack_error}
use packet_test.Packet.Frame.{ack_bytes}
use packet_test.Packet.SendBuffer
use packet_test.Packet.SendBuffer.{SendPacketBuffer, SentPacketHandling}
use packet_test.Packet.SendBuffer.Acks.{handle-ack_bytes}
use packet_test.Packet.ReceiveBuffer
use packet_test.Packet.ReceiveBuffer.{ReceivePacketBuffer, ReceivedPacketHandling}
use packet_test.Packet.Buffers.{PacketBuffers, PacketHandling, acked, handle_sent, handle}

-- A first byte that neither buffer takes.
abbrev pub IsForeign : ℕ → Type 0
IsForeign kind =
    (from_byte kind ≡ none)
    ⊎ ((from_byte kind ≡ some PacketKind.version)
        ⊎ ((from_byte kind ≡ some PacketKind.ping)
            ⊎ (from_byte kind ≡ some PacketKind.first_update)))

module _ {PacketId : Type 0} ⦃o : Ord PacketId⦄ ⦃u : Uuid PacketId⦄ where
  receive_foreign :
      (r : ReceivePacketBuffer PacketId) (kind : ℕ) (rest : List ℕ) (socket : NonBlockingUdpSocket)
      (now : ℕ)
      → IsForeign kind
      → ReceiveBuffer.handle r (kind ∷ rest) socket now
        ≡ some (ok ReceivedPacketHandling.unhandled, r, socket)
  unfolding ReceiveBuffer.handle
  receive_foreign r kind rest socket now h = ground (arith, h)

  send_foreign :
      (s : SendPacketBuffer PacketId) (kind : ℕ) (rest : List ℕ)
      → IsForeign kind
      → SendBuffer.handle s (kind ∷ rest) ≡ some (ok SentPacketHandling.unhandled, s)
  unfolding SendBuffer.handle
  send_foreign s kind rest h = ground (arith, h)

  -- A datagram of another kind, or of no kind, is answered with the error that names its first byte, and
  -- neither the buffers nor the socket change.
  pub handle_foreign :
      (b : PacketBuffers PacketId) (kind : ℕ) (rest : List ℕ) (socket : NonBlockingUdpSocket)
      (now : ℕ)
      → IsForeign kind
      → handle b (kind ∷ rest) socket now ≡ some (err (unexpected_kind kind), b, socket)
  unfolding handle handle_sent
  handle_foreign b kind rest socket now h = ground (
    arith,
    receive_foreign b.receive_buffer kind rest socket now h,
    send_foreign b.send_buffer kind rest h,
  )

  -- What the answer of the send buffer becomes.
  abbrev pub answered :
      PacketId → Result PacketAckErrorKind Bool → Result (HandlePacketError PacketId) PacketHandling
  answered id (ok duplicate) = ok (acked duplicate)
  answered id (err kind) = err (ack_error (record { id = id; kind = kind }))

  receive_ack :
      (r : ReceivePacketBuffer PacketId) (rest : List ℕ) (socket : NonBlockingUdpSocket) (now : ℕ)
      → ReceiveBuffer.handle r (4 ∷ rest) socket now
        ≡ some (ok ReceivedPacketHandling.unhandled, r, socket)
  unfolding ReceiveBuffer.handle from_byte
  receive_ack r rest socket now = refl

  -- The ack that the peer lays out for a part, with an index below 2^32, acks that part of that
  -- packet in the send buffer, and touches neither the receive buffer nor the socket: no ack is
  -- acked.
  pub ack_dispatch :
      (b : PacketBuffers PacketId) (id : PacketId) (seq_index : ℕ) (socket : NonBlockingUdpSocket)
      (now : ℕ)
      → seq_index < 2 ^ 32
      → let (r, s) = SendBuffer.ack b.send_buffer id seq_index in
        handle b (ack_bytes id seq_index) socket now
        ≡ some (answered id r, record b { send_buffer = s }, socket)
  unfolding handle handle_sent ack_bytes to_byte
  ack_dispatch b id seq_index socket now small =
      elim (Result-split (SendBuffer.ack b.send_buffer id seq_index).0) [
        | inl (x, bad) ↦ ground (
          arith,
          bad,
          receive_ack b.receive_buffer (u.as_bytes id ++ to_le_bytes 4 seq_index) socket now,
          handle-ack_bytes b.send_buffer id seq_index small,
        )
        | inr (x, good) ↦ ground (
          arith,
          good,
          receive_ack b.receive_buffer (u.as_bytes id ++ to_le_bytes 4 seq_index) socket now,
          handle-ack_bytes b.send_buffer id seq_index small,
        )
      ]
