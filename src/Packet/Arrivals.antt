-- ===== src/Packet/Arrivals.antt =====
-- The datagrams that have come in, where packets of src/packet.rs are sent and handled.
pub mod Resending
use packet_test.Common.{
  ℕ, ◌+◌, ◌≡◌, refl, arith, List, [], ◌∷◌, Option, none, some, Bool, true, false, Option-cases, inl,
  inr,
}
use packet_test.Common.Dict.{Ord}
use packet_test.Socket.{NonBlockingUdpSocket, send}
use packet_test.Packet.Kind.{Uuid}
use packet_test.Packet.Frame
use packet_test.Packet.Frame.{ack_bytes, seq_index_of, payload_of, id_of}
use packet_test.Packet.Serialize.{SerializedPacket, serialize_packet}
use packet_test.Packet.Reassemble.{ReceivedPacket}
use packet_test.Packet.Queue.{send_each, send_unacked}
use packet_test.Packet.Out
use packet_test.Packet.SendBuffer
use packet_test.Packet.SendBuffer.{SendPacketBuffer}
use packet_test.Packet.ReceiveBuffer
use packet_test.Packet.ReceiveBuffer.{
  ReceivePacketBuffer, acking, receive_single, receive_part, handle_part, handle_done, handled_part,
  touched,
}
use packet_test.Packet.Buffers
use packet_test.Packet.Buffers.{PacketBuffers, handle_sent}

-- A socket with the same arrivals.
abbrev pub SameArrivals : NonBlockingUdpSocket → NonBlockingUdpSocket → Type 0
SameArrivals s s' = s'.socket.arrivals ≡ s.socket.arrivals

-- The same of the socket that an operation leaves, if it does not panic.
abbrev pub LeavesArrivals :
    {A B : Type 0} → NonBlockingUdpSocket → Option (A × B × NonBlockingUdpSocket) → Type 0
LeavesArrivals s none = Unit
LeavesArrivals s (some (a, b, s')) = SameArrivals s s'

send_arrivals : (s : NonBlockingUdpSocket) (buf : List ℕ) → SameArrivals s (send s buf).1
unfolding send
send_arrivals s buf = refl

pub send_each_arrivals :
    (bufs : List (List ℕ)) (count : ℕ) (s : NonBlockingUdpSocket)
    → SameArrivals s (send_each bufs count s).1
unfolding send_each
send_each_arrivals [] count s = refl
send_each_arrivals (buf ∷ bufs) count s =
    ground (arith, send_arrivals s buf, send_each_arrivals bufs (count + 1) (send s buf).1)

out_send_arrivals :
    (packet : SerializedPacket) (s : NonBlockingUdpSocket) (n now : ℕ)
    → SameArrivals s (Out.send packet s n now).1
unfolding Out.send send_unacked
out_send_arrivals packet s n now = send_each_arrivals _ 0 s

module _ {PacketId : Type 0} ⦃o : Ord PacketId⦄ ⦃u : Uuid PacketId⦄ where
  send_buffer_arrivals :
      (b : SendPacketBuffer PacketId) (id : PacketId) (writes : List (List ℕ)) (threshold : ℕ)
      (s : NonBlockingUdpSocket) (now : ℕ)
      → LeavesArrivals s (SendBuffer.send b id writes threshold s now)
  unfolding SendBuffer.send
  send_buffer_arrivals b id writes threshold s now =
      elim (Option-cases (serialize_packet id threshold writes none)) [
        | inl panics ↦ ground (arith, panics)
        | inr (packet, e) ↦ ground (arith, e, out_send_arrivals packet s b.batch_size now)
      ]

  -- Sending a packet.
  pub buffers_send_arrivals :
      (b : PacketBuffers PacketId) (id : PacketId) (writes : List (List ℕ)) (threshold : ℕ)
      (s : NonBlockingUdpSocket) (now : ℕ)
      → LeavesArrivals s (Buffers.send b id writes threshold s now)
  unfolding Buffers.send
  buffers_send_arrivals b id writes threshold s now =
      ground (arith, send_buffer_arrivals b.send_buffer id writes threshold s now)

  acking_arrivals :
      (id : PacketId) (seq : ℕ) (a : ReceivedPacket) (b : ReceivePacketBuffer PacketId)
      (s : NonBlockingUdpSocket)
      → SameArrivals s (acking id seq a b s).2
  unfolding acking Frame.ack
  acking_arrivals id seq a b s = send_arrivals s (ack_bytes id seq)

  receive_single_arrivals :
      (b : ReceivePacketBuffer PacketId) (id : PacketId) (seq : ℕ) (payload : List ℕ)
      (s : NonBlockingUdpSocket) (now : ℕ)
      → SameArrivals s (receive_single b id seq payload s now).2
  unfolding receive_single acking Frame.ack
  receive_single_arrivals b id seq payload s now =
      ground (arith, send_arrivals s (ack_bytes id seq))

  receive_part_arrivals :
      (b : ReceivePacketBuffer PacketId) (last : Bool) (id : PacketId) (seq : ℕ) (payload : List ℕ)
      (s : NonBlockingUdpSocket) (now : ℕ)
      → LeavesArrivals s (receive_part b last id seq payload s now)
  unfolding receive_part acking Frame.ack
  receive_part_arrivals b last id seq payload s now =
      ground (arith, send_arrivals s (ack_bytes id seq))

  receive_arrivals :
      (b : ReceivePacketBuffer PacketId) (last : Bool) (id : PacketId) (seq : ℕ) (payload : List ℕ)
      (s : NonBlockingUdpSocket) (now : ℕ)
      → LeavesArrivals s (ReceiveBuffer.receive b last id seq payload s now)
  unfolding ReceiveBuffer.receive
  receive_arrivals b last id seq payload s now = ground (
    arith,
    receive_single_arrivals b id seq payload s now,
    receive_part_arrivals b last id seq payload s now,
  )

  handle_part_arrivals :
      (b : ReceivePacketBuffer PacketId) (last : Bool) (buf : List ℕ) (s : NonBlockingUdpSocket)
      (now : ℕ)
      → LeavesArrivals s (handle_part b last buf s now)
  unfolding handle_part
  handle_part_arrivals b last buf s now = elim (Option-cases (seq_index_of buf)) [
    | inl short ↦ ground (arith, short)
    | inr (seq, h) ↦ elim (Option-cases (payload_of buf)) [
      | inl short ↦ ground (arith, h, short)
      | inr (payload, k) ↦ elim (Option-cases (id_of ⦃u = u⦄ buf)) [
        | inl short ↦ ground (arith, h, k, short)
        | inr (none, l) ↦ ground (arith, h, k, l)
        | inr (some id, l) ↦ ground (arith, h, k, l, receive_arrivals b last id seq payload s now)
      ]
    ]
  ]

  receive_handle_arrivals :
      (b : ReceivePacketBuffer PacketId) (buf : List ℕ) (s : NonBlockingUdpSocket) (now : ℕ)
      → LeavesArrivals s (ReceiveBuffer.handle b buf s now)
  unfolding ReceiveBuffer.handle handle_done
  receive_handle_arrivals b [] s now = refl
  receive_handle_arrivals b (kind ∷ rest) s now = ground (
    arith,
    handle_part_arrivals b false (kind ∷ rest) s now,
    handle_part_arrivals b true (kind ∷ rest) s now,
  )

  -- Handling a datagram.
  pub buffers_handle_arrivals :
      (b : PacketBuffers PacketId) (buf : List ℕ) (s : NonBlockingUdpSocket) (now : ℕ)
      → LeavesArrivals s (Buffers.handle b buf s now)
  unfolding Buffers.handle handle_sent
  buffers_handle_arrivals b [] s now = refl
  buffers_handle_arrivals b (kind ∷ rest) s now =
      ground (arith, receive_handle_arrivals b.receive_buffer (kind ∷ rest) s now)
