-- ===== src/Packet/Exchange.antt =====
-- The life of a packet of one part between two `PacketBuffers` of src/packet.rs.
pub mod Sender
pub mod Steps
pub mod Resends
mod Tests
use packet_test.Common.{
  ℕ, zero, suc, ◌+◌, ◌≤◌, ◌≡◌, refl, ap, ◌∙◌, sym, List, [], ◌∷◌, arith, Option, none, some, Result,
  ok, err, Bool, true, false, length, leb, Option-cases, inl, inr,
}
use packet_test.Common.Dict.{Ord, Dict, get, insert, remove, retain, get-insert, get-remove}
use packet_test.Socket
use packet_test.Socket.{NonBlockingUdpSocket, IoError}
use packet_test.Packet.Kind.{Uuid, last_part}
use packet_test.Packet.Frame.{frame, ack, ack_bytes, done_bytes}
use packet_test.Packet.Buffer.{PacketBuffer}
use packet_test.Packet.Serialize.{SerializedPacket}
use packet_test.Packet.Serialize.VecRun.{flat}
use packet_test.Packet.Reassemble.{ReceivedPacket, reassembled, duplicate}
use packet_test.Packet.Out
use packet_test.Packet.Out.{PacketOut}
use packet_test.Packet.SendBuffer
use packet_test.Packet.SendBuffer.{SendPacketBuffer, sweep, visit}
use packet_test.Packet.ReceiveBuffer
use packet_test.Packet.ReceiveBuffer.{ReceivePacketBuffer, done}
use packet_test.Packet.ReceiveBuffer.Single.{
  handle-frame, handle-done_bytes, receive_first, recorded, get-recorded, acking_ok,
}
use packet_test.Packet.Buffers.{
  PacketBuffers, received, finished, acked, send, handle, update, timeout_packets,
}
use packet_test.Packet.Buffers.Dispatch.{answered, ack_dispatch}
use packet_test.Packet.Exchange.Sender.{
  Carries, Underway, Acked, send-Underway, ack-Acked, serialize_packet-single, send_pending-Acked,
}
use packet_test.Packet.Exchange.Steps.{
  send-single, handle-single, handle-ack_single, update-single, handle_done-single,
}

module _ {PacketId : Type 0} ⦃o : Ord PacketId⦄ ⦃u : Uuid PacketId⦄ where
  -- The life of a packet that fits one part, between a sender with no other packet under way and a
  -- receiver that does not know its id, where the sockets take the datagrams and the sender's batch
  -- size is positive. Sending gives the id and puts one datagram on the wire; the receiver hands the
  -- packet's bytes over, all of them, and sends one ack; the sender takes that ack as a new one; at
  -- the first update after the delay, counted from the sending, it sends one `Done` and has no
  -- packet left, whatever the timeouts are; and the receiver then forgets the id.
  pub packet_life :
      (a b : PacketBuffers PacketId) (id : PacketId) (writes : List (List ℕ)) (threshold : ℕ)
      (at_send at_receive at_ack at_update at_done : NonBlockingUdpSocket)
      (sent received_at acked_at delay updated_at finished_at : ℕ)
      (max_missed_acks receive_timeout : Option ℕ)
      → length (flat writes) ≤ 491
      → 1 ≤ a.send_buffer.batch_size
      → a.send_buffer.packets ≡ []
      → get id b.receive_buffer.packets ≡ none
      → (Socket.send at_send (frame last_part id 0 (flat writes))).0 ≡ ok true
      → (Socket.send at_receive (ack_bytes id 0)).0 ≡ ok true
      → sent + delay ≤ updated_at
      → (Socket.send at_update (done_bytes id)).0 ≡ ok true
      → (d : List ℕ) × (a₁ a₂ a₃ b₁ b₂ : PacketBuffers PacketId) × (send a id writes threshold
            at_send sent
          ≡ some (ok id, a₁, (Socket.send at_send d).1))
        × (handle b d at_receive received_at
            ≡ some (
              ok (received (reassembled (flat writes))),
              b₁,
              (Socket.send at_receive (ack_bytes id 0)).1,
            ))
        × (handle a₁ (ack_bytes id 0) at_ack acked_at ≡ some (ok (acked false), a₂, at_ack))
        × (update a₂ delay max_missed_acks receive_timeout at_update updated_at
            ≡ (ok tt, a₃, (Socket.send at_update (done_bytes id)).1))
        × (a₃.send_buffer.packets ≡ [])
        × (handle b₁ (done_bytes id) at_done finished_at ≡ some (ok (finished true), b₂, at_done))
        × (get id b₂.receive_buffer.packets ≡ none)
  unfolding get insert
  packet_life a b id writes threshold at_send at_receive at_ack at_update at_done sent received_at
        acked_at delay updated_at finished_at max_missed_acks receive_timeout short some_size idle
        fresh taken ack_taken late done_taken =
      let (p, buffer, out, under, carries) =
        send-single a id writes threshold at_send sent short some_size taken in
      let a₁ : PacketBuffers PacketId = record a {
        send_buffer = record a.send_buffer { packets = insert id p a.send_buffer.packets };
      } in
      let only : a₁.send_buffer.packets ≡ (id, p) ∷ [] = ap (insert id p) idle in
      let a₂ : PacketBuffers PacketId = record a {
        send_buffer = record a.send_buffer { packets = (id, (Out.ack p 0).1) ∷ [] };
      } in
      let same = (o.beq_iff id id).1 refl in
      let (a₃, updated, empty) =
        update-single a₂ id (Out.ack p 0).1 sent delay max_missed_acks receive_timeout at_update
          updated_at refl (ack-Acked p buffer sent 0 under carries.fresh).1 late done_taken in
      let (b₂, finishes, forgets) =
        handle_done-single b id (flat writes) at_receive received_at at_done finished_at fresh in
      (
        frame last_part id 0 (flat writes),
        a₁,
        a₂,
        a₃,
        record b {
          receive_buffer = recorded b.receive_buffer id (flat writes) at_receive received_at fresh;
        },
        b₂,
        out,
        handle-single b id (flat writes) at_receive received_at fresh ack_taken,
        handle-ack_single a₁ id p buffer sent at_ack acked_at (ground (arith, only, same)) under
              carries.fresh
            ∙ ground (arith, only, same),
        updated,
        empty,
        finishes,
        forgets,
      )
