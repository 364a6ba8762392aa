-- ===== src/Packet/Exchange/Steps.antt =====
-- The single steps of a packet of one part, at the level of `PacketBuffers` of src/packet.rs.
use packet_test.Common.{
  ℕ, ◌+◌, ◌≤◌, ◌≡◌, List, [], ◌∷◌, arith, Option, none, some, ok, true, false, length,
}
use packet_test.Common.Dict.{Ord, get, insert, retain}
use packet_test.Socket
use packet_test.Socket.{NonBlockingUdpSocket, IoError}
use packet_test.Packet.Kind.{Uuid, last_part}
use packet_test.Packet.Frame.{frame, ack, ack_bytes, done_bytes}
use packet_test.Packet.Buffer.{PacketBuffer}
use packet_test.Packet.Serialize.VecRun.{flat}
use packet_test.Packet.Reassemble.{reassembled}
use packet_test.Packet.Out
use packet_test.Packet.Out.{PacketOut}
use packet_test.Packet.SendBuffer
use packet_test.Packet.SendBuffer.{SendPacketBuffer, sweep, visit}
use packet_test.Packet.ReceiveBuffer.{done}
use packet_test.Packet.ReceiveBuffer.Single.{
  handle-frame, handle-done_bytes, receive_first, recorded, get-recorded, acking_ok,
}
use packet_test.Packet.Buffers.{
  PacketBuffers, received, finished, acked, send, handle, update, timeout_packets,
}
use packet_test.Packet.Buffers.Dispatch.{ack_dispatch}
use packet_test.Packet.Exchange.Sender.{
  Carries, Underway, Acked, send-Underway, ack-Acked, serialize_packet-single, send_pending-Acked,
}

module _ {PacketId : Type 0} ⦃o : Ord PacketId⦄ ⦃u : Uuid PacketId⦄ where
  -- The sender, which has no other packet under way.
  pub send-single :
      (a : PacketBuffers PacketId) (id : PacketId) (writes : List (List ℕ)) (threshold : ℕ)
      (socket : NonBlockingUdpSocket) (now : ℕ)
      → length (flat writes) ≤ 491
      → 1 ≤ a.send_buffer.batch_size
      → (Socket.send socket (frame last_part id 0 (flat writes))).0 ≡ ok true
      → (p : PacketOut) × (b : PacketBuffer) × (send a id writes threshold socket now
          ≡ some (
            ok id,
            record a {
              send_buffer = record a.send_buffer { packets = insert id p a.send_buffer.packets };
            },
            (Socket.send socket (frame last_part id 0 (flat writes))).1,
          ))
        × Underway p b now 0
        × Carries b (frame last_part id 0 (flat writes))
  unfolding send SendBuffer.send
  send-single a id writes threshold socket now short some_size sent =
      let (packet, b, ran, alone, carries) = serialize_packet-single id threshold writes short in
      let (p, out, under) =
        send-Underway packet b (frame last_part id 0 (flat writes)) socket a.send_buffer.batch_size
          now alone carries some_size sent in
      (p, b, ground (arith, ran, out), under, carries)

  -- The receiver of a new packet hands it over and acks it.
  pub handle-single :
      (b : PacketBuffers PacketId) (id : PacketId) (payload : List ℕ)
      (socket : NonBlockingUdpSocket) (now : ℕ) (fresh : get id b.receive_buffer.packets ≡ none)
      → (Socket.send socket (ack_bytes id 0)).0 ≡ ok true
      → handle b (frame last_part id 0 payload) socket now
        ≡ some (
          ok (received (reassembled payload)),
          record b { receive_buffer = recorded b.receive_buffer id payload socket now fresh },
          (Socket.send socket (ack_bytes id 0)).1,
        )
  unfolding handle ack frame
  handle-single b id payload socket now fresh sent = ground (
    arith,
    handle-frame b.receive_buffer true id 0 payload socket now (omega arith),
    receive_first b.receive_buffer id payload socket now fresh,
    acking_ok id (reassembled payload) (recorded b.receive_buffer id payload socket now fresh)
        socket (ground (arith, sent)),
    sent,
  )

  -- The sender hears the ack of a packet under way, where the packets stay as they are but for that.
  pub handle-ack_single :
      (a : PacketBuffers PacketId) (id : PacketId) (p : PacketOut) (b : PacketBuffer) (sent : ℕ)
      (socket : NonBlockingUdpSocket) (now : ℕ)
      → get id a.send_buffer.packets ≡ some p
      → Underway p b sent 0
      → b.acked ≡ false
      → handle a (ack_bytes id 0) socket now
        ≡ some (
          ok (acked false),
          record a {
            send_buffer = record a.send_buffer {
              packets = insert id (Out.ack p 0).1 a.send_buffer.packets;
            };
          },
          socket,
        )
  unfolding SendBuffer.ack
  handle-ack_single a id p b sent socket now found under fresh =
      let (result, after) = ack-Acked p b sent 0 under fresh in
      ground (arith, ack_dispatch a id 0 socket now (omega arith), found, result)

  send_pending-single :
      (s : SendPacketBuffer PacketId) (id : PacketId) (p : PacketOut) (sent delay : ℕ)
      (socket : NonBlockingUdpSocket) (now : ℕ)
      → s.packets ≡ (id, p) ∷ []
      → Acked p sent
      → sent + delay ≤ now
      → (Socket.send socket (done_bytes id)).0 ≡ ok true
      → ((SendBuffer.send_pending s delay socket now).0 ≡ ok tt)
        × ((SendBuffer.send_pending s delay socket now).1.packets ≡ [])
        × ((SendBuffer.send_pending s delay socket now).2 ≡ (Socket.send socket (done_bytes id)).1)
  unfolding SendBuffer.send_pending sweep visit
  send_pending-single s id p sent delay socket now only h late taken =
      let (result, after) = send_pending-Acked p id sent delay socket now h late taken in
      (
        ground (arith, only, result),
        ground (arith, only, result),
        ground (arith, only, result, after),
      )

  timeout_packets-single :
      (a : PacketBuffers PacketId) (id : PacketId) (p : PacketOut)
      (max_missed_acks receive_timeout : Option ℕ) (now : ℕ)
      → a.send_buffer.packets ≡ (id, p) ∷ []
      → p.missed_acks ≡ 0
      → (timeout_packets a max_missed_acks receive_timeout now).send_buffer.packets ≡ (id, p) ∷ []
  unfolding timeout_packets SendBuffer.timeout_packets retain
  timeout_packets-single a id p none receive_timeout now only none_missed = only
  timeout_packets-single a id p (some n) receive_timeout now only none_missed =
      ground (arith, only, none_missed)

  -- After the delay the sender is done with its only packet.
  pub update-single :
      (a : PacketBuffers PacketId) (id : PacketId) (p : PacketOut) (sent delay : ℕ)
      (max_missed_acks receive_timeout : Option ℕ) (socket : NonBlockingUdpSocket) (now : ℕ)
      → a.send_buffer.packets ≡ (id, p) ∷ []
      → Acked p sent
      → sent + delay ≤ now
      → (Socket.send socket (done_bytes id)).0 ≡ ok true
      → (a' : PacketBuffers PacketId) × (update a delay max_missed_acks receive_timeout socket now
          ≡ (ok tt, a', (Socket.send socket (done_bytes id)).1))
        × (a'.send_buffer.packets ≡ [])
  unfolding update
  update-single a id p sent delay max_missed_acks receive_timeout socket now only h late taken =
      let kept =
        timeout_packets-single a id p max_missed_acks receive_timeout now only h.missed_acks in
      let (result, empty, after) =
        send_pending-single (timeout_packets a max_missed_acks receive_timeout now).send_buffer id p
          sent delay socket now kept h late taken in
      ((update a delay max_missed_acks receive_timeout socket now).1, cc, empty)

  -- The receiver that knows the packet forgets it.
  pub handle_done-single :
      (b : PacketBuffers PacketId) (id : PacketId) (payload : List ℕ)
      (at_receive : NonBlockingUdpSocket) (received_at : ℕ) (socket : NonBlockingUdpSocket)
      (now : ℕ) (fresh : get id b.receive_buffer.packets ≡ none)
      → (b' : PacketBuffers PacketId) × (handle
            (record b {
              receive_buffer = recorded b.receive_buffer id payload at_receive received_at fresh;
            })
            (done_bytes id)
            socket
            now
          ≡ some (ok (finished true), b', socket))
        × (get id b'.receive_buffer.packets ≡ none)
  unfolding handle done_bytes done
  handle_done-single b id payload at_receive received_at socket now fresh =
      let there = recorded b.receive_buffer id payload at_receive received_at fresh in
      let known = get-recorded b.receive_buffer id payload at_receive received_at fresh in
      let (handled, forgets) = handle-done_bytes there id socket now in
      (
        record b { receive_buffer = (done there id).1 },
        ground (arith, handled, known),
        ground (arith, forgets id, o.beq_iff id id),
      )
