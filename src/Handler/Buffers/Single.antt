-- ===== src/Handler/Buffers/Single.antt =====
-- The datagrams of a packet of one part, as server and client of src/net/ hand them to the buffers.
use packet_test.Common.{
  ℕ, ◌≡◌, ◌≤◌, refl, arith, List, [], ◌∷◌, ◌++◌, Option, none, some, ok, true, false, length,
  append_assoc,
}
use packet_test.Common.Dict.{Ord, get, insert, get-insert}
use packet_test.Socket
use packet_test.Socket.{SocketAddr, UdpSocket, NonBlockingUdpSocket, send_quiet}
use packet_test.Handler.{Report, raw_packet, RawPacket, PartInfo}
use packet_test.Handler.Buffers.{handle_buffers, report_handling, report_part, validated}
use packet_test.Packet.Kind.{Uuid, last_part}
use packet_test.Packet.Frame.{frame, ack_bytes}
use packet_test.Packet.Buffer.{PacketBuffer}
use packet_test.Packet.Serialize.VecRun.{flat}
use packet_test.Packet.Out
use packet_test.Packet.Out.{PacketOut}
use packet_test.Packet.Buffers
use packet_test.Packet.Buffers.{PacketBuffers}
use packet_test.Packet.ReceiveBuffer.Single.{recorded}
use packet_test.Packet.Exchange.Steps.{send-single, handle-single, handle-ack_single}
use packet_test.Packet.Exchange.Sender.{Underway}

-- What a socket that has taken everything so far looks like after some more datagrams.
pub record Took (before after : UdpSocket) (more : List (SocketAddr × List ℕ)) : Type 0 where
  pub log : after.sent ≡ before.sent ++ more
  pub ready : after.answers ≡ []

send-Took :
    (socket : UdpSocket) (addr : SocketAddr) (buf : List ℕ)
    → socket.answers ≡ []
    → (socket' : NonBlockingUdpSocket) × (Socket.send (record { socket = socket; addr = addr }) buf
        ≡ (ok true, socket'))
      × Took socket socket'.socket ((addr, buf) ∷ [])
send-Took socket addr buf quiet =
    let s : NonBlockingUdpSocket = record { socket = socket; addr = addr } in
    let (taken, ready, log) = send_quiet s buf quiet in
    ((Socket.send s buf).1, cc, record { log = log; ready = ready })

-- The reports of a packet that came in one datagram.
abbrev pub arrival : {PacketId : Type 0} → SocketAddr → List (Report PacketId)
arrival addr = raw_packet (RawPacket.part addr PartInfo.reassembled) ∷ []

pub Took-append :
    {s₀ s₁ s₂ : UdpSocket} (first second : List (SocketAddr × List ℕ))
    → Took s₀ s₁ first
    → Took s₁ s₂ second
    → Took s₀ s₂ (first ++ second)
Took-append {s₀} {s₁} {s₂} first second h k = record {
  log = ground (arith, h.log, k.log, append_assoc s₀.sent first second);
  ready = k.ready;
}

module _ {A PacketId : Type 0} ⦃o : Ord PacketId⦄ ⦃u : Uuid PacketId⦄ where
  -- A new packet of one part is validated, and acked.
  pub handle_buffers-single :
      (check : List ℕ → Option A) (b : PacketBuffers PacketId) (id : PacketId) (payload : List ℕ)
      (packet : A) (socket : UdpSocket) (addr : SocketAddr) (now : ℕ)
      → check payload ≡ some packet
      → get id b.receive_buffer.packets ≡ none
      → socket.answers ≡ []
      → (b' : PacketBuffers PacketId) × (socket' : UdpSocket) × (handle_buffers check b
            (frame last_part id 0 payload)
            socket
            addr
            now
          ≡ some ((some packet, arrival addr), b', socket'))
        × (b'.send_buffer ≡ b.send_buffer)
        × Took socket socket' ((addr, ack_bytes id 0) ∷ [])
  unfolding handle_buffers report_handling report_part validated
  handle_buffers-single check b id payload packet socket addr now valid fresh quiet =
      let s : NonBlockingUdpSocket = record { socket = socket; addr = addr } in
      let (s', sent, took) = send-Took socket addr (ack_bytes id 0) quiet in
      (
        record b { receive_buffer = recorded b.receive_buffer id payload s now fresh },
        s'.socket,
        ground (arith, handle-single b id payload s now fresh (ground (arith, sent)), sent, valid),
        refl,
        took,
      )

  -- The ack of such a packet is reported, and nothing is sent.
  pub handle_buffers-ack_single :
      (check : List ℕ → Option A) (b : PacketBuffers PacketId) (id : PacketId) (p : PacketOut)
      (buffer : PacketBuffer) (sent : ℕ) (socket : UdpSocket) (addr : SocketAddr) (now : ℕ)
      → get id b.send_buffer.packets ≡ some p
      → Underway p buffer sent 0
      → buffer.acked ≡ false
      → (b' : PacketBuffers PacketId) × (handle_buffers check b (ack_bytes id 0) socket addr now
          ≡ some ((none, raw_packet (RawPacket.ack addr false) ∷ []), b', socket))
        × (b'.receive_buffer ≡ b.receive_buffer)
        × (b'.send_buffer.batch_size ≡ b.send_buffer.batch_size)
  unfolding handle_buffers report_handling
  handle_buffers-ack_single check b id p buffer sent socket addr now found under unacked =
      let s : NonBlockingUdpSocket = record { socket = socket; addr = addr } in
      (
        record b {
          send_buffer = record b.send_buffer {
            packets = insert id (Out.ack p 0).1 b.send_buffer.packets;
          };
        },
        ground (arith, handle-ack_single b id p buffer sent s now found under unacked),
        refl,
        refl,
      )

module _ {PacketId : Type 0} ⦃o : Ord PacketId⦄ ⦃u : Uuid PacketId⦄ where
  -- A packet of one part goes out, and is under way.
  pub send-single_Took :
      (b : PacketBuffers PacketId) (id : PacketId) (writes : List (List ℕ)) (threshold : ℕ)
      (socket : UdpSocket) (addr : SocketAddr) (now : ℕ)
      → length (flat writes) ≤ 491
      → 1 ≤ b.send_buffer.batch_size
      → socket.answers ≡ []
      → (b' : PacketBuffers PacketId) × (socket' : NonBlockingUdpSocket) × (p : PacketOut)
        × (buffer : PacketBuffer) × (Buffers.send b id writes threshold
              (record { socket = socket; addr = addr })
              now
            ≡ some (ok id, b', socket'))
        × (b'.receive_buffer ≡ b.receive_buffer)
        × (get id b'.send_buffer.packets ≡ some p)
        × Underway p buffer now 0
        × (buffer.acked ≡ false)
        × Took socket socket'.socket ((addr, frame last_part id 0 (flat writes)) ∷ [])
  send-single_Took b id writes threshold socket addr now short some_size quiet =
      let s : NonBlockingUdpSocket = record { socket = socket; addr = addr } in
      let (s', sent, took) = send-Took socket addr (frame last_part id 0 (flat writes)) quiet in
      let (p, buffer, out, under, carries) =
        send-single b id writes threshold s now short some_size (ground (arith, sent)) in
      (
        record b {
          send_buffer = record b.send_buffer { packets = insert id p b.send_buffer.packets };
        },
        s',
        p,
        buffer,
        ground (arith, out, sent),
        refl,
        ground (arith, get-insert id id p b.send_buffer.packets, o.beq_iff id id),
        under,
        carries.fresh,
        took,
      )
