-- ===== src/Packet/Arrivals/Resending.antt =====
-- The datagrams that have come in, where packets of src/packet.rs are sent again.
use packet_test.Common.{ℕ, refl, ◌∙◌, arith, [], ◌∷◌, Option, ok}
use packet_test.Common.Dict.{Ord, Dict}
use packet_test.Socket.{NonBlockingUdpSocket, send}
use packet_test.Packet.Kind.{Uuid}
use packet_test.Packet.Frame.{done}
use packet_test.Packet.Queue.{send_unacked, unacked}
use packet_test.Packet.Out
use packet_test.Packet.Out.{PacketOut, send_batch, balance_batch_size}
use packet_test.Packet.SendBuffer
use packet_test.Packet.SendBuffer.{SendPacketBuffer, Sweep, visit, sweep}
use packet_test.Packet.Buffers
use packet_test.Packet.Buffers.{PacketBuffers}
use packet_test.Packet.Arrivals.{SameArrivals, send_each_arrivals}

module _ {PacketId : Type 0} ⦃o : Ord PacketId⦄ ⦃u : Uuid PacketId⦄ where
  send_pending_arrivals :
      (p : PacketOut) (id : PacketId) (resend_delay : ℕ) (s : NonBlockingUdpSocket) (now : ℕ)
      → SameArrivals s (Out.send_pending p id resend_delay s now).2
  unfolding Out.send_pending send_batch send_unacked done send
  send_pending_arrivals p id resend_delay s now =
      let batch_size = balance_batch_size p.batch_size p.last_batch_acks p.last_batch_size in
      ground (arith, send_each_arrivals (unacked p.packet_queue batch_size).0 0 s)

  visit_arrivals :
      (id : PacketId) (p : PacketOut) (resend_delay now : ℕ) (w : Sweep)
      → SameArrivals w.socket (Sweep.socket (visit id p resend_delay now w).1)
  unfolding visit
  visit_arrivals id p resend_delay now w =
      ground (arith, send_pending_arrivals p id resend_delay w.socket now)

  sweep_arrivals :
      (m : Dict PacketId PacketOut) (resend_delay now : ℕ) (w : Sweep)
      → SameArrivals w.socket (Sweep.socket (sweep m resend_delay now w).1)
  unfolding sweep
  sweep_arrivals [] resend_delay now w = refl
  sweep_arrivals ((id, p) ∷ m) resend_delay now w =
      sweep_arrivals m resend_delay now (visit id p resend_delay now w).1
      ∙ visit_arrivals id p resend_delay now w

  pub buffers_update_arrivals :
      (b : PacketBuffers PacketId) (resend_delay : ℕ) (max_missed_acks receive_timeout : Option ℕ)
      (s : NonBlockingUdpSocket) (now : ℕ)
      → SameArrivals s (Buffers.update b resend_delay max_missed_acks receive_timeout s now).2
  unfolding Buffers.update SendBuffer.send_pending
  buffers_update_arrivals b resend_delay max_missed_acks receive_timeout s now =
      sweep_arrivals
        (Buffers.timeout_packets b max_missed_acks receive_timeout now).send_buffer.packets
        resend_delay now (record { batch_size = 0; count = 0; result = ok tt; socket = s })
