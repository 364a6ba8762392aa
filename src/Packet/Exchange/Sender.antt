-- ===== src/Packet/Exchange/Sender.antt =====
-- The sender of a packet that fits one part: src/packet/send.rs and `PacketBuffers::send`,
-- `handle` and `update` of src/packet.rs along its way.
use packet_test.Common.{
  ℕ, ◌+◌, ◌-◌, ◌≤◌, ◌≡◌, refl, ◌∙◌, List, [], ◌∷◌, map, arith, Option, none, some, ok, true, false,
  length, take, length-take, take_all, drop_all, take-nil, drop-nil, Option-cases, inl, inr,
}
use packet_test.Socket.{NonBlockingUdpSocket}
use packet_test.Socket
use packet_test.Packet.Kind.{Uuid, last_part}
use packet_test.Packet.Frame.{frame, done, done_bytes}
use packet_test.Packet.Buffer.{PacketBuffer, as_ref}
use packet_test.Packet.Serialize.{SerializedPacket, vec, channel, serialize_packet}
use packet_test.Packet.Serialize.VecRun.{flat}
use packet_test.Packet.Serialize.Whole.{buffers, serialize_packet-datagrams}
use packet_test.Packet.Queue
use packet_test.Packet.Queue.{
  PacketQueue, not_acked, refill, unacked, send_each, send_unacked, first_unacked_position,
}
use packet_test.Packet.Out
use packet_test.Packet.Out.{PacketOut, elapsed, send_batch, send_pending, balance_batch_size}
use packet_test.Packet.ReceiveBuffer.EndToEnd.{datagrams-short}

-- The one buffer of a packet: its datagram, which is not acked.
pub record Carries (b : PacketBuffer) (d : List ℕ) : Type 0 where
  pub wire : as_ref b ≡ d
  pub fresh : b.acked ≡ false

only :
    (bs : List PacketBuffer) (d : List ℕ)
    → map as_ref bs ≡ d ∷ []
    → not_acked bs ≡ bs
    → (b : PacketBuffer) × (bs ≡ b ∷ []) × Carries b d
unfolding not_acked
only [] d h k = cc
only (b ∷ []) d h k = (b, refl, record { wire = ground arith; fresh = ground arith })
only (b ∷ c ∷ bs) d h k = ground arith

-- The channel, where there is one, has nothing left.
NoMore : Option (List PacketBuffer) → Type 0
NoMore none = Unit
NoMore (some messages) = messages ≡ []

-- A queue with just this buffer, still to be acked, and nothing more to come.
record Alone (q : PacketQueue) (b : PacketBuffer) : Type 0 where
  packets : q.packets ≡ b ∷ []
  first : q.first_unacked ≡ 0
  last : NoMore q.rx

refill-Alone :
    (p : SerializedPacket) (b : PacketBuffer) (n : ℕ)
    → buffers p ≡ b ∷ []
    → 1 ≤ n
    → Alone (refill (Queue.new p) n) b
unfolding refill Queue.new NoMore not_acked
refill-Alone (vec bs) b n h k = record { packets = h; first = refl; last = tt }
refill-Alone (channel bs) b n h k =
    let nothing : List PacketBuffer = [] in
    let missing = n - length (take n nothing) in
    let enough : 1 ≤ missing = omega (arith, k, length-take n nothing) in
    record {
      packets = rw h (take_all missing (b ∷ []) enough);
      first = refl;
      last = rw h (drop_all missing (b ∷ []) enough);
    }

-- A queue of which all was acked, and nothing more to come.
record Spent (q : PacketQueue) : Type 0 where
  packets : q.packets ≡ []
  last : NoMore q.rx

refill-Spent : (q : PacketQueue) (n : ℕ) → Spent q → Spent (refill q n)
unfolding refill NoMore
refill-Spent q n h = elim (Option-cases q.rx) [
  | inl none_left ↦ record {
    packets = ground (arith, none_left, h.packets);
    last = ground (arith, none_left, h.last);
  }
  | inr (ms, channel_left) ↦
      let missing = n - length (take n (not_acked q.packets)) in
      let empty : ms ≡ [] = ground (arith, channel_left, h.last) in
      record {
        packets =
            ground (arith, channel_left, empty, h.packets, take-nil {A = PacketBuffer} missing);
        last = ground (arith, channel_left, empty, drop-nil {A = PacketBuffer} missing);
      }
]

ack-Spent :
    (q : PacketQueue) (b : PacketBuffer)
    → Alone q b
    → b.acked ≡ false
    → ((Queue.ack q 0).0 ≡ ok false) × Spent (Queue.ack q 0).1
unfolding Queue.ack first_unacked_position
ack-Spent q b h fresh = ground (arith, h.packets, h.last)

refill-kept : (q : PacketQueue) (b : PacketBuffer) (n : ℕ) → Alone q b → Alone (refill q n) b
unfolding refill NoMore
refill-kept q b n h = elim (Option-cases q.rx) [
  | inl none_left ↦ record {
    packets = ground (arith, none_left, h.packets);
    first = ground (arith, none_left, h.first);
    last = ground (arith, none_left, h.last);
  }
  | inr (ms, channel_left) ↦
      let missing = n - length (take n (not_acked q.packets)) in
      let empty : ms ≡ [] = ground (arith, channel_left, h.last) in
      record {
        packets =
            ground (arith, channel_left, empty, h.packets, take-nil {A = PacketBuffer} missing);
        first = ground (arith, channel_left, h.first);
        last = ground (arith, channel_left, empty, drop-nil {A = PacketBuffer} missing);
      }
]

-- A batch from a queue with one buffer to come is its datagram.
send_unacked-single :
    (socket : NonBlockingUdpSocket) (n : ℕ) (q : PacketQueue) (b : PacketBuffer) (d : List ℕ)
    → 1 ≤ n
    → Alone (refill q n) b
    → Carries b d
    → (Socket.send socket d).0 ≡ ok true
    → ((send_unacked q n socket).0 ≡ ok (1, true))
      × Alone (send_unacked q n socket).1 b
      × ((send_unacked q n socket).2 ≡ (Socket.send socket d).1)
unfolding send_unacked unacked send_each not_acked
send_unacked-single socket n q b d some_size alone c sent =
    let queued : take n (map as_ref (not_acked (refill q n).packets)) ≡ d ∷ [] =
      ground (arith, alone.packets, c.wire, c.fresh, take_all n (d ∷ []) some_size) in
    (ground (arith, queued, sent), alone, ground (arith, queued, sent))

-- A packet on its way out whose one part was last sent at `now` and is not acked; `missed` acks
-- did not come before.
pub record Underway (p : PacketOut) (b : PacketBuffer) (now missed : ℕ) : Type 0 where
  queue : Alone p.packet_queue b
  last_send : p.last_send ≡ some now
  pub missed_acks : p.missed_acks ≡ missed
  batch_sent : p.last_batch_size ≡ 1
  batch_acks : p.last_batch_acks ≡ 0

-- One whose one part was acked.
pub record Acked (p : PacketOut) (now : ℕ) : Type 0 where
  queue : Spent p.packet_queue
  last_send : p.last_send ≡ some now
  pub missed_acks : p.missed_acks ≡ 0

pub send-Underway :
    (packet : SerializedPacket) (b : PacketBuffer) (d : List ℕ) (socket : NonBlockingUdpSocket)
    (n now : ℕ)
    → buffers packet ≡ b ∷ []
    → Carries b d
    → 1 ≤ n
    → (Socket.send socket d).0 ≡ ok true
    → (p : PacketOut) × (Out.send packet socket n now ≡ (ok p, (Socket.send socket d).1))
      × Underway p b now 0
unfolding Out.send
send-Underway packet b d socket n now h c some_size sent =
    let (result, alone, after) =
      send_unacked-single socket n (Queue.new packet) b d some_size
        (refill-Alone packet b n h some_size) c sent in
    (
      record {
        packet_queue = (send_unacked (Queue.new packet) n socket).1;
        last_send = some now;
        missed_acks = 0;
        batch_size = n;
        last_batch_size = 1;
        last_batch_acks = 0;
      },
      ground (arith, result, after),
      record {
        queue = alone;
        last_send = refl;
        missed_acks = refl;
        batch_sent = refl;
        batch_acks = refl;
      },
    )

pub ack-Acked :
    (p : PacketOut) (b : PacketBuffer) (now missed : ℕ)
    → Underway p b now missed
    → b.acked ≡ false
    → ((Out.ack p 0).0 ≡ ok false) × Acked (Out.ack p 0).1 now
unfolding Out.ack
ack-Acked p b now missed h fresh =
    let (result, spent) = ack-Spent p.packet_queue b h.queue fresh in
    (
      ground (arith, result),
      record {
        queue = ground (arith, result, spent);
        last_send = ground (arith, result, h.last_send);
        missed_acks = ground (arith, result);
      },
    )

module _ {PacketId : Type 0} ⦃u : Uuid PacketId⦄ where
  pub serialize_packet-single :
      (id : PacketId) (threshold : ℕ) (writes : List (List ℕ))
      → length (flat writes) ≤ 491
      → (packet : SerializedPacket) × (b : PacketBuffer) × (serialize_packet id threshold writes
            none
          ≡ some packet)
        × (buffers packet ≡ b ∷ [])
        × Carries b (frame last_part id 0 (flat writes))
  serialize_packet-single id threshold writes short =
      let (packet, ran, wire, fresh) =
        serialize_packet-datagrams id threshold writes (omega arith) in
      let (b, alone, carries) =
        only (buffers packet) (frame last_part id 0 (flat writes))
          (wire ∙ datagrams-short id (length (flat writes)) 0 (flat writes) short) fresh in
      (packet, b, ran, alone, carries)

  -- After the delay, a packet that was acked in full is done.
  pub send_pending-Acked :
      (p : PacketOut) (id : PacketId) (sent delay : ℕ) (socket : NonBlockingUdpSocket) (now : ℕ)
      → Acked p sent
      → sent + delay ≤ now
      → (Socket.send socket (done_bytes id)).0 ≡ ok true
      → ((send_pending p id delay socket now).0 ≡ ok true)
        × ((send_pending p id delay socket now).2 ≡ (Socket.send socket (done_bytes id)).1)
  unfolding send_pending send_batch send_unacked unacked send_each not_acked done
  send_pending-Acked p id sent delay socket now h late taken =
      let n = balance_batch_size p.batch_size p.last_batch_acks p.last_batch_size in
      let spent = refill-Spent p.packet_queue n h.queue in
      let empty : take n (map as_ref (not_acked (refill p.packet_queue n).packets)) ≡ [] =
        ground (arith, spent.packets, take-nil {A = List ℕ} n) in
      ground (arith, empty, h.last_send, taken)

  -- After the delay, a packet that was not acked is sent again, and counts one more missed ack.
  pub send_pending-Underway :
      (p : PacketOut) (b : PacketBuffer) (d : List ℕ) (id : PacketId) (sent missed delay : ℕ)
      (socket : NonBlockingUdpSocket) (now : ℕ)
      → Underway p b sent missed
      → Carries b d
      → sent + delay ≤ now
      → (Socket.send socket d).0 ≡ ok true
      → ((send_pending p id delay socket now).0 ≡ ok false)
        × Underway (send_pending p id delay socket now).1 b now (missed + 1)
        × ((send_pending p id delay socket now).2 ≡ (Socket.send socket d).1)
  unfolding send_pending send_batch balance_batch_size
  send_pending-Underway p b d id sent missed delay socket now h c late taken =
      let n = balance_batch_size p.batch_size p.last_batch_acks p.last_batch_size in
      let (result, alone, after) =
        send_unacked-single socket n p.packet_queue b d (ground arith)
          (refill-kept p.packet_queue b n h.queue) c taken in
      (
        ground (arith, h.last_send, late, result),
        record {
          queue = ground (arith, h.last_send, late, result, alone);
          last_send = ground (arith, h.last_send, late, result);
          missed_acks =
              ground (arith, h.last_send, late, result, h.missed_acks, h.batch_sent, h.batch_acks);
          batch_sent = ground (arith, h.last_send, late, result);
          batch_acks = ground (arith, h.last_send, late, result);
        },
        ground (arith, h.last_send, late, result, after),
      )
