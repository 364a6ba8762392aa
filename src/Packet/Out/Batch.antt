-- ===== src/Packet/Out/Batch.antt =====
-- The size of a batch and the count of missed acks.
use packet_test.Common.{
  ◌⊎◌, List, length, take, map, inl, inr, Result-split as Cases, ℕ, ◌+◌, ◌*◌, ◌≤◌, ◌<◌, ◌≡◌, arith,
  min, max, ok, Bool,
}
use mathlib.Core.Path.{subst}
use packet_test.Socket.{NonBlockingUdpSocket}
use packet_test.Packet.Kind.{Uuid}
use packet_test.Packet.Buffer.{as_ref}
use packet_test.Packet.Serialize.{SerializedPacket}
use packet_test.Packet.Queue
use packet_test.Packet.Queue.{PacketQueue, send_unacked, not_acked}
use packet_test.Packet.Queue.Send.{SendEffect, send_unacked_batch}
use packet_test.Packet.Out.{
  PacketOut, send, ack, balance_batch_size, u16_max, send_batch, send_pending,
}

-- The sizes fit their machine words, and a batch is never empty.
pub record IsValid (p : PacketOut) : Type 0 where
  pub batch_pos : 1 ≤ p.batch_size
  pub batch_max : p.batch_size ≤ u16_max
  pub last_max : p.last_batch_size ≤ u16_max
  pub acks_max : p.last_batch_acks ≤ u16_max

-- Where the old batch size is a positive u16, the next one is too. If all of the last batch was
-- acked, it is no smaller than before and at least twice the last batch, as far as a u16 goes;
-- otherwise it is half, or 1.
pub balance_bounds :
    (old acks last : ℕ)
    → 1 ≤ old
    → old ≤ u16_max
    → let n = balance_batch_size old acks last in
      (1 ≤ n)
      × (n ≤ u16_max)
      × (((last ≤ acks) × (old ≤ n) × (min u16_max (2 * last) ≤ n))
          ⊎ ((acks < last) × (2 * n ≤ max 2 old) × (old ≤ 2 * n + 1)))
unfolding balance_batch_size
balance_bounds old acks last h k = ground arith

-- A batch counts no more datagrams than it may send.
count-le :
    (q : PacketQueue) (n : ℕ) (s : NonBlockingUdpSocket) {count : ℕ} {all : Bool}
    → 0 < n
    → (send_unacked q n s).0 ≡ ok (count, all)
    → count ≤ n
count-le q n s {count} {all} h e =
    let (effect, short) = send_unacked_batch q n s in
    let bufs = take n (map as_ref (not_acked (send_unacked q n s).1.packets)) in
    counted bufs (send_unacked q n s).2 short
      (subst (λ r. SendEffect bufs 0 s r (send_unacked q n s).2) e effect)
  where
    counted :
        (bufs : List (List ℕ)) (s' : NonBlockingUdpSocket)
        → length bufs ≤ n
        → SendEffect bufs 0 s (ok (count, all)) s'
        → count ≤ n
    counted bufs s' short (k, sum, fits, whole, kept, sent) = omega arith

pub send-IsValid :
    (packet : SerializedPacket) (s : NonBlockingUdpSocket) (n now : ℕ) {p : PacketOut}
    → 1 ≤ n
    → n ≤ u16_max
    → (send packet s n now).0 ≡ ok p
    → IsValid p
unfolding send
send-IsValid packet s n now {p} h k e = elim (Cases (send_unacked (Queue.new packet) n s).0) [
  | inl (x, bad) ↦ ground (arith, bad)
  | inr (r, good) ↦ ground (arith, good, count-le (Queue.new packet) n s h good)
]

pub ack-IsValid : (p : PacketOut) (seq_index : ℕ) → IsValid p → IsValid (ack p seq_index).1
unfolding ack
ack-IsValid p seq_index v = ground arith

pub send_batch-IsValid :
    {PacketId : Type 0} ⦃u : Uuid PacketId⦄ (p : PacketOut) (id : PacketId)
    (s : NonBlockingUdpSocket) (now : ℕ)
    → IsValid p
    → IsValid (send_batch p id s now).1
unfolding send_batch
send_batch-IsValid p id s now v =
    let n = balance_batch_size p.batch_size p.last_batch_acks p.last_batch_size in
    let bounds =
      balance_bounds p.batch_size p.last_batch_acks p.last_batch_size v.batch_pos v.batch_max in
    elim (Cases (send_unacked p.packet_queue n s).0) [
      | inl (x, bad) ↦ ground (arith, bad, bounds)
      | inr (r, good) ↦ ground (arith, good, bounds, count-le p.packet_queue n s bounds.0 good)
    ]

-- Resending keeps a well-formed packet well formed, whatever the socket answers.
pub send_pending-IsValid :
    {PacketId : Type 0} ⦃u : Uuid PacketId⦄ (p : PacketOut) (id : PacketId) (resend_delay : ℕ)
    (s : NonBlockingUdpSocket) (now : ℕ)
    → IsValid p
    → IsValid (send_pending p id resend_delay s now).1
unfolding send_pending
send_pending-IsValid p id resend_delay s now v = ground (arith, send_batch-IsValid p id s now v)
