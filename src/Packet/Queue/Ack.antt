-- ===== src/Packet/Queue/Ack.antt =====
-- What an ack changes in the queue, and which buffer it takes off.
use packet_test.Common.{
  ℕ, ◌+◌, ◌≤◌, ◌≡◌, List, [], ◌∷◌, arith, Option, some, Result, ok, err, Bool, true, false, length,
  get_elem?, set,
}
use packet_test.Packet.Error.{SeqIndexAckedBeforeSent}
use packet_test.Packet.Buffer.{PacketBuffer}
use packet_test.Packet.Queue.{PacketQueue, ack, not_acked, first_unacked_position}

-- The deque is empty or begins with a buffer that is not acked.
abbrev pub Trimmed : List PacketBuffer → Type 0
Trimmed [] = Unit
Trimmed (b ∷ bs) = b.acked ≡ false

-- The three ways of an ack.
module _ (q : PacketQueue) (i : ℕ) where
  module _ (b : PacketBuffer) (found : get_elem? q.packets i ≡ some b) where
    abbrev marked : List PacketBuffer
    marked = set q.packets i (record b { acked = true })

-- What the answer of an ack says of the queue after it.
abbrev pub AckEffect : PacketQueue → ℕ → Result SeqIndexAckedBeforeSent Bool → PacketQueue → Type 0
AckEffect q seq_index (err e) q' =
    (q' ≡ q) × (length q.packets ≤ seq_index) × (e.seq_index ≡ seq_index)
AckEffect q seq_index (ok true) q' =
    (q' ≡ q) × ((b : PacketBuffer) × (get_elem? q.packets seq_index ≡ some b) × (b.acked ≡ true))
AckEffect q seq_index (ok false) q' =
    ((b : PacketBuffer) × (get_elem? q.packets seq_index ≡ some b)
      × (b.acked ≡ false)
      × (not_acked q'.packets ≡ not_acked (set q.packets seq_index (record b { acked = true }))))
    × (length (not_acked q'.packets) + 1 ≡ length (not_acked q.packets))
    × (q'.first_unacked + length q'.packets ≡ q.first_unacked + length q.packets)
    × Trimmed q'.packets

-- The buffer behind a queue's first one is out of reach: the ack of index 0 takes the first buffer off,
-- and the ack of index 1, which is that of the next buffer, then leaves it unacked at the front.
pub ack_second_lost :
    (b c : PacketBuffer) (rest : List PacketBuffer) (n : ℕ) (rx : Option (List PacketBuffer))
    → b.acked ≡ false
    → c.acked ≡ false
    → let q = (ack (record { packets = b ∷ c ∷ rest; first_unacked = n; rx = rx }) 0).1 in
      (q.packets ≡ c ∷ rest)
      × (q.first_unacked ≡ n + 1)
      × (get_elem? (ack q 1).1.packets 0 ≡ some c)
unfolding ack first_unacked_position
ack_second_lost b c [] n rx hb hc = ground arith
ack_second_lost b c (d ∷ rest) n rx hb hc = ground arith
