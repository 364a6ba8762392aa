-- ===== src/Packet/Queue.antt =====
-- `PacketQueue` of src/packet/send.rs: the buffers of one packet that are not yet acked.
pub mod Ack
pub mod Send
use packet_test.Common.{
  ℕ, zero, suc, ◌+◌, ◌-◌, List, [], ◌∷◌, ◌++◌, map, Option, none, some, Result, ok, err, Bool, true,
  false, not, if◌then◌else◌, length, take, drop, get_elem?, set,
}
use packet_test.Socket.{NonBlockingUdpSocket, IoError, send}
use packet_test.Packet.Error.{SeqIndexAckedBeforeSent}
use packet_test.Packet.Buffer.{PacketBuffer, as_ref}
use packet_test.Packet.Serialize.{SerializedPacket, vec, channel}

-- `rx` holds the messages that the background thread is going to send: `recv` waits for each.
pub record PacketQueue : Type 0 where
  pub packets : List PacketBuffer
  pub first_unacked : ℕ
  pub rx : Option (List PacketBuffer)

unfoldable pub new : SerializedPacket → PacketQueue
new (vec packets) = record { packets = packets; first_unacked = 0; rx = none }
new (channel rx) = record { packets = []; first_unacked = 0; rx = some rx }

-- `filter(|packet| !packet.acked)`.
unfoldable pub not_acked : List PacketBuffer → List PacketBuffer
not_acked [] = []
not_acked (b ∷ bs) = if b.acked then not_acked bs else b ∷ not_acked bs

-- The first half of `unacked`: takes from the channel what is missing to `count`.
unfoldable pub refill : PacketQueue → ℕ → PacketQueue
refill q count = elim q.rx [
  | none ↦ q
  | some messages ↦
      let missing = count - length (take count (not_acked q.packets)) in
      record q { packets = q.packets ++ take missing messages; rx = some (drop missing messages) }
]

-- `unacked`.
unfoldable pub unacked : PacketQueue → ℕ → List (List ℕ) × PacketQueue
unacked q count = let q' = refill q count in (take count (map as_ref (not_acked q'.packets)), q')

-- The loop of `send_unacked`, `count` datagrams in.
unfoldable pub send_each :
    List (List ℕ) → ℕ → NonBlockingUdpSocket → Result IoError (ℕ × Bool) × NonBlockingUdpSocket
send_each [] count socket = (ok (count, true), socket)
send_each (buf ∷ bufs) count socket =
    let (r, socket') = send socket buf in
    let more = send_each bufs (count + 1) socket' in
    elim r [
      | err e ↦ (err e, socket')
      | ok sent ↦ if sent then more else (ok (count, false), socket')
    ]

unfoldable pub send_unacked :
    PacketQueue
    → ℕ
    → NonBlockingUdpSocket
    → Result IoError (ℕ × Bool) × PacketQueue × NonBlockingUdpSocket
send_unacked q batch_size socket =
    let (bufs, q') = unacked q batch_size in
    let (r, socket') = send_each bufs 0 socket in (r, q', socket')

-- `position(|packet| !packet.acked)`, or the length.
unfoldable pub first_unacked_position : List PacketBuffer → ℕ
first_unacked_position [] = 0
first_unacked_position (b ∷ bs) = if b.acked then suc (first_unacked_position bs) else 0

unfoldable pub ack : PacketQueue → ℕ → Result SeqIndexAckedBeforeSent Bool × PacketQueue
ack q seq_index = elim (get_elem? q.packets seq_index) [
  | none ↦ (err (record { seq_index = seq_index }), q)
  | some b ↦
      let packets' = set q.packets seq_index (record b { acked = true }) in
      let n = first_unacked_position packets' in
      if b.acked
      then (ok true, record q { packets = packets' })
      else (ok false, record q { packets = drop n packets'; first_unacked = q.first_unacked + n })
]
