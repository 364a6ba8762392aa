-- ===== src/Packet/Out.antt =====
-- `PacketOut` of src/packet/send.rs: one packet on its way out. Times are nanoseconds; `now` is the
-- clock, read once in each operation. `bytes_per_sec` (floating point) is left out.
pub mod Batch
pub mod Pending
use packet_test.Common.{
  ℕ, ◌+◌, ◌-◌, ◌*◌, ◌/◌, min, max, Option, none, some, Result, ok, err, Bool, true, false, leb, ltb,
  ◌==◌, if◌then◌else◌, ◌&&◌,
}
use packet_test.Socket.{NonBlockingUdpSocket, IoError}
use packet_test.Packet.Kind.{Uuid, part_packet_payload_size}
use packet_test.Packet.Error.{SeqIndexAckedBeforeSent}
use packet_test.Packet.Frame.{done}
use packet_test.Packet.Serialize.{SerializedPacket}
use packet_test.Packet.Queue
use packet_test.Packet.Queue.{PacketQueue, send_unacked}

-- `BatchSize::MAX`, and `usize::MAX`.
abbrev pub u16_max : ℕ
u16_max = 65535

pub record PacketOut : Type 0 where
  pub packet_queue : PacketQueue
  pub last_send : Option ℕ
  pub missed_acks : ℕ
  pub batch_size : ℕ
  pub last_batch_size : ℕ
  pub last_batch_acks : ℕ

-- `PacketOut::send`.
unfoldable pub send :
    SerializedPacket
    → NonBlockingUdpSocket
    → ℕ
    → ℕ
    → Result IoError PacketOut × NonBlockingUdpSocket
send packet socket initial_batch_size now =
    let (r, q, socket') = send_unacked (Queue.new packet) initial_batch_size socket in
    (
      elim r [
        | err e ↦ err e
        | ok (last_batch_size, sent) ↦ ok (record {
          packet_queue = q;
          last_send = if sent then some now else none;
          missed_acks = 0;
          batch_size = initial_batch_size;
          last_batch_size = last_batch_size;
          last_batch_acks = 0;
        })
      ],
      socket',
    )

-- `saturating_add(1)` on a u16.
abbrev pub saturating_inc : ℕ → ℕ
saturating_inc n = min u16_max (n + 1)

unfoldable pub ack : PacketOut → ℕ → Result SeqIndexAckedBeforeSent Bool × PacketOut
ack p seq_index =
    let (r, q) = Queue.ack p.packet_queue seq_index in
    let p' : PacketOut = record p { missed_acks = 0; packet_queue = q } in
    elim r [
      | err e ↦ (err e, p')
      | ok duplicate ↦
          if duplicate
          then (ok true, p')
          else (ok false, record p' { last_batch_acks = saturating_inc p.last_batch_acks })
    ]

-- `NonZeroBatchSize::try_from(n).unwrap_or(MIN)`.
abbrev pub non_zero_or_min : ℕ → ℕ
non_zero_or_min n = max 1 n

unfoldable pub balance_batch_size : ℕ → ℕ → ℕ → ℕ
balance_batch_size old_batch_size last_batch_acks last_batch_size =
    if leb last_batch_size last_batch_acks
    then max old_batch_size (non_zero_or_min (min u16_max (last_batch_size * 2)))
    else non_zero_or_min (old_batch_size / 2)

-- A time that has passed since an instant; it is 0 if the clock stands before that.
abbrev pub elapsed : ℕ → ℕ → ℕ
elapsed now last = now - last

-- The second half of `send_pending`, from the balancing on.
unfoldable pub send_batch :
    {PacketId : Type 0} ⦃u : Uuid PacketId⦄
    → PacketOut
    → PacketId
    → NonBlockingUdpSocket
    → ℕ
    → Result IoError Bool × PacketOut × NonBlockingUdpSocket
send_batch p id socket now =
    let batch_size = balance_batch_size p.batch_size p.last_batch_acks p.last_batch_size in
    let (r, q, socket') = send_unacked p.packet_queue batch_size socket in
    let p' : PacketOut = record p { batch_size = batch_size; packet_queue = q } in
    elim r [
      | err e ↦ (err e, p', socket')
      | ok (count, all) ↦
          if count == 0 && all
          then (let (d, socket'') = done id socket' in (d, p', socket''))
          else (
            ok false,
            record p' {
              missed_acks = p.missed_acks + (p.last_batch_size - p.last_batch_acks);
              last_batch_size = count;
              last_batch_acks = 0;
              last_send = some now;
            },
            socket',
          )
    ]

unfoldable pub send_pending :
    {PacketId : Type 0} ⦃u : Uuid PacketId⦄
    → PacketOut
    → PacketId
    → ℕ
    → NonBlockingUdpSocket
    → ℕ
    → Result IoError Bool × PacketOut × NonBlockingUdpSocket
send_pending p id resend_delay socket now = elim p.last_send [
  | none ↦ (let (d, socket') = done id socket in (d, p, socket'))
  | some last_send ↦
      if ltb (elapsed now last_send) resend_delay
      then (ok false, p, socket)
      else send_batch p id socket now
]

-- Marks the packet as canceled.
unfoldable pub cancel : PacketOut → PacketOut
cancel p = record p { last_send = none }

unfoldable pub acked_bytes : PacketOut → ℕ
acked_bytes p = p.packet_queue.first_unacked * part_packet_payload_size

unfoldable pub last_batch_bytes : PacketOut → ℕ
last_batch_bytes p = p.last_batch_size * part_packet_payload_size
