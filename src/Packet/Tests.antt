-- ===== src/Packet/Tests.antt =====
-- Runs of the model on small inputs, and the theorems applied to them. A packet id is a number here,
-- which is the first of its 16 bytes.
use packet_test.Common.{
  get_elem?, map, ℕ, ◌+◌, ◌*◌, ◌≤◌, ◌<◌, ◌≡◌, refl, arith, min, max, List, [], ◌∷◌, ◌++◌, Option,
  none, some, ok, err, true, false, ◌==◌, if◌then◌else◌, length, replicate, ◌⊎◌,
}
use packet_test.Common.Dict.{get, nat_ord}
use packet_test.Socket.{
  NonBlockingUdpSocket, UdpSocket, IoError, other, would_block, Answer, accepted, failed,
}
use packet_test.Packet.Kind.{Uuid}
use packet_test.Packet.Error.{PacketReceiveError, PacketReceiveErrorKind}
use packet_test.Socket
use packet_test.Packet.Queue
use packet_test.Packet.Out
use packet_test.Packet.SendBuffer
use packet_test.Packet.ReceiveBuffer
use packet_test.Packet.ReceiveBuffer.EndToEnd.{serialize-handle}
use packet_test.Packet.Reassemble.Order.{chunk}
use packet_test.Packet.Buffers
use mathlib.Core.Option
use packet_test.Packet.Frame.{ack, done, ack_bytes, done_bytes}
use packet_test.Packet.Buffer.{PacketBuffer, as_ref}
use packet_test.Packet.Serialize.{SerializedPacket, serialize_packet, vec}
use packet_test.Packet.Serialize.VecRun.{flat}
use packet_test.Packet.Serialize.Whole.{Delivers, buffers, serialize_packet-datagrams}
use packet_test.Packet.Queue.{PacketQueue, not_acked, send_each, send_unacked}
use packet_test.Packet.Queue.Ack.{ack_second_lost}
use packet_test.Packet.Out.{PacketOut, balance_batch_size}
use packet_test.Packet.Out.Batch.{IsValid, balance_bounds}
use packet_test.Packet.Out.Pending.{Finished, send_pending-true, blocked_packet_lost}
use packet_test.Packet.Reassemble
use packet_test.Packet.Reassemble.{
  ReassembledPacket, ReceivedPacket, pending, duplicate, reassembled, take_chunk,
}
use packet_test.Packet.Reassemble.Delivery.{
  receive_chunks, any_order_reassembles, drained_duplicate_panics,
}
use packet_test.Packet.Reassemble.Duplicates.{answers, any_arrivals_answered}
use packet_test.Packet.SendBuffer.{SendPacketBuffer}
use packet_test.Packet.ReceiveBuffer.{ReceivePacketBuffer, finished, handled_part}
use packet_test.Packet.ReceiveBuffer.Single.{single_once, single_lost}
use packet_test.Packet.Buffers.{PacketBuffers}
use packet_test.Packet.Buffers.Dispatch.{answered, ack_dispatch}

unfoldable pub as_bytes : ℕ → List ℕ
as_bytes n = n ∷ replicate 15 0

unfoldable pub from_slice : List ℕ → Option ℕ
from_slice [] = none
from_slice (b ∷ bs) = if length bs == 15 then some b else none

pub from_slice_total : (bs : List ℕ) → length bs ≡ 16 → (n : ℕ) × (from_slice bs ≡ some n)
unfolding from_slice
from_slice_total [] h = absurd (omega arith)
from_slice_total (b ∷ bs) h = (b, ground (arith, h))

instance abbrev pub nat_uuid : Uuid ℕ
unfolding as_bytes from_slice
nat_uuid = record {
  as_bytes = as_bytes;
  from_slice = from_slice;
  length-as_bytes = λ n. refl;
  from_slice-as_bytes = λ n. refl;
  from_slice_total = from_slice_total;
}

abbrev pub answering : List Answer → NonBlockingUdpSocket
answering answers = record {
  socket = record { answers = answers; arrivals = []; sent = [] };
  addr = 9;
}

abbrev writes : List (List ℕ)
writes = (1 ∷ 2 ∷ []) ∷ [] ∷ (3 ∷ []) ∷ []

abbrev pub one : PacketBuffer
one = record { acked = false; len = 3; bytes = 1 ∷ 2 ∷ 3 ∷ [] }

abbrev pub two : PacketBuffer
two = record { acked = false; len = 2; bytes = 4 ∷ 5 ∷ 6 ∷ [] }

abbrev pub queue : PacketQueue
queue = record { packets = one ∷ two ∷ []; first_unacked = 0; rx = none }

abbrev pub outgoing_packet : PacketOut
outgoing_packet = record {
  packet_queue = queue;
  last_send = some 10;
  missed_acks = 0;
  batch_size = 2;
  last_batch_size = 2;
  last_batch_acks = 0;
}

abbrev fully_acked : PacketOut
fully_acked = record outgoing_packet {
  packet_queue = record { packets = []; first_unacked = 2; rx = none };
}

abbrev pub sender : SendPacketBuffer ℕ
sender = record { batch_size = 4; packets = (7, outgoing_packet) ∷ [] }

abbrev pub receiver : ReceivePacketBuffer ℕ
receiver = record { packets = [] }

abbrev pub both : PacketBuffers ℕ
both = record { send_buffer = sender; receive_buffer = receiver }

abbrev drained : ReassembledPacket
drained = record {
  payload = [];
  received_chunks = replicate 4 true;
  first_pending = 256;
  received_count = 260;
  max_index = none;
}

abbrev packet_id : ℕ
packet_id = 7

fully_acked-IsValid : IsValid fully_acked
fully_acked-IsValid = omega arith

ack_accepted : (ack packet_id 0 (answering [])).0 ≡ ok tt
unfolding ack Socket.send
ack_accepted = refl

abbrev refused : PacketReceiveError ℕ
refused = record { id = packet_id; kind = PacketReceiveErrorKind.io (other 1) }

ack-refused : (ack packet_id 0 (answering (failed (other 1) ∷ []))).0 ≡ err refused
unfolding ack Socket.send
ack-refused = refl

fully_acked_discarded : (Out.send_pending fully_acked packet_id 3 (answering []) 20).0 ≡ ok true
unfolding Out.send_pending send_unacked send_each done Socket.send Out.send_batch Queue.unacked
    balance_batch_size not_acked Queue.refill
fully_acked_discarded = refl

abbrev long_packet : List ℕ
long_packet = replicate 491 1 ++ (2 ∷ 3 ∷ [])

long_enough : 491 * 1 ≤ length long_packet
long_enough = omega arith

long_fits : length long_packet ≤ 491 * 1 + 491
long_fits = omega arith

serialize_packet-datagrams_example :
    Delivers packet_id (serialize_packet packet_id 1 writes none) (flat writes)
serialize_packet-datagrams_example = serialize_packet-datagrams packet_id 1 writes (omega arith)

ack_second_lost_example :
    let q = (Queue.ack queue 0).1 in
    (q.packets ≡ two ∷ [])
    × (q.first_unacked ≡ 1)
    × (get_elem? (Queue.ack q 1).1.packets 0 ≡ some two)
ack_second_lost_example = ack_second_lost one two [] 0 none refl refl

balance_bounds_example :
    let n = balance_batch_size 5 1 2 in
    (1 ≤ n)
    × (n ≤ 65535)
    × (((2 ≤ 1) × (5 ≤ n) × (min 65535 (2 * 2) ≤ n))
        ⊎ ((1 < 2) × (2 * n ≤ max 2 5) × (5 ≤ 2 * n + 1)))
balance_bounds_example = balance_bounds 5 1 2 (omega arith) (omega arith)

single_lost_example :
    (after : ReceivePacketBuffer ℕ) × (ReceiveBuffer.receive receiver true packet_id 0
        (5 ∷ [])
        (answering (failed (other 1) ∷ []))
        20
      ≡ some (err refused, after, (ack packet_id 0 (answering (failed (other 1) ∷ []))).1))
    × (ReceiveBuffer.receive after true packet_id 0 (5 ∷ []) (answering []) 30
        ≡ some (ok duplicate, after, (ack packet_id 0 (answering [])).1))
unfolding get
single_lost_example =
    single_lost receiver packet_id (5 ∷ []) (answering (failed (other 1) ∷ [])) (answering []) 20 30
      refused refl ack-refused ack_accepted

ack_dispatch_example :
    let (r, s) = SendBuffer.ack sender packet_id 1 in
    Buffers.handle both (ack_bytes packet_id 1) (answering []) 20
    ≡ some (answered packet_id r, record both { send_buffer = s }, answering [])
ack_dispatch_example = ack_dispatch both packet_id 1 (answering []) 20 (omega arith)

blocked_packet_lost_example :
    let s = answering (failed would_block ∷ accepted ∷ []) in
    (p : PacketOut) × ((Out.send (vec (one ∷ two ∷ [])) s 4 10).0 ≡ ok p)
    × (let (r, p', s') =
          Out.send_pending p packet_id 1000 (Out.send (vec (one ∷ two ∷ [])) s 4 10).1 11 in
        (r ≡ ok true) × (s'.socket.sent ≡ [] ++ ((9, done_bytes packet_id) ∷ [])))
blocked_packet_lost_example =
    blocked_packet_lost packet_id one (two ∷ []) 3 10 11 1000
      (answering (failed would_block ∷ accepted ∷ [])) [] refl refl

drained_duplicate_panics_example :
    Reassemble.receive (take_chunk drained 260 (1 ∷ [])).1 false 3 (2 ∷ []) ≡ none
drained_duplicate_panics_example =
    drained_duplicate_panics drained 260 (1 ∷ []) false 3 (2 ∷ []) (omega arith)

send_pending-true_example :
    Finished packet_id fully_acked 3
      (answering [])
      20
      (Out.send_pending fully_acked packet_id 3 (answering []) 20)
send_pending-true_example =
    send_pending-true packet_id fully_acked 3 (answering []) 20 fully_acked-IsValid
      fully_acked_discarded

-- One buffer is there, and the background thread has another.
abbrev fed : PacketQueue
fed = record { packets = one ∷ []; first_unacked = 0; rx = some (two ∷ []) }

any_order_reassembles_example :
    receive_chunks long_packet 1 long_enough long_fits Reassemble.new (1 ∷ 0 ∷ [])
    ≡ some (replicate 1 pending ++ (reassembled long_packet ∷ []))
any_order_reassembles_example =
    any_order_reassembles long_packet 1 long_enough long_fits 1 (0 ∷ []) (omega arith)
      ((omega arith, tt), (tt, tt)) (omega arith, (omega arith, tt)) refl

-- The last chunk comes twice before the first one, and once after it.
any_arrivals_answered_example :
    receive_chunks long_packet 1 long_enough long_fits Reassemble.new (1 ∷ 1 ∷ 0 ∷ 1 ∷ [])
    ≡ some (answers long_packet 1 long_enough long_fits (λ _. false) (1 ∷ 1 ∷ 0 ∷ 1 ∷ []))
any_arrivals_answered_example =
    any_arrivals_answered long_packet 1 long_enough long_fits (1 ∷ 1 ∷ 0 ∷ 1 ∷ []) (omega arith)
      (omega arith, (omega arith, (omega arith, (omega arith, tt))))

abbrev long_writes : List (List ℕ)
long_writes = replicate 491 1 ∷ (2 ∷ 3 ∷ []) ∷ []

writes_enough : 491 * 1 ≤ length (flat long_writes)
writes_enough = omega arith

writes_fit : length (flat long_writes) ≤ 491 * 1 + 491
writes_fit = omega arith

serialize-handle_example :
    (packet : SerializedPacket) × (serialize_packet packet_id 1 long_writes none ≡ some packet)
    × (datagram : List ℕ) × (get_elem? (map as_ref (buffers packet)) 1 ≡ some datagram)
    × (ReceiveBuffer.handle receiver datagram (answering []) 20
        ≡ Option.map handled_part (
            ReceiveBuffer.receive receiver
              (1 == 1)
              packet_id
              1
              (chunk (flat long_writes) 1 writes_enough writes_fit 1)
              (answering [])
              20))
serialize-handle_example =
    serialize-handle packet_id 1 long_writes 1 1 receiver (answering []) 20 writes_enough writes_fit
      (omega arith) (omega arith) (omega arith)

all_acked_done : (send_unacked fully_acked.packet_queue 2 (answering [])).0 ≡ ok (0, true)
unfolding send_unacked send_each Queue.unacked Queue.refill not_acked
all_acked_done = refl

single_once_example :
    (after : ReceivePacketBuffer ℕ) × (ReceiveBuffer.receive receiver true packet_id 0
        (5 ∷ [])
        (answering [])
        20
      ≡ some (ok (reassembled (5 ∷ [])), after, (ack packet_id 0 (answering [])).1))
    × (ReceiveBuffer.receive after true packet_id 0 (5 ∷ []) (answering []) 30
        ≡ some (ok duplicate, after, (ack packet_id 0 (answering [])).1))
unfolding get
single_once_example =
    single_once receiver packet_id (5 ∷ []) (5 ∷ []) (answering []) (answering []) 20 30 refl
      ack_accepted ack_accepted
