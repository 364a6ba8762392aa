-- ===== src/Packet/SendBuffer.antt =====
-- `SendPacketBuffer` of src/packet.rs: the packets sent to one peer that are not yet fully acked.
-- `PacketId::new` is the argument `id`. `stats` is left out: it is called nowhere.
pub mod Acks
use packet_test.Common.{
  ℕ, suc, ◌+◌, ◌-◌, ◌*◌, ◌/◌, ◌^◌, min, max, List, [], ◌∷◌, Option, none, some, Result, ok, err,
  map_err, Bool, true, false, not, leb, ◌==◌, if◌then◌else◌,
}
use packet_test.Common.Dict.{Ord, Dict, get, insert, retain}
use packet_test.Socket.{NonBlockingUdpSocket, IoError}
use packet_test.Packet.Kind.{PacketKind, Uuid, from_byte}
use packet_test.Packet.Error.{
  PacketAckError, PacketAckErrorKind, HandlePacketError, SeqIndexAckedBeforeSent, invalid_packet_id,
  seq_index_acked_before_sent, empty, malformed, ack_error,
}
use packet_test.Packet.Frame.{id_of, seq_index_of}
use packet_test.Packet.Serialize.{Panicking, serialize_packet}
use packet_test.Packet.Out
use packet_test.Packet.Out.{PacketOut, u16_max, non_zero_or_min}

pub record SendPacketBuffer (PacketId : Type 0) : Type 0 where
  pub batch_size : ℕ
  pub packets : Dict PacketId PacketOut

pub data SentPacketHandling : Type 0 where
  acked : Bool → SentPacketHandling
  unhandled : SentPacketHandling

-- `usize::saturating_add`.
abbrev pub saturating_add : ℕ → ℕ → ℕ
saturating_add a b = min (2 ^ 64 - 1) (a + b)

-- What the closure of `send_pending` carries from packet to packet.
pub record Sweep : Type 0 where
  pub batch_size : ℕ
  pub count : ℕ
  pub result : Result IoError (Unit {0})
  pub socket : NonBlockingUdpSocket

module _ {PacketId : Type 0} ⦃o : Ord PacketId⦄ ⦃u : Uuid PacketId⦄ where
  unfoldable pub new : ℕ → SendPacketBuffer PacketId
  new initial_batch_size = record { batch_size = initial_batch_size; packets = [] }

  unfoldable pub ack :
      SendPacketBuffer PacketId
      → PacketId
      → ℕ
      → Result PacketAckErrorKind Bool × SendPacketBuffer PacketId
  ack s id seq_index = elim (get id s.packets) [
    | none ↦ (err invalid_packet_id, s)
    | some p ↦
        let (r, p') = Out.ack p seq_index in
        (map_err seq_index_acked_before_sent r, record s { packets = insert id p' s.packets })
  ]

  -- The branch of `handle` for an ack.
  unfoldable pub handle_ack :
      SendPacketBuffer PacketId
      → List ℕ
      → Panicking
          (Result (HandlePacketError PacketId) SentPacketHandling × SendPacketBuffer PacketId)
  handle_ack s buf = elim (id_of buf) [
    | none ↦ some (err malformed, s)
    | some none ↦ none
    | some (some id) ↦ elim (seq_index_of buf) [
      | none ↦ some (err malformed, s)
      | some seq_index ↦
          let (r, s') = ack s id seq_index in
          some (
            elim r [
              | ok duplicate ↦ ok (acked duplicate)
              | err kind ↦ err (ack_error (record { id = id; kind = kind }))
            ],
            s',
          )
    ]
  ]

  unfoldable pub handle :
      SendPacketBuffer PacketId
      → List ℕ
      → Panicking
          (Result (HandlePacketError PacketId) SentPacketHandling × SendPacketBuffer PacketId)
  handle s [] = some (err empty, s)
  handle s (kind ∷ rest) = elim (from_byte kind) [
    | some PacketKind.ack ↦ handle_ack s (kind ∷ rest)
    | some _ ↦ some (ok unhandled, s)
    | none ↦ some (ok unhandled, s)
  ]

  -- `writes` is what rkyv makes of the packet.
  unfoldable pub send :
      SendPacketBuffer PacketId
      → PacketId
      → List (List ℕ)
      → ℕ
      → NonBlockingUdpSocket
      → ℕ
      → Panicking (Result IoError PacketId × SendPacketBuffer PacketId × NonBlockingUdpSocket)
  send s id writes background_serialization_threshold socket now =
      elim (serialize_packet id background_serialization_threshold writes none) [
        | none ↦ none
        | some packet ↦
            let (r, socket') = Out.send packet socket s.batch_size now in
            some (elim r [
              | err e ↦ (err e, s, socket')
              | ok p ↦ (ok id, record s { packets = insert id p s.packets }, socket')
            ])
      ]

  -- The closure: whether the packet is kept, as it is after the call, and what is carried on.
  unfoldable pub visit : PacketId → PacketOut → ℕ → ℕ → Sweep → Option PacketOut × Sweep
  visit id p resend_delay now w =
      let w' : Sweep = record w {
        batch_size = saturating_add w.batch_size p.batch_size;
        count = w.count + 1;
      } in
      let (r, p', socket') = Out.send_pending p id resend_delay w.socket now in
      elim w.result [
        | err e ↦ (some p, w')
        | ok _ ↦ elim r [
          | ok done ↦ (if done then none else some p', record w' { socket = socket' })
          | err e ↦ (some p', record w' { socket = socket'; result = err e })
        ]
      ]

  abbrev pub keep : PacketId → Option PacketOut → Dict PacketId PacketOut → Dict PacketId PacketOut
  keep id none m = m
  keep id (some p) m = (id, p) ∷ m

  -- `retain` with that closure.
  unfoldable pub sweep : Dict PacketId PacketOut → ℕ → ℕ → Sweep → Dict PacketId PacketOut × Sweep
  sweep [] resend_delay now w = ([], w)
  sweep ((id, p) ∷ m) resend_delay now w =
      let (kept, w') = visit id p resend_delay now w in
      let (m', w'') = sweep m resend_delay now w' in (keep id kept m', w'')

  unfoldable pub send_pending :
      SendPacketBuffer PacketId
      → ℕ
      → NonBlockingUdpSocket
      → ℕ
      → Result IoError (Unit {0}) × SendPacketBuffer PacketId × NonBlockingUdpSocket
  send_pending s resend_delay socket now =
      let (packets', w) =
        sweep s.packets resend_delay now
          (record { batch_size = 0; count = 0; result = ok tt; socket = socket }) in
      let batch_size' =
        if w.count == 0
        then s.batch_size
        else non_zero_or_min (min u16_max (w.batch_size / w.count)) in
      (w.result, record { batch_size = batch_size'; packets = packets' }, w.socket)

  unfoldable pub timeout_packets : SendPacketBuffer PacketId → ℕ → SendPacketBuffer PacketId
  timeout_packets s max_missed_acks = record s {
    packets = retain (λ p. leb p.missed_acks max_missed_acks) s.packets;
  }
