-- ===== src/Packet/ReceiveBuffer.antt =====
-- `ReceivePacketBuffer` of src/packet.rs: the packets that come in from one peer. `stats` is left out:
-- its body is `todo!()`.
pub mod Single
pub mod EndToEnd
use mathlib.Core.Option
use packet_test.Common.{
  ℕ, ◌+◌, ◌-◌, List, [], ◌∷◌, Option, none, some, Result, ok, err, map_err, Bool, true, false, ◌&&◌,
  ltb, ◌==◌, if◌then◌else◌,
}
use packet_test.Common.Dict.{Ord, Dict, get, insert, remove, retain}
use packet_test.Socket.{NonBlockingUdpSocket}
use packet_test.Packet.Kind.{PacketKind, Uuid, from_byte}
use packet_test.Packet.Error.{
  PacketReceiveError, PacketReceiveErrorKind, HandlePacketError, mismatch, empty, malformed,
  receive_error,
}
use packet_test.Packet.Frame.{id_of, seq_index_of, payload_of, ack}
use packet_test.Packet.Serialize.{Panicking}
use packet_test.Packet.Reassemble
use packet_test.Packet.Reassemble.{ReassembledPacket, ReceivedPacket, duplicate, reassembled}
use packet_test.Packet.Out.{elapsed}

pub record PacketIn : Type 0 where
  pub last_receive : ℕ
  pub packet : Option ReassembledPacket

pub record ReceivePacketBuffer (PacketId : Type 0) : Type 0 where
  pub packets : Dict PacketId PacketIn

pub data ReceivedPacketHandling : Type 0 where
  acked : ReceivedPacket → ReceivedPacketHandling
  finished : Bool → ReceivedPacketHandling
  unhandled : ReceivedPacketHandling

-- `entry(id).and_modify(..).or_insert_with(..)`.
abbrev pub touched : Option PacketIn → ℕ → PacketIn
touched none now = record { last_receive = now; packet = some Reassemble.new }
touched (some entry) now = record entry { last_receive = now }

-- What `handle` gives: a result, the buffer and the socket, or a panic.
abbrev pub Handled : Type 0 → Type 0
Handled PacketId = Panicking (
    Result (HandlePacketError PacketId) ReceivedPacketHandling
    × ReceivePacketBuffer PacketId
    × NonBlockingUdpSocket)

module _ {PacketId : Type 0} ⦃o : Ord PacketId⦄ ⦃u : Uuid PacketId⦄ where
  -- `ack(id, seq_index, socket)?` and then the answer `a`.
  unfoldable pub acking :
      PacketId
      → ℕ
      → ReceivedPacket
      → ReceivePacketBuffer PacketId
      → NonBlockingUdpSocket
      → Result (PacketReceiveError PacketId) ReceivedPacket
        × ReceivePacketBuffer PacketId
        × NonBlockingUdpSocket
  acking id seq_index answer b socket =
      let (r, socket') = ack id seq_index socket in
      (elim r [ ok _ ↦ ok answer | err e ↦ err e ], b, socket')

  -- A packet of one part only: the first half of `receive`.
  unfoldable pub receive_single :
      ReceivePacketBuffer PacketId
      → PacketId
      → ℕ
      → List ℕ
      → NonBlockingUdpSocket
      → ℕ
      → Result (PacketReceiveError PacketId) ReceivedPacket
        × ReceivePacketBuffer PacketId
        × NonBlockingUdpSocket
  receive_single b id seq_index payload socket now = elim (get id b.packets) [
    | none ↦
        acking id seq_index (reassembled payload)
          (record b {
            packets = insert id (record { last_receive = now; packet = none }) b.packets;
          })
          socket
    | some entry ↦ elim entry.packet [
      | none ↦ acking id seq_index duplicate b socket
      | some _ ↦ (err (record { id = id; kind = mismatch }), b, socket)
    ]
  ]

  -- One part of several: the second half of `receive`.
  unfoldable pub receive_part :
      ReceivePacketBuffer PacketId
      → Bool
      → PacketId
      → ℕ
      → List ℕ
      → NonBlockingUdpSocket
      → ℕ
      → Panicking (
          Result (PacketReceiveError PacketId) ReceivedPacket
          × ReceivePacketBuffer PacketId
          × NonBlockingUdpSocket)
  receive_part b last id seq_index payload socket now =
      let entry = touched (get id b.packets) now in
      let b' : ReceivePacketBuffer PacketId = record b { packets = insert id entry b.packets } in
      elim entry.packet [
        | none ↦ some (err (record { id = id; kind = mismatch }), b', socket)
        | some packet ↦ elim (Reassemble.receive packet last seq_index payload) [
          | none ↦ none
          | some (received, packet') ↦ some (
              acking id seq_index received
                (record b {
                  packets = insert id (record entry { packet = some packet' }) b.packets;
                })
                socket)
        ]
      ]

  unfoldable pub receive :
      ReceivePacketBuffer PacketId
      → Bool
      → PacketId
      → ℕ
      → List ℕ
      → NonBlockingUdpSocket
      → ℕ
      → Panicking (
          Result (PacketReceiveError PacketId) ReceivedPacket
          × ReceivePacketBuffer PacketId
          × NonBlockingUdpSocket)
  receive b last id seq_index payload socket now =
      if last && seq_index == 0
      then some (receive_single b id seq_index payload socket now)
      else receive_part b last id seq_index payload socket now

  unfoldable pub done :
      ReceivePacketBuffer PacketId → PacketId → Bool × ReceivePacketBuffer PacketId
  done b id = (
    elim (get id b.packets) [ none ↦ false | some _ ↦ true ],
    record b { packets = remove id b.packets },
  )

  -- The conversion of `receive`'s error by `?`.
  abbrev pub handled_part :
      Result (PacketReceiveError PacketId) ReceivedPacket
        × ReceivePacketBuffer PacketId
        × NonBlockingUdpSocket
      → Result (HandlePacketError PacketId) ReceivedPacketHandling
        × ReceivePacketBuffer PacketId
        × NonBlockingUdpSocket
  handled_part (ok received, b, socket) = (ok (acked received), b, socket)
  handled_part (err e, b, socket) = (err (receive_error e), b, socket)

  -- The branch of `handle` for a part.
  unfoldable pub handle_part :
      ReceivePacketBuffer PacketId → Bool → List ℕ → NonBlockingUdpSocket → ℕ → Handled PacketId
  handle_part b last buf socket now = elim (seq_index_of buf) [
    | none ↦ some (err malformed, b, socket)
    | some seq_index ↦ elim (payload_of buf) [
      | none ↦ some (err malformed, b, socket)
      | some payload ↦ elim (id_of buf) [
        | none ↦ some (err malformed, b, socket)
        | some none ↦ none
        | some (some id) ↦ Option.map handled_part (receive b last id seq_index payload socket now)
      ]
    ]
  ]

  -- The branch of `handle` for a `Done`.
  unfoldable pub handle_done :
      ReceivePacketBuffer PacketId → List ℕ → NonBlockingUdpSocket → Handled PacketId
  handle_done b buf socket = elim (id_of buf) [
    | none ↦ some (err malformed, b, socket)
    | some none ↦ none
    | some (some id) ↦ (let (known, b') = done b id in some (ok (finished known), b', socket))
  ]

  unfoldable pub handle :
      ReceivePacketBuffer PacketId → List ℕ → NonBlockingUdpSocket → ℕ → Handled PacketId
  handle b [] socket now = some (err empty, b, socket)
  handle b (kind ∷ rest) socket now = elim (from_byte kind) [
    | some PacketKind.part ↦ handle_part b false (kind ∷ rest) socket now
    | some PacketKind.last_part ↦ handle_part b true (kind ∷ rest) socket now
    | some PacketKind.done ↦ handle_done b (kind ∷ rest) socket
    | some _ ↦ some (ok unhandled, b, socket)
    | none ↦ some (ok unhandled, b, socket)
  ]

  unfoldable pub timeout_packets :
      ReceivePacketBuffer PacketId → ℕ → ℕ → ReceivePacketBuffer PacketId
  timeout_packets b timeout now = record b {
    packets = retain (λ p. ltb (elapsed now p.last_receive) timeout) b.packets;
  }
