-- ===== src/Packet/Buffers/Panics.antt =====
-- Which datagrams make `PacketBuffers::handle` of src/packet.rs panic, and which packets
-- `PacketBuffers::send`.
use packet_test.Common.{
  ℕ, ◌*◌, ◌^◌, ◌<◌, ◌≤◌, ◌≡◌, arith, List, [], ◌∷◌, none, some, Bool, true, false, length,
  Option-cases, Bool-cases, ltb, ◌⊎◌, ◌+◌, refl, Result-split, inl, inr, ok, err,
}
use packet_test.Common.Dict.{Ord, get}
use packet_test.Socket.{NonBlockingUdpSocket}
use packet_test.Packet.Kind.{PacketKind, Uuid, from_byte}
use packet_test.Packet.Out
use packet_test.Packet.Frame.{id_of, seq_index_of, payload_of}
use packet_test.Packet.Frame.Slices.{id_of_total}
use packet_test.Packet.Serialize.VecRun.{flat}
use packet_test.Packet.Serialize.Whole.{serialize_packet-datagrams}
use packet_test.Packet.Reassemble
use packet_test.Packet.Reassemble.{ReassembledPacket, first_zero, overflows, beyond_u32}
use packet_test.Packet.Reassemble.Seen.{marked, seen-marked, first_zero_before}
use packet_test.Packet.SendBuffer
use packet_test.Packet.SendBuffer.{SentPacketHandling}
use packet_test.Packet.SendBuffer.Acks.{handle_total}
use packet_test.Packet.ReceiveBuffer
use packet_test.Packet.ReceiveBuffer.{
  PacketIn, ReceivePacketBuffer, ReceivedPacketHandling, receive, receive_part, handle_part,
  handle_done,
}
use packet_test.Packet.Buffers.{PacketBuffers, handle, handle_sent, send}

-- The chunks at the front that have come and the number of those that have been counted are too many.
abbrev pub TooMany : ReassembledPacket → ℕ → Type 0
TooMany r i =
    (2 ^ 32 ≤ r.first_pending + first_zero (marked r false i []).received_chunks)
    ⊎ (2 ^ 32 ≤ r.received_count + 1)

overflows_many :
    (r : ReassembledPacket) (last : Bool) (i : ℕ) (c : List ℕ)
    → overflows (marked r last i c) ≡ true
    → TooMany r i
unfolding overflows
overflows_many r last i c h = elim (Bool-cases (beyond_u32 (r.received_count + 1))) [
  | inl many ↦ inr (ground arith)
  | inr few ↦ inl (ground (arith, h))
]

reassemble_none :
    (r : ReassembledPacket) (last : Bool) (i : ℕ) (c : List ℕ)
    → Reassemble.receive r last i c ≡ none
    → (i < r.first_pending) ⊎ TooMany r i
unfolding Reassemble.receive
reassemble_none r last i c h = elim (Bool-cases (ltb i r.first_pending)) [
  | inl before ↦ inl (ground arith)
  | inr new ↦ inr (overflows_many r last i c (ground (arith, h, new)))
]

-- The first chunk of a packet that comes does not panic.
first_received :
    (last : Bool) (i : ℕ) (c : List ℕ) → ¬ (Reassemble.receive Reassemble.new last i c ≡ none)
unfolding Reassemble.new
first_received last i c h = elim (reassemble_none Reassemble.new last i c h) [
  | inl before ↦ omega arith
  | inr (inr many) ↦ omega arith
  | inr (inl many) ↦
      let bits = (marked Reassemble.new false i []).received_chunks in
      ground (
        arith,
        first_zero_before bits 0,
        first_zero_before bits 1,
        seen-marked Reassemble.new false i [] 0,
        seen-marked Reassemble.new false i [] 1,
      )
]

module _ {PacketId : Type 0} ⦃o : Ord PacketId⦄ ⦃u : Uuid PacketId⦄ where
  -- The datagram is a part of a packet that is being reassembled, and its bit was drained, or the packet
  -- has too many parts.
  pub record Late (b : ReceivePacketBuffer PacketId) (buf : List ℕ) : Type 0 where
    pub kind : ℕ
    pub rest : List ℕ
    pub begins : buf ≡ kind ∷ rest
    pub is_part :
        (from_byte kind ≡ some PacketKind.part) ⊎ (from_byte kind ≡ some PacketKind.last_part)
    pub id : PacketId
    pub seq_index : ℕ
    pub entry : PacketIn
    pub packet : ReassembledPacket
    pub has_id : id_of buf ≡ some (some id)
    pub has_index : seq_index_of buf ≡ some seq_index
    pub known : get id b.packets ≡ some entry
    pub partial : entry.packet ≡ some packet
    pub stuck : (seq_index < packet.first_pending) ⊎ TooMany packet seq_index

  receive_late :
      (b : ReceivePacketBuffer PacketId) (last : Bool) (id : PacketId) (seq_index : ℕ)
      (payload : List ℕ) (socket : NonBlockingUdpSocket) (now : ℕ)
      → receive b last id seq_index payload socket now ≡ none
      → (entry : PacketIn) × (packet : ReassembledPacket) × (get id b.packets ≡ some entry)
        × (entry.packet ≡ some packet)
        × ((seq_index < packet.first_pending) ⊎ TooMany packet seq_index)
  unfolding receive receive_part
  receive_late b last id seq_index payload socket now h = elim (Option-cases (get id b.packets)) [
    | inl new ↦ absurd (ground (arith, h, new, first_received last seq_index payload))
    | inr (entry, found) ↦ elim (Option-cases entry.packet) [
      | inl single ↦ absurd (ground (arith, h, found, single))
      | inr (packet, several) ↦ (
        entry,
        packet,
        found,
        several,
        ground (arith, h, found, several, reassemble_none packet last seq_index payload),
      )
    ]
  ]

  handle_part-Late :
      (b : ReceivePacketBuffer PacketId) (last : Bool) (kind : ℕ) (rest : List ℕ)
      (socket : NonBlockingUdpSocket) (now : ℕ)
      → (from_byte kind ≡ some PacketKind.part) ⊎ (from_byte kind ≡ some PacketKind.last_part)
      → handle_part b last (kind ∷ rest) socket now ≡ none
      → Late b (kind ∷ rest)
  unfolding handle_part
  handle_part-Late b last kind rest socket now part h =
      let buf = kind ∷ rest in
      elim (Option-cases (seq_index_of buf)) [
        | inl short ↦ absurd (ground (arith, h, short))
        | inr (seq_index, i) ↦ elim (Option-cases (payload_of buf)) [
          | inl short ↦ absurd (ground (arith, h, i, short))
          | inr (payload, p) ↦ elim (Option-cases (id_of ⦃u = u⦄ buf)) [
            | inl short ↦ absurd (ground (arith, h, i, p, short))
            | inr (found, f) ↦
                let (id, e) = id_of_total buf found f in
                let (entry, packet, known, partial, stuck) =
                  receive_late b last id seq_index payload socket now
                    (ground (arith, h, i, p, f, e)) in
                record {
                  kind = kind;
                  rest = rest;
                  begins = refl;
                  is_part = part;
                  id = id;
                  seq_index = seq_index;
                  entry = entry;
                  packet = packet;
                  has_id = ground (arith, f, e);
                  has_index = i;
                  known = known;
                  partial = partial;
                  stuck = stuck;
                }
          ]
        ]
      ]

  handle_done_total :
      (b : ReceivePacketBuffer PacketId) (buf : List ℕ) (socket : NonBlockingUdpSocket)
      → ¬ (handle_done b buf socket ≡ none)
  unfolding handle_done
  handle_done_total b buf socket panics = elim (Option-cases (id_of ⦃u = u⦄ buf)) [
    | inl short ↦ ground (arith, panics, short)
    | inr (found, f) ↦ (let (id, e) = id_of_total buf found f in ground (arith, panics, f, e))
  ]

  receive_handle-Late :
      (b : ReceivePacketBuffer PacketId) (buf : List ℕ) (socket : NonBlockingUdpSocket) (now : ℕ)
      → ReceiveBuffer.handle b buf socket now ≡ none
      → Late b buf
  unfolding ReceiveBuffer.handle
  receive_handle-Late b [] socket now h = absurd (ground (arith, h))
  receive_handle-Late b (kind ∷ rest) socket now h = elim (Option-cases (from_byte kind)) [
    | inl k ↦ absurd (ground (arith, h, k))
    | inr (PacketKind.part, k) ↦
        handle_part-Late b false kind rest socket now (inl k) (ground (arith, h, k))
    | inr (PacketKind.last_part, k) ↦
        handle_part-Late b true kind rest socket now (inr k) (ground (arith, h, k))
    | inr (PacketKind.done, k) ↦
        absurd (ground (arith, h, k, handle_done_total b (kind ∷ rest) socket))
    | inr (PacketKind.version, k) ↦ absurd (ground (arith, h, k))
    | inr (PacketKind.ping, k) ↦ absurd (ground (arith, h, k))
    | inr (PacketKind.ack, k) ↦ absurd (ground (arith, h, k))
    | inr (PacketKind.first_update, k) ↦ absurd (ground (arith, h, k))
  ]

  handle_sent_total :
      (b : PacketBuffers PacketId) (kind : ℕ) (buf : List ℕ) (socket : NonBlockingUdpSocket)
      → ¬ (handle_sent b kind buf socket ≡ none)
  unfolding handle_sent
  handle_sent_total b kind buf socket panics =
      elim (Option-cases (SendBuffer.handle b.send_buffer buf)) [
        | inl h ↦ handle_total b.send_buffer buf h
        | inr ((err e, s), h) ↦ ground (arith, panics, h)
        | inr ((ok (SentPacketHandling.acked d), s), h) ↦ ground (arith, panics, h)
        | inr ((ok SentPacketHandling.unhandled, s), h) ↦ ground (arith, panics, h)
      ]

  -- A datagram makes the buffers panic only if it is such a part.
  pub handle-Late :
      (b : PacketBuffers PacketId) (buf : List ℕ) (socket : NonBlockingUdpSocket) (now : ℕ)
      → handle b buf socket now ≡ none
      → Late b.receive_buffer buf
  unfolding handle
  handle-Late b [] socket now h = absurd (ground (arith, h))
  handle-Late b (kind ∷ rest) socket now h =
      elim (Option-cases (ReceiveBuffer.handle b.receive_buffer (kind ∷ rest) socket now)) [
        | inl r ↦ receive_handle-Late b.receive_buffer (kind ∷ rest) socket now r
        | inr ((err e, r, s), k) ↦ absurd (ground (arith, h, k))
        | inr ((ok (ReceivedPacketHandling.acked a), r, s), k) ↦ absurd (ground (arith, h, k))
        | inr ((ok (ReceivedPacketHandling.finished a), r, s), k) ↦ absurd (ground (arith, h, k))
        | inr ((ok ReceivedPacketHandling.unhandled, r, s), k) ↦ absurd (
            handle_sent_total (record b { receive_buffer = r }) kind (kind ∷ rest) s
              (ground (arith, h, k)))
      ]

  -- A packet of at most 2^32 parts is sent, or its sending fails, without a panic.
  pub send_total :
      (b : PacketBuffers PacketId) (id : PacketId) (writes : List (List ℕ)) (threshold : ℕ)
      (socket : NonBlockingUdpSocket) (now : ℕ)
      → length (flat writes) ≤ 491 * 2 ^ 32
      → ¬ (send b id writes threshold socket now ≡ none)
  unfolding send SendBuffer.send
  send_total b id writes threshold socket now small panics =
      let (packet, ran, wire, fresh) = serialize_packet-datagrams id threshold writes small in
      elim (Result-split (Out.send packet socket b.send_buffer.batch_size now).0) [
        | inl (e, k) ↦ ground (arith, panics, ran, k)
        | inr (p, k) ↦ ground (arith, panics, ran, k)
      ]
