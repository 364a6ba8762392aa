-- ===== src/Packet/ReceiveBuffer/EndToEnd.antt =====
-- From the sender's serialization to the receiver's parts.
use mathlib.Core.Option
use packet_test.Common.{
  ℕ, zero, suc, ◌+◌, ◌-◌, ◌*◌, ◌^◌, ◌≤◌, ◌<◌, ◌≡◌, refl, ap, ap₂, sym, ◌∙◌, arith, List, [], ◌∷◌,
  map, none, some, Bool, true, false, leb, ◌==◌, length, take, drop, get_elem?, length-drop,
  drop-drop, take_all,
}
use packet_test.Common.Dict.{Ord}
use packet_test.Socket.{NonBlockingUdpSocket}
use packet_test.Packet.Kind.{Uuid, part, last_part}
use packet_test.Packet.Frame.{frame}
use packet_test.Packet.Buffer.{as_ref}
use packet_test.Packet.Serialize.{SerializedPacket, serialize_packet}
use packet_test.Packet.Serialize.VecRun.{flat}
use packet_test.Packet.Serialize.Filling.{datagrams}
use packet_test.Packet.Serialize.Whole.{buffers, serialize_packet-datagrams}
use packet_test.Packet.Reassemble.Order.{chunk}
use packet_test.Packet.ReceiveBuffer.{ReceivePacketBuffer, receive, handled_part, handle}
use packet_test.Packet.ReceiveBuffer.Single.{part_kind, handle-frame}

module _ {PacketId : Type 0} ⦃u : Uuid PacketId⦄ (id : PacketId) where
  pub datagrams-short :
      (m seq : ℕ) (bytes : List ℕ)
      → length bytes ≤ 491
      → datagrams m id seq bytes ≡ frame last_part id seq bytes ∷ []
  unfolding datagrams
  datagrams-short zero seq bytes h = refl
  datagrams-short (suc m) seq bytes h = ground (arith, h)

  datagrams-long :
      (m seq : ℕ) (bytes : List ℕ)
      → 491 < length bytes
      → datagrams (suc m) id seq bytes
        ≡ frame part id seq (take 491 bytes) ∷ datagrams m id (seq + 1) (drop 491 bytes)
  unfolding datagrams
  datagrams-long m seq bytes h =
      let no : leb (length bytes) 491 ≡ false = ground arith in rw no refl

  same_frame :
      {last last' : Bool} {j j' : ℕ} {p p' : List ℕ}
      → last ≡ last'
      → j ≡ j'
      → p ≡ p'
      → some (frame (part_kind last) id j p) ≡ some (frame (part_kind last') id j' p')
  same_frame {last} {j' = j'} {p} {p'} same_last same_j same_p =
      ap₂ (λ k q. some (frame (part_kind last) id k q)) same_j same_p
      ∙ ap (λ b. some (frame (part_kind b) id j' p')) same_last

  drop_same : (xs : List ℕ) (m n : ℕ) → m ≡ n → drop m xs ≡ drop n xs
  drop_same xs m n e = ap (λ k. drop k xs) e

  -- The parts on the wire, one by one.
  get_elem?-datagrams :
      (m seq n i : ℕ) (bytes : List ℕ)
      → n ≤ m
      → 491 * n < length bytes + (1 - n)
      → length bytes ≤ 491 * n + 491
      → i ≤ n
      → get_elem? (datagrams m id seq bytes) i
        ≡ some (frame (part_kind (i == n)) id (seq + i) (take 491 (drop (491 * i) bytes)))
  get_elem?-datagrams m seq zero zero bytes h k l e =
      ap (λ d. get_elem? d 0) (datagrams-short m seq bytes (omega arith))
      ∙ same_frame {last = true} {last' = 0 == 0} {j = seq} {j' = seq + 0} (ground arith)
          (omega arith)
          (sym (take_all 491 bytes (omega arith))
            ∙ ap (take 491) (drop_same bytes 0 (491 * 0) (omega arith)))
  get_elem?-datagrams m seq zero (suc i) bytes h k l e = absurd (omega arith)
  get_elem?-datagrams zero seq (suc n) i bytes h k l e = absurd (omega arith)
  get_elem?-datagrams (suc m) seq (suc n) zero bytes h k l e =
      ap (λ d. get_elem? d 0) (datagrams-long m seq bytes (omega arith))
      ∙ same_frame {last = false} {last' = 0 == suc n} {j = seq} {j' = seq + 0} (ground arith)
          (omega arith) (ap (take 491) (drop_same bytes 0 (491 * 0) (omega arith)))
  get_elem?-datagrams (suc m) seq (suc n) (suc i) bytes h k l e =
      ap (λ d. get_elem? d (suc i)) (datagrams-long m seq bytes (omega arith))
      ∙ get_elem?-datagrams m (seq + 1) n i (drop 491 bytes) (omega arith)
          (omega (arith, length-drop 491 bytes)) (omega (arith, length-drop 491 bytes))
          (omega arith)
      ∙ same_frame {last = i == n} {last' = suc i == suc n} {j = seq + 1 + i} {j' = seq + suc i}
          (ground arith) (omega arith)
          (ap (take 491) (
            drop-drop (491 * i) 491 bytes
            ∙ drop_same bytes (491 + 491 * i) (491 * suc i) (omega arith)))

module _ {PacketId : Type 0} ⦃o : Ord PacketId⦄ ⦃u : Uuid PacketId⦄ where
  -- What the sender makes of a packet of `n + 1` parts, the receiver takes for those parts: for every
  -- threshold and every way to cut the writes, serializing yields a packet whose datagram `i` the
  -- receive buffer receives as part `i`, the last one if `i` is `n`, with the packet's id and chunk `i` of
  -- the bytes. A packet of one part may be empty; the others have a byte in their last part.
  pub serialize-handle :
      (id : PacketId) (threshold : ℕ) (writes : List (List ℕ)) (n i : ℕ)
      (b : ReceivePacketBuffer PacketId) (socket : NonBlockingUdpSocket) (now : ℕ)
      (enough : 491 * n ≤ length (flat writes)) (fits : length (flat writes) ≤ 491 * n + 491)
      → 491 * n < length (flat writes) + (1 - n)
      → n < 2 ^ 32
      → i ≤ n
      → (packet : SerializedPacket) × (serialize_packet id threshold writes none ≡ some packet)
        × (datagram : List ℕ) × (get_elem? (map as_ref (buffers packet)) i ≡ some datagram)
        × (handle b datagram socket now
            ≡ Option.map handled_part
                (receive b (i == n) id i (chunk (flat writes) n enough fits i) socket now))
  serialize-handle id threshold writes n i b socket now enough fits fills small in_range =
      let bytes = flat writes in
      let (packet, ran, wire, fresh) =
        serialize_packet-datagrams id threshold writes (omega (arith, small, fits)) in
      (
        packet,
        ran,
        frame (part_kind (i == n)) id i (take 491 (drop (491 * i) bytes)),
        ap (λ d. get_elem? d i) wire
            ∙ get_elem?-datagrams id (length bytes) 0 n i bytes (omega (arith, fills)) fills fits
                in_range
            ∙ ap (λ j. some (frame (part_kind (i == n)) id j (take 491 (drop (491 * i) bytes))))
                (omega arith),
        handle-frame b (i == n) id i (take 491 (drop (491 * i) bytes)) socket now (omega arith),
      )
