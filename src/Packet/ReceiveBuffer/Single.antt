-- ===== src/Packet/ReceiveBuffer/Single.antt =====
-- Datagrams that reach the receive buffer, packets of one part, and `Done`.
use mathlib.Core.Option
use mathlib.Core.Path.{subst}
use packet_test.Common.{
  ℕ, ◌^◌, ◌<◌, ◌≡◌, refl, ap, ◌∙◌, arith, List, [], ◌∷◌, ◌++◌, none, some, ok, err, Bool, true,
  false, if◌then◌else◌, append-nil,
}
use packet_test.Common.Bytes.{to_le_bytes}
use packet_test.Common.Dict.{Ord, get, insert, get-insert, get-remove}
use packet_test.Socket.{NonBlockingUdpSocket}
use packet_test.Packet.Kind.{PacketKind, Uuid, part, last_part, from_byte, to_byte}
use packet_test.Packet.Error.{PacketReceiveError}
use packet_test.Packet.Frame.{frame, ack, done_bytes, id_of, seq_index_of, payload_of}
use packet_test.Packet.Frame.Slices.{id_of-laid_out, seq_index_of-laid_out, payload_of-frame}
use packet_test.Packet.Reassemble.{ReceivedPacket, duplicate, reassembled}
use packet_test.Packet.ReceiveBuffer.{
  ReceivePacketBuffer, finished, acking, receive_single, receive, done, handled_part, handle_part,
  handle_done, handle,
}

-- The kind of a datagram that carries a part.
abbrev pub part_kind : Bool → PacketKind
part_kind last = if last then last_part else part

module _ {PacketId : Type 0} ⦃o : Ord PacketId⦄ ⦃u : Uuid PacketId⦄ where
  handle_part-found :
      (b : ReceivePacketBuffer PacketId) (last : Bool) (buf : List ℕ) (id : PacketId) (seq : ℕ)
      (payload : List ℕ) (socket : NonBlockingUdpSocket) (now : ℕ)
      → seq_index_of buf ≡ some seq
      → payload_of buf ≡ some payload
      → id_of buf ≡ some (some id)
      → handle_part b last buf socket now
        ≡ Option.map handled_part (receive b last id seq payload socket now)
  unfolding handle_part
  handle_part-found b last buf id seq payload socket now h k l = ground (arith, h, k, l)

  handle-part_kind :
      (b : ReceivePacketBuffer PacketId) (last : Bool) (id : PacketId) (seq : ℕ) (payload : List ℕ)
      (socket : NonBlockingUdpSocket) (now : ℕ)
      → handle b (frame (part_kind last) id seq payload) socket now
        ≡ handle_part b last (frame (part_kind last) id seq payload) socket now
  unfolding handle frame to_byte from_byte
  handle-part_kind b true id seq payload socket now = refl
  handle-part_kind b false id seq payload socket now = refl

  -- The datagram of a part, with an index below 2^32, is received as the part that was laid out:
  -- its kind, id, index and payload.
  pub handle-frame :
      (b : ReceivePacketBuffer PacketId) (last : Bool) (id : PacketId) (seq : ℕ) (payload : List ℕ)
      (socket : NonBlockingUdpSocket) (now : ℕ)
      → seq < 2 ^ 32
      → handle b (frame (part_kind last) id seq payload) socket now
        ≡ Option.map handled_part (receive b last id seq payload socket now)
  unfolding frame
  handle-frame b last id seq payload socket now small =
      handle-part_kind b last id seq payload socket now
      ∙ handle_part-found b last (frame (part_kind last) id seq payload) id seq payload socket now
          (seq_index_of-laid_out (to_byte (part_kind last)) id seq payload small)
          (payload_of-frame (part_kind last) id seq payload)
          (id_of-laid_out (to_byte (part_kind last)) id (to_le_bytes 4 seq ++ payload))

  handle_done-found :
      (b : ReceivePacketBuffer PacketId) (buf : List ℕ) (id : PacketId)
      (socket : NonBlockingUdpSocket)
      → id_of buf ≡ some (some id)
      → handle_done b buf socket ≡ some (ok (finished (done b id).0), (done b id).1, socket)
  unfolding handle_done
  handle_done-found b buf id socket h = ground (arith, h)

  -- A `Done` of the sender is answered with whether its id was known, leaves the socket as it was,
  -- and makes the buffer forget that id, and no other.
  pub handle-done_bytes :
      (b : ReceivePacketBuffer PacketId) (id : PacketId) (socket : NonBlockingUdpSocket) (now : ℕ)
      → (handle b (done_bytes id) socket now
          ≡ some (ok (finished (done b id).0), (done b id).1, socket))
        × ((j : PacketId)
            → get j (done b id).1.packets ≡ (if o.beq id j then none else get j b.packets))
  unfolding handle done_bytes to_byte from_byte done
  handle-done_bytes b id socket now = (
    handle_done-found b (5 ∷ u.as_bytes id) id socket (
        subst (λ l. id_of (5 ∷ l) ≡ some (some id)) (append-nil (u.as_bytes id))
          (id_of-laid_out 5 id [])),
    λ j. get-remove id j b.packets,
  )

  module _ (b : ReceivePacketBuffer PacketId) (id : PacketId) (payload : List ℕ)
      (socket : NonBlockingUdpSocket) (now : ℕ) (fresh : get id b.packets ≡ none) where
    -- The buffer once a packet of one part has come in.
    abbrev pub recorded : ReceivePacketBuffer PacketId
    recorded = record b {
      packets = insert id (record { last_receive = now; packet = none }) b.packets;
    }

    pub receive_first :
        receive b true id 0 payload socket now
        ≡ some (acking id 0 (reassembled payload) recorded socket)
    unfolding receive receive_single
    receive_first = ground (arith, fresh)

    pub get-recorded : get id recorded.packets ≡ some (record { last_receive = now; packet = none })
    get-recorded =
        get-insert id id (record { last_receive = now; packet = none }) b.packets
        ∙ ground (arith, o.beq_iff id id)

    receive_second :
        (other : List ℕ) (socket' : NonBlockingUdpSocket) (now' : ℕ)
        → receive recorded true id 0 other socket' now'
          ≡ some (acking id 0 duplicate recorded socket')
    unfolding receive receive_single
    receive_second other socket' now' = ground (arith, get-recorded)

  pub acking_ok :
      (id : PacketId) (a : ReceivedPacket) (b : ReceivePacketBuffer PacketId)
      (s : NonBlockingUdpSocket)
      → (ack id 0 s).0 ≡ ok tt
      → acking id 0 a b s ≡ (ok a, b, (ack id 0 s).1)
  unfolding acking
  acking_ok id a b s h = ground (arith, h)

  acking_err :
      (id : PacketId) (a : ReceivedPacket) (b : ReceivePacketBuffer PacketId)
      (s : NonBlockingUdpSocket) (e : PacketReceiveError PacketId)
      → (ack id 0 s).0 ≡ err e
      → acking id 0 a b s ≡ (err e, b, (ack id 0 s).1)
  unfolding acking
  acking_err id a b s e h = ground (arith, h)

  -- A packet of one part is handed over once, where no ack fails (one that would block is no
  -- failure): the first datagram of a new id gives the payload, and a datagram of that id as its
  -- only part again, at any later time, is a duplicate that changes nothing.
  pub single_once :
      (b : ReceivePacketBuffer PacketId) (id : PacketId) (payload other : List ℕ)
      (s s' : NonBlockingUdpSocket) (now now' : ℕ)
      → get id b.packets ≡ none
      → (ack id 0 s).0 ≡ ok tt
      → (ack id 0 s').0 ≡ ok tt
      → (after : ReceivePacketBuffer PacketId) × (receive b true id 0 payload s now
          ≡ some (ok (reassembled payload), after, (ack id 0 s).1))
        × (receive after true id 0 other s' now' ≡ some (ok duplicate, after, (ack id 0 s').1))
  single_once b id payload other s s' now now' fresh h k =
      let after = recorded b id payload s now fresh in
      (
        after,
        receive_first b id payload s now fresh
            ∙ ap some (acking_ok id (reassembled payload) after s h),
        receive_second b id payload s now fresh other s' now'
            ∙ ap some (acking_ok id duplicate after s' k),
      )

  -- If the ack of a new packet of one part fails, the payload is lost: the first datagram gives the
  -- error alone, and when it comes again, with an ack that does not fail, it is a duplicate.
  pub single_lost :
      (b : ReceivePacketBuffer PacketId) (id : PacketId) (payload : List ℕ)
      (s s' : NonBlockingUdpSocket) (now now' : ℕ) (e : PacketReceiveError PacketId)
      → get id b.packets ≡ none
      → (ack id 0 s).0 ≡ err e
      → (ack id 0 s').0 ≡ ok tt
      → (after : ReceivePacketBuffer PacketId) × (receive b true id 0 payload s now
          ≡ some (err e, after, (ack id 0 s).1))
        × (receive after true id 0 payload s' now' ≡ some (ok duplicate, after, (ack id 0 s').1))
  single_lost b id payload s s' now now' e fresh h k =
      let after = recorded b id payload s now fresh in
      (
        after,
        receive_first b id payload s now fresh
            ∙ ap some (acking_err id (reassembled payload) after s e h),
        receive_second b id payload s now fresh payload s' now'
            ∙ ap some (acking_ok id duplicate after s' k),
      )
