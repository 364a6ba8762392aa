-- ===== src/Packet/Serialize/Whole.antt =====
-- `serialize_packet` as a whole: it never panics, and whether the packet is serialized at once, in
-- the background, or first the one and then the other, the same datagrams come out.

use packet_test.Common.{
  ℕ, zero, suc, ◌*◌, ◌^◌, ◌≤◌, ◌<◌, ◌≡◌, refl, ap, ◌∙◌, sym, List, [], ◌∷◌, ◌++◌, map, arith, none,
  some, ok, length, append_assoc, append-nil, length-append,
}
use packet_test.Packet.Kind.{Uuid}
use packet_test.Packet.Buffer
use packet_test.Packet.Buffer.{PacketBuffer, as_ref, mark_last, copy}
use packet_test.Packet.Buffer.Content.{new-Holds, Holds-Headed, mark_last-Holds, copy-Holds}
use packet_test.Packet.Serialize.{
  ChannelPacketSerializer, Panicking, SerializedPacket, vec, channel, tx_send, send_all,
  finish_channel, background_thread, spawn, serialize_packet,
}
use packet_test.Packet.Queue.{not_acked}
use packet_test.Packet.Serialize.Filling.{
  Full, nothing, length-Full, not_acked-Full, Full-datagrams, datagrams, get_last?-snoc,
  set_last-snoc,
}
use packet_test.Packet.Serialize.VecRun.{flat, finished, overflowed, vec_serialize_value-Outcome}
use packet_test.Packet.Serialize.ChannelRun.{
  Phase, skipping, writing, channel_state, channel_serialize_value-Runs,
}

-- The buffers that the sender's queue gets, at once or through the channel.
abbrev pub buffers : SerializedPacket → List PacketBuffer
buffers (vec bs) = bs
buffers (channel bs) = bs

send_all_room :
    (bs sent : List PacketBuffer)
    → send_all (record { received = sent; room = none }) bs
      ≡ ok (record { received = sent ++ bs; room = none })
unfolding send_all tx_send
send_all_room [] sent = rw append-nil
send_all_room (b ∷ bs) sent =
    send_all_room bs (sent ++ (b ∷ [])) ∙ rw (append_assoc sent (b ∷ []) bs)

module _ {PacketId : Type 0} ⦃u : Uuid PacketId⦄ (id : PacketId) where
  -- The result of a serialization that puts the bytes `total` on the wire.
  abbrev pub Delivers : Panicking SerializedPacket → List ℕ → Type 0
  Delivers r total =
      (p : SerializedPacket) × (r ≡ some p)
      × (map as_ref (buffers p) ≡ datagrams (length total) id 0 total)
      × (not_acked (buffers p) ≡ buffers p)

  start-Phase :
      (already : List PacketBuffer) (p₀ left total : List ℕ) (before : Full id 0 already p₀)
      (all : p₀ ++ left ≡ total) (some_left : 0 < length already → 0 < length left)
      (small : length total ≤ 491 * 2 ^ 32)
      → Phase id already p₀ left total before all some_left small
          (channel_state (length already) (Buffer.new id) already)
          total
  start-Phase [] p₀ left total before all some_left small =
      writing [] (Buffer.new id) [] [] nothing (new-Holds id) (λ h. absurd (omega arith)) refl refl
  start-Phase (b ∷ bs) p₀ left total before all some_left small =
      let h = new-Holds id in
      skipping (length bs) 0 0 (Buffer.new id) [] (Holds-Headed h) h.used (omega arith)
        (omega arith) (omega arith) refl refl

  -- The end of the thread, where all bytes have been written.
  module _ (already : List PacketBuffer) (p₀ left total : List ℕ) (before : Full id 0 already p₀)
      (all : p₀ ++ left ≡ total) (some_left : 0 < length already → 0 < length left)
      (small : length total ≤ 491 * 2 ^ 32) where
    finish-Phase :
        {s : ChannelPacketSerializer}
        → Phase id already p₀ left total before all some_left small s []
        → (bs : List PacketBuffer) × (finish_channel s ≡ some bs)
          × (map as_ref bs ≡ datagrams (length total) id 0 total)
          × (not_acked bs ≡ bs)
    unfolding finish_channel tx_send
    finish-Phase (skipping k seq r b c h len fits pos turn cover e) = absurd (
        omega (
          arith,
          some_left (omega arith),
          ap length all,
          length-append p₀ left,
          length-Full before,
          ap length cover,
          length-append c [],
        ))
    finish-Phase (writing sent b p q run h ne cover e) =
        let whole : p ++ q ≡ total = sym (append-nil (p ++ q)) ∙ cover in
        (
          sent ++ (copy (mark_last b) ∷ []),
          rw e,
          Full-datagrams (length total) (copy (mark_last b)) q (length sent) run (omega arith)
                (copy-Holds (mark_last-Holds h))
                (omega (arith, length-Full run, ap length whole, length-append p q)) ne
              ∙ ap (datagrams (length total) id 0) whole,
          not_acked-Full (copy (mark_last b)) run (copy-Holds (mark_last-Holds h)).fresh,
        )

  spawn-Delivers :
      (already : List PacketBuffer) (p₀ left : List ℕ) (writes : List (List ℕ))
      → Full id 0 already p₀
      → p₀ ++ left ≡ flat writes
      → (0 < length already → 0 < length left)
      → length (flat writes) ≤ 491 * 2 ^ 32
      → Delivers (spawn id already writes none) (flat writes)
  unfolding spawn background_thread
  spawn-Delivers already p₀ left writes before all some_left small =
      let start = start-Phase already p₀ left (flat writes) before all some_left small in
      let (s, ran, end) =
        channel_serialize_value-Runs id already p₀ left (flat writes) before all some_left small
          writes (channel_state (length already) (Buffer.new id) already) start in
      let (bs, finished_ok, wire, fresh) =
        finish-Phase already p₀ left (flat writes) before all some_left small end in
      (channel bs, ground (arith, send_all_room already [], ran, finished_ok), wire, fresh)

  -- Whatever the threshold and however rkyv cuts its writes, `serialize_packet` yields buffers, without
  -- a panic and without running out of fuel, while the receiver stays and the packet has at most 2^32
  -- parts; on the wire they are the bytes written, in order, in parts of 491 bytes with ascending
  -- sequence indices, the last one marked as the last, and none of the buffers is acked.
  pub serialize_packet-datagrams :
      (threshold : ℕ) (writes : List (List ℕ))
      → length (flat writes) ≤ 491 * 2 ^ 32
      → Delivers (serialize_packet id threshold writes none) (flat writes)
  unfolding serialize_packet
  serialize_packet-datagrams zero writes small =
      spawn-Delivers [] [] (flat writes) writes nothing refl (λ h. absurd (omega arith)) small
  serialize_packet-datagrams (suc n) writes small =
      elim (vec_serialize_value-Outcome id (suc n) writes [] (Buffer.new id) [] [] nothing
        (new-Holds id) (λ h. absurd (omega arith)) (omega (arith, small))) [
          | finished init last p q before within all ne e ↦ (
            vec (init ++ (mark_last last ∷ [])),
            ground (arith, e, get_last?-snoc init last, set_last-snoc init last (mark_last last)),
            Full-datagrams (length (flat writes)) (mark_last last) q (length init) before
                  (omega arith) (mark_last-Holds within)
                  (omega (arith, length-Full before, ap length all, length-append p q)) ne
                ∙ ap (datagrams (length (flat writes)) id 0) all,
            not_acked-Full (mark_last last) before (mark_last-Holds within).fresh,
          )
          | overflowed bufs p left before all more count e ↦
              let (packet, ran, wire, fresh) =
                spawn-Delivers bufs p left writes before all (λ _. more) small in
              (packet, ground (arith, e, ran), wire, fresh)
        ]
