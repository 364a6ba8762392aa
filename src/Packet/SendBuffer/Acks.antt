-- ===== src/Packet/SendBuffer/Acks.antt =====
-- Acks that arrive at the send buffer, and the well-formedness that its operations keep.
use mathlib.Core.Path.{subst}
use packet_test.Common.{
  ℕ, ◌^◌, ◌≤◌, ◌<◌, ◌≡◌, sym, arith, List, [], ◌∷◌, ◌++◌, none, some, Result, ok, err, Bool,
  Option-cases, Bool-cases, inl, inr, append-nil,
}
use packet_test.Common.Bytes.{to_le_bytes}
use packet_test.Common.Dict.{Ord, Dict, get, insert, retain}
use packet_test.Packet.Kind.{Uuid, from_byte, to_byte}
use packet_test.Packet.Error.{PacketAckErrorKind, HandlePacketError, ack_error}
use packet_test.Packet.Frame.{id_of, seq_index_of, ack_bytes}
use packet_test.Packet.Frame.Slices.{id_of-laid_out, seq_index_of-laid_out, id_of_total}
use packet_test.Packet.Out
use packet_test.Packet.Out.{PacketOut, u16_max}
use packet_test.Packet.Out.Batch.{IsValid, ack-IsValid}
use packet_test.Packet.SendBuffer.{
  SendPacketBuffer, SentPacketHandling, acked, ack, handle_ack, handle,
}

-- Every packet of the map is well formed.
abbrev pub AllValid : {PacketId : Type 0} → Dict PacketId PacketOut → Type 0
AllValid [] = Unit
AllValid ((id, p) ∷ m) = IsValid p × AllValid m

-- The buffer's batch size is a positive u16, and its packets are well formed.
pub record BufferIsValid {PacketId : Type 0} (s : SendPacketBuffer PacketId) : Type 0 where
  pub batch_pos : 1 ≤ s.batch_size
  pub batch_max : s.batch_size ≤ u16_max
  pub packets_valid : AllValid s.packets

module _ {PacketId : Type 0} ⦃o : Ord PacketId⦄ where
  AllValid-get :
      (id : PacketId) (m : Dict PacketId PacketOut) (p : PacketOut)
      → AllValid m
      → get id m ≡ some p
      → IsValid p
  unfolding get
  AllValid-get id [] p v e = cc
  AllValid-get id ((j, q) ∷ m) p v e = elim (Bool-cases (o.beq j id)) [
    | inl same ↦ subst IsValid (ground (arith, same)) v.0
    | inr other ↦ AllValid-get id m p v.1 (ground (arith, other))
  ]

  AllValid-insert :
      (id : PacketId) (p : PacketOut) (m : Dict PacketId PacketOut)
      → IsValid p
      → AllValid m
      → AllValid (insert id p m)
  unfolding insert
  AllValid-insert id p [] h v = (h, tt)
  AllValid-insert id p ((j, q) ∷ m) h v = elim (Bool-cases (o.beq j id)) [
    | inl same ↦ rw same (h, v.1)
    | inr other ↦ elim (Bool-cases (o.less id j)) [
      | inl before ↦ rw (other, before) (h, v)
      | inr after ↦ rw (other, after) (v.0, AllValid-insert id p m h v.1)
    ]
  ]

  AllValid-retain :
      (test : PacketOut → Bool) (m : Dict PacketId PacketOut)
      → AllValid m
      → AllValid (retain test m)
  unfolding retain
  AllValid-retain test [] v = tt
  AllValid-retain test ((j, q) ∷ m) v = elim (Bool-cases (test q)) [
    | inl kept ↦ rw kept (v.0, AllValid-retain test m v.1)
    | inr dropped ↦ rw dropped (AllValid-retain test m v.1)
  ]

module _ {PacketId : Type 0} ⦃o : Ord PacketId⦄ ⦃u : Uuid PacketId⦄ where
  -- What `handle` makes of the answer of `ack`.
  abbrev answered :
      PacketId
      → Result PacketAckErrorKind Bool
      → Result (HandlePacketError PacketId) SentPacketHandling
  answered id (ok duplicate) = ok (acked duplicate)
  answered id (err kind) = err (ack_error (record { id = id; kind = kind }))

  handle_ack-found :
      (s : SendPacketBuffer PacketId) (buf : List ℕ) (id : PacketId) (seq_index : ℕ)
      → id_of buf ≡ some (some id)
      → seq_index_of buf ≡ some seq_index
      → handle_ack s buf ≡ some (answered id (ack s id seq_index).0, (ack s id seq_index).1)
  unfolding handle_ack
  handle_ack-found s buf id seq_index h k = ground (arith, h, k)

  -- The datagram that the receiver's `ack` lays out is handled as the ack of that part, and of no other.
  pub handle-ack_bytes :
      (s : SendPacketBuffer PacketId) (id : PacketId) (seq_index : ℕ)
      → seq_index < 2 ^ 32
      → handle s (ack_bytes id seq_index)
        ≡ some (answered id (ack s id seq_index).0, (ack s id seq_index).1)
  unfolding handle ack_bytes to_byte from_byte
  handle-ack_bytes s id seq_index small =
      handle_ack-found s (4 ∷ (u.as_bytes id ++ to_le_bytes 4 seq_index)) id seq_index
        (id_of-laid_out 4 id (to_le_bytes 4 seq_index))
        (subst (λ l. seq_index_of (4 ∷ (u.as_bytes id ++ l)) ≡ some seq_index)
          (append-nil (to_le_bytes 4 seq_index)) (seq_index_of-laid_out 4 id seq_index [] small))

  handle_ack_total : (s : SendPacketBuffer PacketId) (buf : List ℕ) → ¬ (handle_ack s buf ≡ none)
  unfolding handle_ack
  handle_ack_total s buf panics = elim (Option-cases (id_of ⦃u = u⦄ buf)) [
    | inl short ↦ ground (arith, short)
    | inr (found, h) ↦ let (id, e) = id_of_total buf found h in ground (arith, h, e)
  ]

  -- No datagram makes the send buffer panic.
  pub handle_total : (s : SendPacketBuffer PacketId) (buf : List ℕ) → ¬ (handle s buf ≡ none)
  unfolding handle
  handle_total s [] panics = ground arith
  handle_total s (k ∷ buf) panics = ground (arith, handle_ack_total s (k ∷ buf))

  ack_found :
      (s : SendPacketBuffer PacketId) (id : PacketId) (seq_index : ℕ) (p : PacketOut)
      → get id s.packets ≡ some p
      → (ack s id seq_index).1 ≡ record s { packets = insert id (Out.ack p seq_index).1 s.packets }
  unfolding ack
  ack_found s id seq_index p e = ground (arith, e)

  -- An ack, whatever its id and index, keeps a well-formed send buffer well formed.
  pub ack-BufferIsValid :
      (s : SendPacketBuffer PacketId) (id : PacketId) (seq_index : ℕ)
      → BufferIsValid s
      → BufferIsValid (ack s id seq_index).1
  unfolding ack
  ack-BufferIsValid s id seq_index v = elim (Option-cases (get id s.packets)) [
    | inl missing ↦ ground (arith, missing)
    | inr (p, found) ↦
        let p' = (Out.ack p seq_index).1 in
        let kept =
          AllValid-insert id p' s.packets
            (ack-IsValid p seq_index (AllValid-get id s.packets p v.packets_valid found))
            v.packets_valid in
        subst BufferIsValid (sym (ack_found s id seq_index p found))
          (record { batch_pos = v.batch_pos; batch_max = v.batch_max; packets_valid = kept })
  ]
