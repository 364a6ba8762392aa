-- ===== src/Packet/Frame/Slices.antt =====
-- What the slices of src/packet.rs find in a datagram that the sender laid out.

use packet_test.Common.{
  ℕ, ◌+◌, ◌-◌, ◌^◌, ◌≤◌, ◌<◌, ◌≡◌, refl, List, [], ◌∷◌, ◌++◌, Option, some, true, arith, leb,
  le→leb, length, take, drop, length-append, length-take, length-drop, take-append_left,
  drop-append_left, append_assoc, ◌&&◌, Bool-cases, inl, inr,
}
use packet_test.Common.Bytes.{
  get_range, get_from, to_le_bytes, length-to_le_bytes, from-to_le_bytes,
}
use packet_test.Packet.Kind.{PacketKind, Uuid, to_byte}
use packet_test.Packet.Frame.{frame, id_of, seq_index_of, payload_of}

get_range_mid :
    (xs ys zs : List ℕ) (a b : ℕ)
    → a ≡ length xs
    → b ≡ length xs + length ys
    → get_range (xs ++ (ys ++ zs)) a b ≡ some ys
unfolding get_range
get_range_mid xs ys zs a b ha hb = rw (
  le→leb a b (omega arith),
  le→leb b (length (xs ++ (ys ++ zs)))
      (omega (arith, length-append xs (ys ++ zs), length-append ys zs)),
  drop-append_left a xs (ys ++ zs) ha,
  take-append_left (b - a) ys zs (omega arith),
)

get_from_end : (xs ys : List ℕ) (a : ℕ) → a ≡ length xs → get_from (xs ++ ys) a ≡ some ys
unfolding get_from
get_from_end xs ys a ha =
    rw (
      le→leb a (length (xs ++ ys)) (omega (arith, length-append xs ys)),
      drop-append_left a xs ys ha,
    )

id_slice_long :
    (buf : List ℕ) → (leb 1 17 && leb 17 (length buf)) ≡ true → length (take 16 (drop 1 buf)) ≡ 16
id_slice_long buf e = omega (arith, length-take 16 (drop 1 buf), length-drop 1 buf, long)
  where
    long : 17 ≤ length buf
    long = ground arith

module _ {PacketId : Type 0} ⦃u : Uuid PacketId⦄ where
  module _ (k : ℕ) (id : PacketId) (rest : List ℕ) where
    pub id_of-laid_out : id_of (k ∷ (u.as_bytes id ++ rest)) ≡ some (some id)
    unfolding id_of
    id_of-laid_out = rw (
      get_range_mid (k ∷ []) (u.as_bytes id) rest 1 17 refl (omega (arith, u.length-as_bytes id)),
      u.from_slice-as_bytes id,
    )

  module _ (k : ℕ) (id : PacketId) (seq : ℕ) (rest : List ℕ) (small : seq < 2 ^ 32) where
    pub seq_index_of-laid_out :
        seq_index_of (k ∷ (u.as_bytes id ++ (to_le_bytes 4 seq ++ rest))) ≡ some seq
    unfolding seq_index_of
    seq_index_of-laid_out = rw (
      get_range_mid (k ∷ u.as_bytes id) (to_le_bytes 4 seq) rest 17 21
          (omega (arith, u.length-as_bytes id))
          (omega (arith, u.length-as_bytes id, length-to_le_bytes 4 seq)),
      from-to_le_bytes 4 seq small,
    )

  pub payload_of-frame :
      (k : PacketKind) (id : PacketId) (seq : ℕ) (rest : List ℕ)
      → payload_of (frame k id seq rest) ≡ some rest
  unfolding payload_of frame
  payload_of-frame k id seq rest = rw (← append_assoc (u.as_bytes id) (to_le_bytes 4 seq) rest) (
      get_from_end (to_byte k ∷ (u.as_bytes id ++ to_le_bytes 4 seq)) rest 21 (
        omega (
          arith,
          length-append (u.as_bytes id) (to_le_bytes 4 seq),
          u.length-as_bytes id,
          length-to_le_bytes 4 seq,
        )))

  -- The `unwrap` after `PacketId::from_slice` finds a value: the slice has 16 bytes.
  pub id_of_total :
      (buf : List ℕ) (r : Option PacketId) → id_of buf ≡ some r → (id : PacketId) × (r ≡ some id)
  unfolding id_of get_range
  id_of_total buf r h = elim (Bool-cases (leb 1 17 && leb 17 (length buf))) [
    | inl e ↦
        let (id, found) = u.from_slice_total (take 16 (drop 1 buf)) (id_slice_long buf e) in
        (id, ground arith)
    | inr e ↦ ground arith
  ]
