-- ===== src/Packet/Buffer.antt =====
-- `PacketBuffer` of src/packet/send.rs: one datagram of a packet, in an array of 512 bytes.
pub mod Content
use packet_test.Common.{ℕ, ◌+◌, ◌-◌, min, List, [], ◌∷◌, Bool, false, length, take, drop, replicate}
use packet_test.Common.Bytes.{to_le_bytes, from_le_bytes, copy_at}
use packet_test.Packet.Kind.{
  Uuid, PacketKind, part, last_part, to_byte, kind_size, id_size, seq_size, packet_buffer_size,
}

pub record PacketBuffer : Type 0 where
  pub acked : Bool
  pub len : ℕ
  pub bytes : List ℕ

abbrev pub header_len : ℕ
header_len = kind_size + id_size + seq_size

-- The default `AlignedBytes`.
unfoldable pub zeroed : List ℕ
zeroed = replicate packet_buffer_size 0

-- `append`: copies what fits, and returns what is left.
unfoldable pub append : PacketBuffer → List ℕ → List ℕ × PacketBuffer
append b input =
    let n = min (length input) (packet_buffer_size - b.len) in
    (drop n input, record b { bytes = copy_at b.bytes b.len (take n input); len = b.len + n })

-- `skip`: moves on as `append` does, and writes nothing.
unfoldable pub skip : PacketBuffer → List ℕ → List ℕ × PacketBuffer
skip b input =
    let n = min (length input) (packet_buffer_size - b.len) in
    (drop n input, record b { len = b.len + n })

unfoldable pub new : {PacketId : Type 0} ⦃u : Uuid PacketId⦄ → PacketId → PacketBuffer
new ⦃u⦄ id =
    let b₀ : PacketBuffer = record { acked = false; len = 0; bytes = zeroed } in
    let b₁ = (append b₀ (to_byte part ∷ [])).1 in
    let b₂ = (append b₁ (u.as_bytes id)).1 in
    let b₃ = (append b₂ (to_le_bytes 4 0)).1 in record b₃ { len = header_len }

unfoldable pub copy : PacketBuffer → PacketBuffer
copy b = record { acked = false; len = b.len; bytes = copy_at zeroed 0 (take b.len b.bytes) }

-- `inc_seq_index`; the addition is exact below 2^32.
unfoldable pub inc_seq_index : PacketBuffer → PacketBuffer
inc_seq_index b =
    let start = kind_size + id_size in
    let next_seq_index = from_le_bytes (take seq_size (drop start b.bytes)) + 1 in
    record b { bytes = copy_at b.bytes start (to_le_bytes 4 next_seq_index) }

-- `next`, whose assertion on the length is `Writer`'s to meet.
unfoldable pub next : PacketBuffer → PacketBuffer
next b = inc_seq_index (record b { len = header_len })

unfoldable pub mark_last : PacketBuffer → PacketBuffer
mark_last b = record b { bytes = copy_at b.bytes 0 (to_byte last_part ∷ []) }

unfoldable pub new_next : PacketBuffer → PacketBuffer
new_next b =
    inc_seq_index (record {
      acked = false;
      len = header_len;
      bytes = copy_at zeroed 0 (take header_len b.bytes);
    })

-- `Deref`: the bytes in use.
unfoldable pub as_ref : PacketBuffer → List ℕ
as_ref b = take b.len b.bytes
