-- ===== src/Packet/Reassemble.antt =====
-- src/packet/receive.rs. `BitVec` and `AlignedVec` are the lists of their elements. `none` is a panic,
-- that of a sum or a difference out of range too.
pub mod Seen
pub mod Count
pub mod Order
pub mod Delivery
pub mod Duplicates
use packet_test.Common.{
  ℕ, zero, suc, ◌+◌, ◌-◌, ◌*◌, ◌/◌, List, [], ◌∷◌, ◌++◌, Option, none, some, Bool, true, false, leb,
  ltb, ◌==◌, if◌then◌else◌, ◌^◌, ◌||◌, ◌&&◌, not, length, drop, set, get_or, replicate,
}
use packet_test.Common.Bytes.{copy_at}
use packet_test.Packet.Kind.{part_packet_payload_size}
use packet_test.Packet.Serialize.{Panicking}

pub record ReassembledPacket : Type 0 where
  pub payload : List ℕ
  pub received_chunks : List Bool
  pub first_pending : ℕ
  pub received_count : ℕ
  pub max_index : Option ℕ

pub data ReceivedPacket : Type 0 where
  pending : ReceivedPacket
  duplicate : ReceivedPacket
  reassembled : List ℕ → ReceivedPacket

unfoldable pub new : ReassembledPacket
new = record {
  payload = [];
  received_chunks = [];
  first_pending = 0;
  received_count = 0;
  max_index = none;
}

-- `if n > len { resize(n, v) }`.
unfoldable pub grow {ℓ} : {A : Type ℓ} → List A → ℕ → A → List A
grow xs n v = xs ++ replicate (n - length xs) v

-- `first_zero`, or the length.
unfoldable pub first_zero : List Bool → ℕ
first_zero [] = 0
first_zero (bit ∷ bits) = if bit then suc (first_zero bits) else 0

-- `Some(received_count) == max_index`.
abbrev pub is_complete : ℕ → Option ℕ → Bool
is_complete count none = false
is_complete count (some n) = count == n

-- `first_pending & !0xFF`.
abbrev pub round_down : ℕ → ℕ
round_down n = n / 256 * 256

-- Whether a number is no `u32`.
abbrev pub beyond_u32 : ℕ → Bool
beyond_u32 n = leb (2 ^ 32) n

-- `receive`, for a chunk that is new: whether `u32::try_from(byte_boundary).unwrap()`, the sum for
-- `first_pending` or that for `received_count` panics.
unfoldable pub overflows : ReassembledPacket → Bool
overflows r =
    let boundary = round_down (first_zero r.received_chunks) in
    beyond_u32 boundary
    || beyond_u32 (r.first_pending + boundary)
    || (not (is_complete r.received_count r.max_index) && beyond_u32 (r.received_count + 1))

-- `receive`, for a chunk that is new, what it does where it does not panic.
unfoldable pub take_chunk : ReassembledPacket → ℕ → List ℕ → ReceivedPacket × ReassembledPacket
take_chunk r seq_index chunk =
    let boundary = round_down (first_zero r.received_chunks) in
    let start = part_packet_payload_size * seq_index in
    let payload = copy_at (grow r.payload (start + length chunk) 0) start chunk in
    let r' : ReassembledPacket = record r {
      received_chunks = drop boundary r.received_chunks;
      first_pending = r.first_pending + boundary;
      payload = payload;
    } in
    if is_complete r.received_count r.max_index
    then (reassembled payload, r')
    else (pending, record r' { received_count = r.received_count + 1 })

unfoldable pub receive :
    ReassembledPacket → Bool → ℕ → List ℕ → Panicking (ReceivedPacket × ReassembledPacket)
receive r last seq_index chunk =
    let max_index = if last then some seq_index else r.max_index in
    let offset = seq_index - r.first_pending in
    let chunks = grow r.received_chunks (offset + 1) false in
    let r' : ReassembledPacket = record r {
      max_index = max_index;
      received_chunks = set chunks offset true;
    } in
    -- `chunk_index - first_pending` overflows
    if ltb seq_index r.first_pending
    then none
    else if get_or chunks offset false
    then some (duplicate, r')
    else if overflows r'
    then none
    else some (take_chunk r' seq_index chunk)
