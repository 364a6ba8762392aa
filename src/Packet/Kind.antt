-- ===== src/Packet/Kind.antt =====
-- The constants of src/packet.rs, `PacketKind` and `PacketId`. The `uuid` crate is an argument.
use packet_test.Common.{ℕ, ◌-◌, ◌≡◌, refl, List, Option, none, some, ◌==◌, if◌then◌else◌, length}

-- `PACKET_BUFFER_SIZE`.
abbrev pub packet_buffer_size : ℕ
packet_buffer_size = 512

-- `size_of` of `PacketKind`, `PacketId` and `SeqIndex`.
abbrev pub kind_size : ℕ
kind_size = 1

abbrev pub id_size : ℕ
id_size = 16

abbrev pub seq_size : ℕ
seq_size = 4

abbrev pub packet_data_size : ℕ
packet_data_size = packet_buffer_size - kind_size

abbrev pub part_packet_payload_size : ℕ
part_packet_payload_size = packet_data_size - id_size - seq_size

pub data PacketKind : Type 0 where
  version ping part last_part ack done first_update : PacketKind

-- The derived `IntoPrimitive` and `TryFromPrimitive`.
unfoldable pub to_byte : PacketKind → ℕ
to_byte version = 0
to_byte ping = 1
to_byte part = 2
to_byte last_part = 3
to_byte ack = 4
to_byte done = 5
to_byte first_update = 6

unfoldable pub from_byte : ℕ → Option PacketKind
from_byte b =
    if b == 0
    then some version
    else if b == 1
    then some ping
    else if b == 2
    then some part
    else if b == 3
    then some last_part
    else if b == 4
    then some ack
    else if b == 5
    then some done
    else if b == 6
    then some first_update
    else none

pub from-to_byte : (k : PacketKind) → from_byte (to_byte k) ≡ some k
unfolding from_byte to_byte
from-to_byte version = refl
from-to_byte _ = refl

-- What the code uses of the `uuid` crate: `as_bytes` and `from_slice`, which accepts just the slices
-- of 16 bytes and reads back what `as_bytes` gives.
pub record Uuid (PacketId : Type 0) : Type 0 where
  pub as_bytes : PacketId → List ℕ
  pub from_slice : List ℕ → Option PacketId
  pub length-as_bytes : (u : PacketId) → length (as_bytes u) ≡ 16
  pub from_slice-as_bytes : (u : PacketId) → from_slice (as_bytes u) ≡ some u
  pub from_slice_total : (bs : List ℕ) → length bs ≡ 16 → (u : PacketId) × (from_slice bs ≡ some u)
