-- ===== src/Packet/Frame.antt =====
-- The datagrams of src/packet.rs: the layouts that `ack` and `done` write, and the slices that the
-- two `handle` functions cut out of a datagram.
pub mod Slices
use packet_test.Common.{
  ℕ, suc, ◌+◌, ◌-◌, ◌^◌, ◌≤◌, ◌<◌, ◌≡◌, refl, ap, ◌∙◌, sym, List, [], ◌∷◌, ◌++◌, Option, none, some,
  Result, ok, err, map_err, Bool, true, false, arith, leb, if◌then◌else◌, length, take, drop,
  length-append, take-append_left, drop-append_left, drop-drop,
}
use mathlib.Core.Option
use packet_test.Common.Bytes.{
  get_range, get_from, to_le_bytes, from_le_bytes, length-to_le_bytes, from-to_le_bytes,
}
use packet_test.Socket.{NonBlockingUdpSocket, IoError, send}
use packet_test.Packet.Kind.{
  PacketKind, part, last_part, to_byte, Uuid, kind_size, id_size, seq_size, packet_buffer_size,
}
use packet_test.Packet.Error.{PacketReceiveError, PacketReceiveErrorKind}

-- The slices of the sequence index and of the payload; `none` is the `Malformed` answer.
unfoldable pub seq_index_of : List ℕ → Option ℕ
seq_index_of buf =
    Option.map from_le_bytes (get_range buf (kind_size + id_size) (kind_size + id_size + seq_size))

unfoldable pub payload_of : List ℕ → Option (List ℕ)
payload_of buf = get_from buf (kind_size + id_size + seq_size)

module _ {PacketId : Type 0} ⦃u : Uuid PacketId⦄ where
  -- The datagram of a part: kind, id, little-endian sequence index, payload.
  unfoldable pub frame : PacketKind → PacketId → ℕ → List ℕ → List ℕ
  frame kind id seq payload = to_byte kind ∷ (u.as_bytes id ++ (to_le_bytes 4 seq ++ payload))

  pub length-frame :
      (kind : PacketKind) (id : PacketId) (seq : ℕ) (payload : List ℕ)
      → length (frame kind id seq payload) ≡ 21 + length payload
  unfolding frame
  length-frame kind id seq payload = omega (
    arith,
    length-append (u.as_bytes id) (to_le_bytes 4 seq ++ payload),
    length-append (to_le_bytes 4 seq) payload,
    u.length-as_bytes id,
    length-to_le_bytes 4 seq,
  )

  -- The array that `ack` fills, and the function `ack`: a send that would block is no error.
  unfoldable pub ack_bytes : PacketId → ℕ → List ℕ
  ack_bytes id seq_index = to_byte PacketKind.ack ∷ (u.as_bytes id ++ to_le_bytes 4 seq_index)

  abbrev pub ack_result :
      PacketId → Result IoError Bool → Result (PacketReceiveError PacketId) (Unit {0})
  ack_result id (ok _) = ok tt
  ack_result id (err e) = err (record { id = id; kind = PacketReceiveErrorKind.io e })

  unfoldable pub ack :
      PacketId
      → ℕ
      → NonBlockingUdpSocket
      → Result (PacketReceiveError PacketId) (Unit {0}) × NonBlockingUdpSocket
  ack id seq_index socket =
      let (r, socket') = send socket (ack_bytes id seq_index) in (ack_result id r, socket')

  -- The array that `done` of src/packet/send.rs fills, and that function.
  unfoldable pub done_bytes : PacketId → List ℕ
  done_bytes id = to_byte PacketKind.done ∷ u.as_bytes id

  unfoldable pub done : PacketId → NonBlockingUdpSocket → Result IoError Bool × NonBlockingUdpSocket
  done id socket = send socket (done_bytes id)

  -- The slice of the id. `none` is the `Malformed` answer; the `unwrap` of `from_slice` is the
  -- inner `none`.
  unfoldable pub id_of : List ℕ → Option (Option PacketId)
  id_of buf = Option.map u.from_slice (get_range buf kind_size (kind_size + id_size))
