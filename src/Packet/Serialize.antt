-- ===== src/Packet/Serialize.antt =====
-- src/packet/serialize.rs. rkyv is an argument: what it does with a value is the list of byte strings
-- that it passes to `Serializer::write`, the same list each time it serializes that value.
pub mod Filling
pub mod VecRun
pub mod ChannelRun
pub mod Whole
use mathlib.Core.Option
use packet_test.Common.{
  ℕ, zero, suc, ◌+◌, ◌-◌, ◌*◌, List, [], ◌∷◌, ◌++◌, Option, none, some, Result, ok, err, Bool, true,
  false, ◌==◌, if◌then◌else◌, length, ltb,
}
use packet_test.Packet.Kind.{Uuid, packet_buffer_size}
use packet_test.Packet.Buffer
use packet_test.Packet.Buffer.{PacketBuffer, append, skip, next, new_next, mark_last, copy}

-- A computation that may panic: `none`. It stands for a loop that runs out of fuel too.
abbrev pub Panicking : Type 0 → Type 0
Panicking A = Option A

-- A loop on fuel: `none` is the end of the fuel, `some none` a panic.
abbrev pub Fueled : Type 0 → Type 0
Fueled A = Option (Panicking A)

pub record VecPacketSerializer : Type 0 where
  pub background_serialization_threshold : ℕ
  pub buf : List PacketBuffer

-- `last_mut`, in two parts.
unfoldable pub get_last? : List PacketBuffer → Option PacketBuffer
get_last? [] = none
get_last? (b ∷ []) = some b
get_last? (b ∷ c ∷ bs) = get_last? (c ∷ bs)

unfoldable pub set_last : List PacketBuffer → PacketBuffer → List PacketBuffer
set_last [] v = []
set_last (b ∷ []) v = v ∷ []
set_last (b ∷ c ∷ bs) v = b ∷ set_last (c ∷ bs) v

-- The loop of `VecPacketSerializer::write`, on fuel.
unfoldable pub vec_write_loop :
    ℕ → VecPacketSerializer → List ℕ → Panicking (Result (List PacketBuffer) VecPacketSerializer)
vec_write_loop zero s input = none
vec_write_loop (suc fuel) s [] = some (ok s)
vec_write_loop (suc fuel) s (x ∷ xs) = elim (get_last? s.buf) [
  | none ↦ none
  | some last ↦
      let at_limit = length s.buf == s.background_serialization_threshold in
      let (rest, last') = append last (x ∷ xs) in
      let buf' = set_last s.buf last' in
      let push = vec_write_loop fuel (record s { buf = buf' ++ (new_next last' ∷ []) }) rest in
      let again = vec_write_loop fuel (record s { buf = buf' }) rest in
      if length rest == length (x ∷ xs) then if at_limit then some (err buf') else push else again
]

-- Each round uses up a byte, or starts a buffer that takes the next one.
abbrev pub write_fuel : List ℕ → ℕ
write_fuel input = 2 * length input + 2

unfoldable pub vec_write :
    VecPacketSerializer → List ℕ → Panicking (Result (List PacketBuffer) VecPacketSerializer)
vec_write s input = vec_write_loop (write_fuel input) s input

-- `serialize_value`, which stops at the first error.
unfoldable pub vec_serialize_value :
    VecPacketSerializer → List (List ℕ) → Panicking (Result (List PacketBuffer) VecPacketSerializer)
vec_serialize_value s [] = some (ok s)
vec_serialize_value s (w ∷ ws) = elim (vec_write s w) [
  | none ↦ none
  | some (err bufs) ↦ some (err bufs)
  | some (ok s') ↦ vec_serialize_value s' ws
]

-- The sending half of the channel: what went through, and how many more messages the receiver takes
-- before it is dropped (`none`: it stays).
pub record SyncSender : Type 0 where
  pub received : List PacketBuffer
  pub room : Option ℕ

-- The error, with what the receiver had got by then.
pub data ReceiverDropped : Type 0 where
  receiver_dropped : List PacketBuffer → ReceiverDropped

abbrev pub got_before_drop : ReceiverDropped → List PacketBuffer
got_before_drop (receiver_dropped bs) = bs

unfoldable pub tx_send : SyncSender → PacketBuffer → Result ReceiverDropped SyncSender
tx_send tx b = elim tx.room [
  | none ↦ ok (record tx { received = tx.received ++ (b ∷ []) })
  | some zero ↦ err (receiver_dropped tx.received)
  | some (suc n) ↦ ok (record { received = tx.received ++ (b ∷ []); room = some n })
]

pub record ChannelPacketSerializer : Type 0 where
  pub skip : ℕ
  pub buf : PacketBuffer
  pub tx : SyncSender

-- `next` with its assertion.
unfoldable pub checked_next : PacketBuffer → Panicking PacketBuffer
checked_next b = if b.len == packet_buffer_size then some (next b) else none

-- What a full buffer does before `next`: one is skipped less, or it is sent.
unfoldable pub pass_full : ChannelPacketSerializer → Result ReceiverDropped ChannelPacketSerializer
pass_full s =
    if ltb 0 s.skip
    then ok (record s { skip = s.skip - 1 })
    else elim (tx_send s.tx (copy s.buf)) [ ok tx' ↦ ok (record s { tx = tx' }) | err e ↦ err e ]

-- The loop of `ChannelPacketSerializer::write`, on fuel.
unfoldable pub channel_write_loop :
    ℕ
    → ChannelPacketSerializer
    → List ℕ
    → Panicking (Result ReceiverDropped ChannelPacketSerializer)
channel_write_loop zero s input = none
channel_write_loop (suc fuel) s [] = some (ok s)
channel_write_loop (suc fuel) s (x ∷ xs) =
    let (rest, buf') = if ltb 0 s.skip then skip s.buf (x ∷ xs) else append s.buf (x ∷ xs) in
    let s' : ChannelPacketSerializer = record s { buf = buf' } in
    let again = channel_write_loop fuel s' rest in
    let passed : Panicking (Result ReceiverDropped ChannelPacketSerializer) = elim (pass_full s') [
      | err e ↦ some (err e)
      | ok s'' ↦ elim (checked_next s''.buf) [
        | none ↦ none
        | some b ↦ channel_write_loop fuel (record s'' { buf = b }) rest
      ]
    ] in
    if length rest == length (x ∷ xs) then passed else again

unfoldable pub channel_write :
    ChannelPacketSerializer → List ℕ → Panicking (Result ReceiverDropped ChannelPacketSerializer)
channel_write s input = channel_write_loop (write_fuel input) s input

unfoldable pub channel_serialize_value :
    ChannelPacketSerializer
    → List (List ℕ)
    → Panicking (Result ReceiverDropped ChannelPacketSerializer)
channel_serialize_value s [] = some (ok s)
channel_serialize_value s (w ∷ ws) = elim (channel_write s w) [
  | none ↦ none
  | some (err e) ↦ some (err e)
  | some (ok s') ↦ channel_serialize_value s' ws
]

-- The first loop of the thread: the buffers that are ready already.
unfoldable pub send_all : SyncSender → List PacketBuffer → Result ReceiverDropped SyncSender
send_all tx [] = ok tx
send_all tx (b ∷ bs) = elim (tx_send tx b) [ err e ↦ err e | ok tx' ↦ send_all tx' bs ]

-- What the receiver gets of a send whose failure the thread ignores.
abbrev pub all_received : Result ReceiverDropped SyncSender → List PacketBuffer
all_received (ok tx) = tx.received
all_received (err e) = got_before_drop e

-- The end of the thread: the assertion, then the last buffer.
unfoldable pub finish_channel : ChannelPacketSerializer → Panicking (List PacketBuffer)
finish_channel s =
    if s.skip == 0 then some (all_received (tx_send s.tx (copy (mark_last s.buf)))) else none

pub data SerializedPacket : Type 0 where
  vec : List PacketBuffer → SerializedPacket
  -- The messages that come through the channel before it closes.
  channel : List PacketBuffer → SerializedPacket

module _ {PacketId : Type 0} ⦃u : Uuid PacketId⦄ where
  -- The thread, as far as the receiver sees it: the messages that it got.
  unfoldable pub background_thread :
      PacketId → List PacketBuffer → List (List ℕ) → Option ℕ → Panicking (List PacketBuffer)
  background_thread id already_serialized writes room =
      elim (send_all (record { received = []; room = room }) already_serialized) [
        | err e ↦ some (got_before_drop e)
        | ok tx ↦
            elim (channel_serialize_value
              (record { skip = length already_serialized; buf = Buffer.new id; tx = tx }) writes) [
                | none ↦ none
                | some (err e) ↦ some (got_before_drop e)
                | some (ok s) ↦ finish_channel s
              ]
      ]

  unfoldable pub spawn :
      PacketId → List PacketBuffer → List (List ℕ) → Option ℕ → Panicking SerializedPacket
  spawn id already_serialized writes room =
      Option.map channel (background_thread id already_serialized writes room)

  -- `serialize_packet`. `room` is how many messages the receiver takes.
  unfoldable pub serialize_packet :
      PacketId → ℕ → List (List ℕ) → Option ℕ → Panicking SerializedPacket
  serialize_packet id zero writes room = spawn id [] writes room
  serialize_packet id (suc n) writes room =
      elim (vec_serialize_value
        (record { background_serialization_threshold = suc n; buf = Buffer.new id ∷ [] }) writes) [
          | none ↦ none
          | some (err already_serialized) ↦ spawn id already_serialized writes room
          | some (ok s) ↦ elim (get_last? s.buf) [
            | none ↦ none
            | some last ↦ some (vec (set_last s.buf (mark_last last)))
          ]
        ]
