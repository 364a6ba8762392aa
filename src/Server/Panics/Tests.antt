-- ===== src/Server/Panics/Tests.antt =====
-- A datagram that is late.
use packet_test.Common.{
  ℕ, ◌≤◌, ◌*◌, ◌^◌, ◌≡◌, refl, ◌∙◌, arith, List, [], ◌∷◌, none, some, true, length, false,
}
use packet_test.Common.Dict.{nat_ord, get}
use packet_test.Handler.Buffers.{handle_buffers}
use packet_test.Socket.{NonBlockingUdpSocket}
use packet_test.Packet.Kind.{part, to_byte}
use packet_test.Packet.Frame.{frame}
use packet_test.Packet.Packets.{ServerConnectionPacket}
use packet_test.Packet.Reassemble
use packet_test.Packet.Reassemble.{ReassembledPacket}
use packet_test.Packet.Serialize.VecRun.{flat}
use packet_test.Packet.Buffers
use packet_test.Packet.Buffers.{PacketBuffers}
use packet_test.Packet.ReceiveBuffer.{handle, receive, receive_part}
use packet_test.Packet.ReceiveBuffer.Single.{handle-frame}
use packet_test.Packet.Buffers.Panics.{Late}
use packet_test.Packet.Tests.{nat_uuid, both}
use packet_test.Server.{Server, client}
use packet_test.Server.Fixtures.{numbers, rkyv, handler, empty_server}
use packet_test.Server.Loop.{handle_datagram, handle_listener}
use packet_test.Server.Panics.{KeptFor, server_panics-Late}

abbrev drained : ReassembledPacket
drained = record {
  payload = [];
  received_chunks = true ∷ [];
  first_pending = 256;
  received_count = 257;
  max_index = none;
}

abbrev pub draining : PacketBuffers ℕ
draining = record both {
  receive_buffer = record {
    packets = (9, record { last_receive = 50; packet = some drained }) ∷ [];
  };
}

abbrev hosting : Server ℕ
hosting = record empty_server { listeners = (60, draining) ∷ [] }

abbrev pub late : List ℕ
late = frame {PacketId = ℕ} part 9 3 (1 ∷ [])

small : (p : ServerConnectionPacket numbers) → length (flat (rkyv.write_server p)) ≤ 491 * 2 ^ 32
small (ServerConnectionPacket.status x) = omega arith
small (ServerConnectionPacket.accept x) = omega arith
small (ServerConnectionPacket.reject x) = omega arith
small (ServerConnectionPacket.kick x) = omega arith
small (ServerConnectionPacket.user x) = omega arith

pub overrun : (socket : NonBlockingUdpSocket) → handle draining.receive_buffer late socket 70 ≡ none
unfolding receive receive_part get Reassemble.receive
overrun socket =
    handle-frame {PacketId = ℕ} draining.receive_buffer false 9 3 (1 ∷ []) socket 70 (omega arith)
    ∙ refl

panics : handle_datagram rkyv handler [] hosting 3 60 late 70 ≡ none
unfolding handle_datagram client get handle_listener handle_buffers Buffers.handle frame to_byte
panics = ground (arith, overrun (record { socket = hosting.socket; addr = 60 }))

server_panics-Late_example :
    (b : PacketBuffers ℕ) × KeptFor hosting 60 b × Late b.receive_buffer late
server_panics-Late_example =
    server_panics-Late rkyv handler small (λ v. omega arith) [] hosting 3 60 late 70 panics
