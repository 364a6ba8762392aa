-- ===== src/Client/Panics/Tests.antt =====
-- A datagram that is late, and requests of the user.
use packet_test.Client.Connection.{query, connect}
use packet_test.Client.Requests.{listen}
use packet_test.Common.{ok, ℕ, ◌≡◌, arith, [], ◌∷◌, none, some, get_elem?}
use packet_test.Common.Dict.{nat_ord}
use packet_test.Handler.Buffers.{handle_buffers}
use packet_test.Packet.Kind.{to_byte, from_byte}
use packet_test.Packet.Frame.{frame}
use packet_test.Packet.Buffers
use packet_test.Packet.Buffers.{PacketBuffers}
use packet_test.Packet.Buffers.Panics.{Late}
use packet_test.Packet.Tests.{nat_uuid}
use packet_test.Client.{ServerState, ServerListener, Client, position}
use packet_test.Client.Receive.{handle_compatible, handle_datagram}
use packet_test.Client.Panics.{client_panics-Late, requests_total}
use packet_test.Server.Fixtures.{rkyv}
use packet_test.Server.Panics.Tests.{draining, late, overrun}
use packet_test.Session.Tests.{client_handler, newcomer}

abbrev listening : Client ℕ ℕ
listening = record newcomer {
  listeners = record { server_addr = 8; state = ServerState.compatible draining 50 } ∷ [];
}

panics : handle_datagram rkyv client_handler [] listening 8 late 70 ≡ none
unfolding handle_datagram position handle_compatible handle_buffers Buffers.handle frame to_byte
    from_byte
panics = ground (arith, overrun (record { socket = listening.socket; addr = 8 }))

client_panics-Late_example :
    (index : ℕ) × (l : ServerListener ℕ ℕ) × (b : PacketBuffers ℕ) × (last : ℕ) × (position 8
        listening.listeners
      ≡ some index)
    × (get_elem? listening.listeners index ≡ some l)
    × (l.state ≡ ServerState.compatible b last)
    × Late b.receive_buffer late
client_panics-Late_example = client_panics-Late rkyv client_handler [] listening 8 late 70 panics

requests_total_example :
    (¬ (listen listening 9 70 ≡ none))
    × (¬ (query listening 9 5 ((1 ∷ 5 ∷ []) ∷ []) 70 ≡ none))
    × (¬ (connect listening (ok 8) 5 ((1 ∷ 5 ∷ []) ∷ []) 70 ≡ none))
requests_total_example = requests_total ((1 ∷ 5 ∷ []) ∷ []) (omega arith) listening 9 (ok 8) 5 70
