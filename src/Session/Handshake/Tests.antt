-- ===== src/Session/Handshake/Tests.antt =====
-- A handshake on small inputs.
use packet_test.Common.{ℕ, ◌≡◌, refl, arith, List, [], ◌∷◌, ◌++◌, map, none, some, ok, false}
use packet_test.Common.Dict.{nat_ord, get}
use packet_test.Handler.{raw_packet, RawPacket}
use packet_test.Handler.Buffers.Single.{arrival}
use packet_test.Packet.Tests.{nat_uuid, both}
use packet_test.Server.{ClientConnection, Server, client}
use packet_test.Server.Handle
use packet_test.Server.Handle.{reported}
use packet_test.Server.Fixtures.{rkyv, handler, empty_server}
use packet_test.Server.Loop
use packet_test.Client.{ServerState, Client, connected, server_addr}
use packet_test.Client.Connection
use packet_test.Client.Receive
use packet_test.Client.Receive.{report}
use packet_test.Session.Tests.{client_handler, newcomer}
use packet_test.Session.Handshake.{connect_round}

abbrev ready : Client ℕ ℕ
ready = record newcomer {
  listeners = record { server_addr = 8; state = ServerState.compatible both 100 } ∷ [];
}

abbrev hosting : Server ℕ
hosting = record empty_server { listeners = (60, both) ∷ [] }

listening : get 60 hosting.listeners ≡ some both
unfolding get
listening = refl

absent : client 60 hosting.clients ≡ none
unfolding client
absent = refl

unknown : (id : ℕ) → get id both.receive_buffer.packets ≡ none
unfolding get
unknown id = refl

connect_round_example :
    (d ack accepted : List ℕ) × (c₁ c₂ c₃ : Client ℕ ℕ) × (s' : Server ℕ)
    × (joined : ClientConnection ℕ) × (Connection.connect ready (ok 8) 3 ((1 ∷ 5 ∷ []) ∷ []) 110
        ≡ some (ok 3, c₁))
    × (c₁.socket.sent ≡ [] ++ ((8, d) ∷ []))
    × (Loop.handle_datagram rkyv handler [] hosting 4 60 d 120
        ≡ some (reported (arrival 60) ++ (Handle.connect 60 5 ∷ []), s'))
    × (s'.socket.sent ≡ [] ++ ((60, ack) ∷ (60, accepted) ∷ []))
    × (client 60 s'.clients ≡ some joined)
    × (get 60 s'.listeners ≡ none)
    × (Receive.handle_datagram rkyv client_handler [] c₁ 8 ack 130
        ≡ some (report (raw_packet (RawPacket.ack 8 false)) ∷ [], c₂))
    × (Receive.handle_datagram rkyv client_handler [] c₂ 8 accepted 140
        ≡ some (map report (arrival 8) ++ (Receive.accept 6 ∷ []), c₃))
    × (c₃.state ≡ connected)
    × (server_addr c₃ ≡ some (some 8))
connect_round_example =
    connect_round rkyv handler client_handler ready 8 both 3 ((1 ∷ 5 ∷ []) ∷ []) 5 110 [] hosting 60
      both 4 6 120 [] [] 130 140
      (record { server_addr = 8; state = ServerState.compatible both 100 }, 100, refl, refl, refl)
      refl listening absent refl refl refl (omega arith) (omega arith) (unknown 3) (unknown 4)
      (omega arith) (omega arith) refl refl
