-- ===== src/Session/Talk/Tests.antt =====
-- Packets of the users and a disconnect on small inputs.
use packet_test.Common.{ℕ, ◌≡◌, refl, arith, List, [], ◌∷◌, ◌++◌, map, none, some, ok, false}
use packet_test.Common.Dict.{nat_ord, get}
use packet_test.Handler.{raw_packet, RawPacket}
use packet_test.Handler.Buffers.Single.{arrival}
use packet_test.Packet.Tests.{nat_uuid, both}
use packet_test.Packet.Buffers.{PacketBuffers}
use packet_test.Server.{ClientConnection, Server, client}
use packet_test.Server.Registry.{IsValid, registrations, slots_of}
use packet_test.Server.Handle
use packet_test.Server.Handle.{reported}
use packet_test.Server.Fixtures.{rkyv, handler, empty_server, lively}
use packet_test.Server.Loop
use packet_test.Client.{ServerState, Client, connected, disconnecting}
use packet_test.Client.Connection
use packet_test.Client.Receive
use packet_test.Client.Receive.{report}
use packet_test.Session.Delivery.{First}
use packet_test.Session.Tests.{client_handler, player}
use packet_test.Session.Talk.{send_round, server_send_round, disconnect_round}

abbrev playing : Server ℕ
playing = record empty_server { clients = some lively ∷ [] }

joined : client 40 playing.clients ≡ some lively
unfolding client
joined = refl

unknown : (id : ℕ) → get id both.receive_buffer.packets ≡ none
unfolding get
unknown id = refl

first : First player 8 both
first = (record { server_addr = 8; state = ServerState.compatible both 100 }, 100, refl, refl, refl)

playing-IsValid : IsValid playing
unfolding registrations slots_of get
playing-IsValid a = ground arith

send_round_example :
    (d ack : List ℕ) × (c₁ c₂ : Client ℕ ℕ) × (s' : Server ℕ) × (after : ClientConnection ℕ)
    × (Connection.send player 3 ((3 ∷ 77 ∷ []) ∷ []) 110 ≡ some (ok 3, c₁))
    × (c₁.socket.sent ≡ [] ++ ((8, d) ∷ []))
    × (Loop.handle_datagram rkyv handler [] playing 4 40 d 120
        ≡ some (reported (arrival 40) ++ (Handle.packet 40 77 ∷ []), s'))
    × (s'.socket.sent ≡ [] ++ ((40, ack) ∷ []))
    × (client 40 s'.clients ≡ some after)
    × (Receive.handle_datagram rkyv client_handler [] c₁ 8 ack 130
        ≡ some (report (raw_packet (RawPacket.ack 8 false)) ∷ [], c₂))
    × (c₂.state ≡ connected)
send_round_example =
    send_round rkyv handler client_handler player 8 both 3 ((3 ∷ 77 ∷ []) ∷ []) 77 110 [] playing 40
      lively 4 120 [] 130 first refl joined refl refl (omega arith) (unknown 3) (omega arith) refl
      refl

server_send_round_example :
    (d ack : List ℕ) × (s₁ s₂ : Server ℕ) × (c' : Client ℕ ℕ) × (after : ClientConnection ℕ)
    × (Handle.send rkyv playing 40 3 88 110 ≡ some (some (ok 3, s₁)))
    × (s₁.socket.sent ≡ [] ++ ((40, d) ∷ []))
    × (Receive.handle_datagram rkyv client_handler [] player 8 d 120
        ≡ some (map report (arrival 8) ++ (Receive.packet 88 ∷ []), c'))
    × (c'.socket.sent ≡ [] ++ ((8, ack) ∷ []))
    × (c'.state ≡ connected)
    × (Loop.handle_datagram rkyv handler [] s₁ 4 40 ack 130
        ≡ some (reported (raw_packet (RawPacket.ack 40 false) ∷ []), s₂))
    × (client 40 s₂.clients ≡ some after)
server_send_round_example =
    server_send_round rkyv handler client_handler playing 40 lively 3 88 110 [] player 8 both 120 []
      4 130 joined refl first refl refl (omega arith) (unknown 3) (omega arith) refl refl

disconnect_round_example :
    (d ack : List ℕ) × (c₁ c₂ : Client ℕ ℕ) × (s' : Server ℕ) × (kept : PacketBuffers ℕ)
    × (Connection.disconnect player 3 ((2 ∷ 9 ∷ []) ∷ []) 110 ≡ some (ok 3, c₁))
    × (c₁.state ≡ disconnecting)
    × (c₁.socket.sent ≡ [] ++ ((8, d) ∷ []))
    × (Loop.handle_datagram rkyv handler [] playing 4 40 d 120
        ≡ some (reported (arrival 40) ++ (Handle.disconnect 40 9 ∷ []), s'))
    × (s'.socket.sent ≡ [] ++ ((40, ack) ∷ []))
    × (client 40 s'.clients ≡ none)
    × (get 40 s'.listeners ≡ some kept)
    × (Receive.handle_datagram rkyv client_handler [] c₁ 8 ack 130
        ≡ some (report (raw_packet (RawPacket.ack 8 false)) ∷ [], c₂))
    × (c₂.state ≡ disconnecting)
disconnect_round_example =
    disconnect_round rkyv handler client_handler player 8 both 3 ((2 ∷ 9 ∷ []) ∷ []) 9 110 []
      playing 40 lively 4 120 [] 130 first refl playing-IsValid joined refl refl (omega arith)
      (unknown 3) (omega arith) refl refl
