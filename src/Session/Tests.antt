-- ===== src/Session/Tests.antt =====
-- A server and a client on small inputs, and the theorems applied to them.
use packet_test.Common.{arith, ℕ, ◌≡◌, refl, List, [], ◌∷◌, ◌++◌, some, ok, true, false}
use packet_test.Common.Dict.{nat_ord}
use packet_test.Config.{ClientConfig, default_connection}
use packet_test.Socket
use packet_test.Packet.Kind.{to_byte}
use packet_test.Packet.Tests.{nat_uuid, both}
use packet_test.Server
use packet_test.Server.{Server, ClientConnection, pong}
use packet_test.Server.Fixtures.{numbers, rkyv, quiet_socket, handler, empty_server, server, lively}
use packet_test.Server.Handle.{Call, event}
use packet_test.Server.Update.{send_ping, timed_out}
use packet_test.Server.Loop
use packet_test.Client.{
  ServerState, ServerListener, Client, disconnected, connected, position, compatibility,
}
use packet_test.Client.Receive
use packet_test.Client.Receive.{ClientHandler, ping}
use packet_test.Session.{judged, version_round, ping_round}

abbrev pub client_handler : ClientHandler numbers ℕ
client_handler = record { compatibility = λ log v. ok tt }

abbrev config : ClientConfig
config = record { connection = default_connection; timeout = some 50 }

abbrev waiting : ServerListener ℕ ℕ
waiting = record { server_addr = 8; state = ServerState.pending_version (some 100) }

abbrev pub newcomer : Client ℕ ℕ
newcomer = record {
  config = config;
  socket = quiet_socket;
  state = disconnected;
  listeners = waiting ∷ [];
}

version_goes_out :
    (Socket.send
      (record { socket = empty_server.socket; addr = 60 })
      (to_byte packet_test.Packet.Kind.version ∷ 1 ∷ [])).0
    ≡ ok true
unfolding Socket.send
version_goes_out = refl

waiting_first : position 8 newcomer.listeners ≡ some 0
unfolding position
waiting_first = refl

version_round_example :
    (d : List ℕ) × ((calls : List (Call numbers ℕ)) × (s' : Server ℕ) × (Loop.handle_datagram rkyv
          handler [] empty_server 3 60 [] 110
        ≡ some (calls, s'))
      × (s'.socket.sent ≡ [] ++ ((60, d) ∷ [])))
    × ((calls : List (Receive.Call numbers ℕ)) × (c' : Client ℕ ℕ) × (Receive.handle_datagram rkyv
            client_handler [] newcomer 8 d 120
          ≡ some (calls, c'))
        × (compatibility c' 8 ≡ some (judged (ok tt))))
version_round_example =
    version_round rkyv handler client_handler [] empty_server 3 60 110 [] newcomer 8 0 waiting
      (some 100) 120 (λ v. refl) (λ v. omega arith) version_goes_out waiting_first refl refl

abbrev pub player : Client ℕ ℕ
player = record newcomer {
  state = connected;
  listeners = record { server_addr = 8; state = ServerState.compatible both 100 } ∷ [];
}

-- The server after its ping with the id 52.
abbrev pinging : Server ℕ
pinging = record server {
  clients = some (record lively { active_ping = some (record { ping_id = 52; ping = 130 }) }) ∷ [];
}

ping_goes_out :
    (Socket.send
      (record { socket = quiet_socket; addr = 40 })
      (to_byte packet_test.Packet.Kind.ping ∷ nat_uuid.as_bytes 52)).0
    ≡ ok true
unfolding Socket.send
ping_goes_out = refl

ping_comes_back :
    (Socket.send
      (record { socket = player.socket; addr = 8 })
      (to_byte packet_test.Packet.Kind.ping ∷ nat_uuid.as_bytes 52)).0
    ≡ ok true
unfolding Socket.send
ping_comes_back = refl

pinged : Server.client 40 pinging.clients ≡ (send_ping 52 lively quiet_socket 130).1
unfolding Server.client send_ping Socket.send
pinged = refl

ping_round_example :
    (d : List ℕ) × ((send_ping 52 lively quiet_socket 130).2.sent ≡ [] ++ ((40, d) ∷ []))
    × ((c' : Client ℕ ℕ) × (Receive.handle_datagram rkyv client_handler [] player 8 d 140
          ≡ some (ping ∷ [], c'))
        × (c'.state ≡ connected)
        × (c'.socket.sent ≡ [] ++ ((8, d) ∷ [])))
    × ((s' : Server ℕ) × (after : ClientConnection ℕ) × (Loop.handle_datagram rkyv handler []
            pinging 3 40 d 140
          ≡ some (event (pong 40 true) ∷ [], s'))
        × (Server.client 40 s'.clients ≡ some after)
        × (after.missed_pongs ≡ 0)
        × (timed_out (some 2) after ≡ false))
ping_round_example =
    ping_round rkyv handler client_handler 52 lively quiet_socket 130 [] player
      (record { server_addr = 8; state = ServerState.compatible both 100 }) both 100 [] pinging 3
      140 ping_goes_out refl refl refl ping_comes_back pinged
