-- ===== src/Session/Handshake.antt =====
-- The handshake of src/net/client.rs and src/net/server.rs: `connect`, and what comes of it.
mod Tests
use packet_test.Common.{ℕ, ◌≡◌, ◌≤◌, arith, List, [], ◌∷◌, ◌++◌, map, none, some, ok, false, length}
use packet_test.Common.Dict.{Ord, nat_ord, get}
use packet_test.Socket.{SocketAddr}
use packet_test.Handler.{raw_packet, RawPacket}
use packet_test.Handler.Buffers.Single.{arrival}
use packet_test.Packet.Kind.{Uuid}
use packet_test.Packet.Serialize.VecRun.{flat}
use packet_test.Packet.Buffers.{PacketBuffers}
use packet_test.Packet.Packets.{Packets, ServerConnectionPacket, ClientConnectionPacket, Rkyv}
use packet_test.Server.{ClientConnection, Server, client}
use packet_test.Server.Handle
use packet_test.Server.Handle.{ServerHandler, accept, reported}
use packet_test.Server.Loop
use packet_test.Client.{Client, disconnected, connected, server_addr}
use packet_test.Client.Connection
use packet_test.Client.Receive
use packet_test.Client.Receive.{ClientHandler, report, handle_packet}
use packet_test.Session.Delivery.{First, connect-single, hears_ack, hears}
use packet_test.Session.Service.{accepts}

module _ {E PacketId : Type 0} where
  server_addr-First :
      (c : Client E PacketId) (addr : SocketAddr) (b : PacketBuffers PacketId)
      → First c addr b
      → c.state ≡ connected
      → server_addr c ≡ some (some addr)
  unfolding server_addr
  server_addr-First c addr b (l, last, first, at, compatible) h = ground (arith, h, first, at)

module _ {P : Packets} {PacketId : Type 0} ⦃o : Ord PacketId⦄ ⦃u : Uuid PacketId⦄ (rkyv : Rkyv P)
    (server_handler : ServerHandler P PacketId) (client_handler : ClientHandler P PacketId) where
  -- The handshake. The client is disconnected and its first listener is for the server, with which it
  -- is compatible; the server listens to the client, which is none of its clients; the server's
  -- handler accepts; rkyv reads both packets back from what it writes of them, each in one part; the
  -- two ids are new to who receives them, the batch sizes are positive, and the sockets take
  -- everything. Then `connect` sends one datagram `d`; the server answers it by two, an ack and one
  -- more, asks its handler once, and has the client as a client and no listener any more; and the
  -- client, which gets these two in order, tells its handler the server's answer, and is connected
  -- to that server.
  pub connect_round :
      (c : Client P.CompatibilityError PacketId) (server_at : SocketAddr)
      (b : PacketBuffers PacketId) (id : PacketId) (writes : List (List ℕ)) (x : P.Connect)
      (connect_at : ℕ) (server_log : List (Handle.Call P PacketId)) (s : Server PacketId)
      (client_at : SocketAddr) (served : PacketBuffers PacketId) (answer_id : PacketId)
      (answer : P.Accept) (answer_at : ℕ) (ack_log accept_log : List (Receive.Call P PacketId))
      (ack_at accept_at : ℕ)
      → First c server_at b
      → c.state ≡ disconnected
      → get client_at s.listeners ≡ some served
      → client client_at s.clients ≡ none
      → server_handler.connect (server_log ++ reported (arrival client_at)) client_at x
        ≡ accept answer
      → rkyv.check_client (flat writes) ≡ some (ClientConnectionPacket.connect x)
      → rkyv.check_server (flat (rkyv.write_server (ServerConnectionPacket.accept answer)))
        ≡ some (ServerConnectionPacket.accept answer)
      → length (flat writes) ≤ 491
      → length (flat (rkyv.write_server (ServerConnectionPacket.accept answer))) ≤ 491
      → get id served.receive_buffer.packets ≡ none
      → get answer_id b.receive_buffer.packets ≡ none
      → 1 ≤ b.send_buffer.batch_size
      → 1 ≤ served.send_buffer.batch_size
      → c.socket.answers ≡ []
      → s.socket.answers ≡ []
      → (d ack accepted : List ℕ) × (c₁ c₂ c₃ : Client P.CompatibilityError PacketId) × (s' : Server
          PacketId)
        × (joined : ClientConnection PacketId) × (Connection.connect c
              (ok server_at)
              id
              writes
              connect_at
            ≡ some (ok id, c₁))
        × (c₁.socket.sent ≡ c.socket.sent ++ ((server_at, d) ∷ []))
        × (Loop.handle_datagram rkyv server_handler server_log s answer_id client_at d answer_at
            ≡ some (reported (arrival client_at) ++ (Handle.connect client_at x ∷ []), s'))
        × (s'.socket.sent ≡ s.socket.sent ++ ((client_at, ack) ∷ (client_at, accepted) ∷ []))
        × (client client_at s'.clients ≡ some joined)
        × (get client_at s'.listeners ≡ none)
        × (Receive.handle_datagram rkyv client_handler ack_log c₁ server_at ack ack_at
            ≡ some (report (raw_packet (RawPacket.ack server_at false)) ∷ [], c₂))
        × (Receive.handle_datagram rkyv client_handler accept_log c₂ server_at accepted accept_at
            ≡ some (map report (arrival server_at) ++ (Receive.accept answer ∷ []), c₃))
        × (c₃.state ≡ connected)
        × (server_addr c₃ ≡ some (some server_at))
  unfolding handle_packet
  connect_round c server_at b id writes x connect_at server_log s client_at served answer_id answer
        answer_at ack_log accept_log ack_at accept_at first idle listening absent decides readable
        answer_readable short answer_short fresh answer_fresh some_size served_size quiet
        server_quiet =
      let (c₁, b₁, p, buffer, sent, connecting₁, first₁, received₁, found, under, unacked, took₁) =
        connect-single c server_at b id writes connect_at first idle short some_size quiet in
      let (s', joined, serves, there, gone, took) =
        accepts rkyv server_handler server_log s client_at served id answer_id (flat writes) x
          answer answer_at listening absent readable fresh decides answer_short served_size
          server_quiet in
      let (c₂, b₂, hears₂, connecting₂, first₂, received₂, socket₂) =
        hears_ack rkyv client_handler ack_log c₁ server_at b₁ id p buffer connect_at ack_at first₁
          found under unacked in
      let (c₃, b₃, hears₃, state₃, first₃, sent₃, took₃) =
        hears rkyv client_handler accept_log c₂ server_at b₂ answer_id
          (flat (rkyv.write_server (ServerConnectionPacket.accept answer)))
          (ServerConnectionPacket.accept answer) accept_at first₂ answer_readable
          (ground (arith, received₂, received₁, answer_fresh))
          (ground (arith, socket₂, took₁.ready)) in
      let connected₃ : c₃.state ≡ connected = ground (arith, state₃, connecting₂, connecting₁) in
      (
        _,
        _,
        _,
        c₁,
        c₂,
        c₃,
        s',
        joined,
        sent,
        took₁.log,
        serves,
        took.log,
        there,
        gone,
        hears₂,
        ground (arith, hears₃, connecting₂, connecting₁),
        connected₃,
        server_addr-First c₃ server_at b₃ first₃ connected₃,
      )
