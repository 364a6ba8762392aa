-- ===== src/Session/Talk.antt =====
-- What the users of a client of src/net/client.rs and a server of src/net/server.rs send each other
-- once they are connected, and how the client disconnects.
mod Tests
use packet_test.Common.{ℕ, ◌≡◌, ◌≤◌, arith, List, [], ◌∷◌, ◌++◌, map, none, some, ok, false, length}
use packet_test.Common.Dict.{Ord, nat_ord, get}
use packet_test.Socket.{SocketAddr}
use packet_test.Handler.{raw_packet, RawPacket}
use packet_test.Handler.Buffers.Single.{arrival}
use packet_test.Packet.Kind.{Uuid}
use packet_test.Packet.Serialize.VecRun.{flat}
use packet_test.Packet.Buffers.{PacketBuffers}
use packet_test.Packet.Packets.{Packets, ServerConnectionPacket, ClientConnectionPacket, Rkyv}
use packet_test.Server.{ClientConnection, Server, client}
use packet_test.Server.Registry.{IsValid}
use packet_test.Server.Handle
use packet_test.Server.Handle.{ServerHandler, reported}
use packet_test.Server.Loop
use packet_test.Client.{Client, connected, disconnecting}
use packet_test.Client.Connection
use packet_test.Client.Receive
use packet_test.Client.Receive.{ClientHandler, report, handle_packet}
use packet_test.Session.Delivery.{First, send_connected-single, hears_ack, hears}
use packet_test.Session.Clients.{hears_user, hears_disconnect, send_raw-single, keeps_acked_client}

module _ {P : Packets} {PacketId : Type 0} ⦃o : Ord PacketId⦄ ⦃u : Uuid PacketId⦄ (rkyv : Rkyv P)
    (server_handler : ServerHandler P PacketId) (client_handler : ClientHandler P PacketId) where
  -- A packet of the client's user. The client is connected to the server, its first listener, whose
  -- client it is; rkyv reads the packet, of one part, back from what it writes of it; its id is new
  -- to the server, the batch size is positive, and the sockets take everything. Then `send` puts one
  -- datagram on the wire; the server answers it by an ack alone, gives the packet to its handler once,
  -- with the client's address, and keeps the client; and with the ack the client stays connected.
  pub send_round :
      (c : Client P.CompatibilityError PacketId) (server_at : SocketAddr)
      (b : PacketBuffers PacketId) (id : PacketId) (writes : List (List ℕ)) (x : P.Client)
      (sent_at : ℕ) (server_log : List (Handle.Call P PacketId)) (s : Server PacketId)
      (client_at : SocketAddr) (joined : ClientConnection PacketId) (fresh_id : PacketId)
      (heard_at : ℕ) (client_log : List (Receive.Call P PacketId)) (ack_at : ℕ)
      → First c server_at b
      → c.state ≡ connected
      → client client_at s.clients ≡ some joined
      → joined.client_addr ≡ client_at
      → rkyv.check_client (flat writes) ≡ some (ClientConnectionPacket.user x)
      → length (flat writes) ≤ 491
      → get id joined.buffers.receive_buffer.packets ≡ none
      → 1 ≤ b.send_buffer.batch_size
      → c.socket.answers ≡ []
      → s.socket.answers ≡ []
      → (d ack : List ℕ) × (c₁ c₂ : Client P.CompatibilityError PacketId) × (s' : Server PacketId)
        × (after : ClientConnection PacketId) × (Connection.send c id writes sent_at
            ≡ some (ok id, c₁))
        × (c₁.socket.sent ≡ c.socket.sent ++ ((server_at, d) ∷ []))
        × (Loop.handle_datagram rkyv server_handler server_log s fresh_id client_at d heard_at
            ≡ some (reported (arrival client_at) ++ (Handle.packet client_at x ∷ []), s'))
        × (s'.socket.sent ≡ s.socket.sent ++ ((client_at, ack) ∷ []))
        × (client client_at s'.clients ≡ some after)
        × (Receive.handle_datagram rkyv client_handler client_log c₁ server_at ack ack_at
            ≡ some (report (raw_packet (RawPacket.ack server_at false)) ∷ [], c₂))
        × (c₂.state ≡ connected)
  unfolding Connection.send
  send_round c server_at b id writes x sent_at server_log s client_at joined fresh_id heard_at
        client_log ack_at first state found at readable short fresh some_size quiet server_quiet =
      let (c₁, b₁, p, buffer, sent, connected₁, first₁, received₁, there, under, unacked, took₁) =
        send_connected-single c connected server_at b id writes sent_at first short some_size
          quiet in
      let (s', after, heard, still, at', same, listeners, took) =
        hears_user rkyv server_handler server_log s client_at joined fresh_id id (flat writes) x
          heard_at found at readable fresh server_quiet in
      let (c₂, b₂, acks, connected₂, first₂, received₂, socket₂) =
        hears_ack rkyv client_handler client_log c₁ server_at b₁ id p buffer sent_at ack_at first₁
          there under unacked in
      (
        _,
        _,
        c₁,
        c₂,
        s',
        after,
        ground (arith, state, sent),
        took₁.log,
        heard,
        took.log,
        still,
        acks,
        ground (arith, connected₁, connected₂),
      )

  -- A packet of the server's user, under the same conditions the other way round: the client answers
  -- the one datagram by an ack alone, gives the packet to its handler once, and stays connected; and
  -- with the ack the server keeps the client.
  pub server_send_round :
      (s : Server PacketId) (client_at : SocketAddr) (joined : ClientConnection PacketId)
      (id : PacketId) (x : P.Server) (sent_at : ℕ) (client_log : List (Receive.Call P PacketId))
      (c : Client P.CompatibilityError PacketId) (server_at : SocketAddr)
      (b : PacketBuffers PacketId) (heard_at : ℕ) (server_log : List (Handle.Call P PacketId))
      (fresh_id : PacketId) (ack_at : ℕ)
      → client client_at s.clients ≡ some joined
      → joined.client_addr ≡ client_at
      → First c server_at b
      → c.state ≡ connected
      → rkyv.check_server (flat (rkyv.write_server (ServerConnectionPacket.user x)))
        ≡ some (ServerConnectionPacket.user x)
      → length (flat (rkyv.write_server (ServerConnectionPacket.user x))) ≤ 491
      → get id b.receive_buffer.packets ≡ none
      → 1 ≤ joined.buffers.send_buffer.batch_size
      → s.socket.answers ≡ []
      → c.socket.answers ≡ []
      → (d ack : List ℕ) × (s₁ s₂ : Server PacketId) × (c' : Client P.CompatibilityError PacketId)
        × (after : ClientConnection PacketId) × (Handle.send rkyv s client_at id x sent_at
            ≡ some (some (ok id, s₁)))
        × (s₁.socket.sent ≡ s.socket.sent ++ ((client_at, d) ∷ []))
        × (Receive.handle_datagram rkyv client_handler client_log c server_at d heard_at
            ≡ some (map report (arrival server_at) ++ (Receive.packet x ∷ []), c'))
        × (c'.socket.sent ≡ c.socket.sent ++ ((server_at, ack) ∷ []))
        × (c'.state ≡ connected)
        × (Loop.handle_datagram rkyv server_handler server_log s₁ fresh_id client_at ack ack_at
            ≡ some (reported (raw_packet (RawPacket.ack client_at false) ∷ []), s₂))
        × (client client_at s₂.clients ≡ some after)
  unfolding Handle.send handle_packet
  server_send_round s client_at joined id x sent_at client_log c server_at b heard_at server_log
        fresh_id ack_at found at first state readable short fresh some_size quiet client_quiet =
      let (s₁, joined₁, p, buffer, sent, found₁, at₁, there, under, unacked, took₁) =
        send_raw-single rkyv s client_at joined id (ServerConnectionPacket.user x) sent_at found at
          short some_size quiet in
      let (c', b', heard, state', first', same, took) =
        hears rkyv client_handler client_log c server_at b id
          (flat (rkyv.write_server (ServerConnectionPacket.user x))) (ServerConnectionPacket.user x)
          heard_at first readable fresh client_quiet in
      let (s₂, after, acks, still, socket₂) =
        keeps_acked_client rkyv server_handler server_log s₁ client_at joined₁ fresh_id id p buffer
          sent_at ack_at found₁ at₁ there under unacked in
      (
        _,
        _,
        s₁,
        s₂,
        c',
        after,
        sent,
        took₁.log,
        ground (arith, heard, state),
        took.log,
        ground (arith, state', state),
        acks,
        still,
      )

  -- A client that disconnects, under the conditions of `send_round`, on a server where no address is
  -- registered twice: the client is disconnecting, and stays so with the ack of its datagram; the
  -- server gives the packet to its handler once, has the address as a client no more, and listens to
  -- it again.
  pub disconnect_round :
      (c : Client P.CompatibilityError PacketId) (server_at : SocketAddr)
      (b : PacketBuffers PacketId) (id : PacketId) (writes : List (List ℕ)) (x : P.Disconnect)
      (sent_at : ℕ) (server_log : List (Handle.Call P PacketId)) (s : Server PacketId)
      (client_at : SocketAddr) (joined : ClientConnection PacketId) (fresh_id : PacketId)
      (heard_at : ℕ) (client_log : List (Receive.Call P PacketId)) (ack_at : ℕ)
      → First c server_at b
      → c.state ≡ connected
      → IsValid s
      → client client_at s.clients ≡ some joined
      → joined.client_addr ≡ client_at
      → rkyv.check_client (flat writes) ≡ some (ClientConnectionPacket.disconnect x)
      → length (flat writes) ≤ 491
      → get id joined.buffers.receive_buffer.packets ≡ none
      → 1 ≤ b.send_buffer.batch_size
      → c.socket.answers ≡ []
      → s.socket.answers ≡ []
      → (d ack : List ℕ) × (c₁ c₂ : Client P.CompatibilityError PacketId) × (s' : Server PacketId)
        × (kept : PacketBuffers PacketId) × (Connection.disconnect c id writes sent_at
            ≡ some (ok id, c₁))
        × (c₁.state ≡ disconnecting)
        × (c₁.socket.sent ≡ c.socket.sent ++ ((server_at, d) ∷ []))
        × (Loop.handle_datagram rkyv server_handler server_log s fresh_id client_at d heard_at
            ≡ some (reported (arrival client_at) ++ (Handle.disconnect client_at x ∷ []), s'))
        × (s'.socket.sent ≡ s.socket.sent ++ ((client_at, ack) ∷ []))
        × (client client_at s'.clients ≡ none)
        × (get client_at s'.listeners ≡ some kept)
        × (Receive.handle_datagram rkyv client_handler client_log c₁ server_at ack ack_at
            ≡ some (report (raw_packet (RawPacket.ack server_at false)) ∷ [], c₂))
        × (c₂.state ≡ disconnecting)
  unfolding Connection.disconnect
  disconnect_round c server_at b id writes x sent_at server_log s client_at joined fresh_id heard_at
        client_log ack_at first state once found at readable short fresh some_size quiet
        server_quiet =
      let (c₁, b₁, p, buffer, sent, leaving₁, first₁, received₁, there, under, unacked, took₁) =
        send_connected-single c disconnecting server_at b id writes sent_at first short some_size
          quiet in
      let (s', kept, heard, gone, listens, took) =
        hears_disconnect rkyv server_handler server_log s client_at joined fresh_id id (flat writes)
          x heard_at once found at readable fresh server_quiet in
      let (c₂, b₂, acks, leaving₂, first₂, received₂, socket₂) =
        hears_ack rkyv client_handler client_log c₁ server_at b₁ id p buffer sent_at ack_at first₁
          there under unacked in
      (
        _,
        _,
        c₁,
        c₂,
        s',
        kept,
        ground (arith, state, sent),
        leaving₁,
        took₁.log,
        heard,
        took.log,
        gone,
        listens,
        acks,
        ground (arith, leaving₁, leaving₂),
      )
