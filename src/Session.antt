-- ===== src/Session.antt =====
-- A server of src/net/server.rs and a client of src/net/client.rs together: what one sends, as the other
-- handles it. The packets that a user chooses and rkyv are the same on both sides.
pub mod Delivery
pub mod Service
pub mod Clients
pub mod Handshake
pub mod Talk
pub mod Tests
use packet_test.Common.{
  ◌≤◌, length, ℕ, zero, suc, ◌≡◌, refl, ◌∙◌, arith, List, [], ◌∷◌, ◌++◌, map, Option, some, Result,
  ok, err, true, false, get_elem?, set, Result-split, inl, inr,
}
use packet_test.Common.Dict.{Ord, nat_ord, get}
use packet_test.Socket
use packet_test.Socket.{SocketAddr, UdpSocket, send-Sent}
use packet_test.Packet.Kind.{PacketKind, Uuid, to_byte, from_byte}
use packet_test.Packet.Packets.{Packets, Rkyv}
use packet_test.Packet.Buffers
use packet_test.Packet.Buffers.{PacketBuffers}
use packet_test.Server.{ClientConnection, Server, is_some, client, pong}
use packet_test.Server.Pong.{ping_answered}
use packet_test.Server.Update
use packet_test.Server.Update.{send_version, send_ping, timed_out}
use packet_test.Server.Handle.{Call, event, version, ServerHandler}
use packet_test.Server.Loop
use packet_test.Client.{
  ServerState, ServerListener, Client, Compatibility, compatibility, position, find,
  is_disconnected,
}
use packet_test.Client.Requests.{with_state}
use packet_test.Client.Receive
use packet_test.Client.Receive.{ClientHandler, ping, handle_version, handle_ping}

module _ {E PacketId : Type 0} where
  find-set :
      (a : SocketAddr) (ls : List (ServerListener E PacketId)) (index : ℕ)
      (l : ServerListener E PacketId) (state : ServerState E PacketId)
      → position a ls ≡ some index
      → get_elem? ls index ≡ some l
      → find a (set ls index (record l { state = state })) ≡ some (record l { state = state })
  unfolding position find
  find-set a [] index l state h k = cc
  find-set a (m ∷ ls) zero l state h k = ground (arith, h, k)
  find-set a (m ∷ ls) (suc index) l state h k = ground (arith, h, find-set a ls index l state, k)

  pub position_head :
      (ls : List (ServerListener E PacketId)) (l : ServerListener E PacketId)
      → get_elem? ls 0 ≡ some l
      → position l.server_addr ls ≡ some 0
  unfolding position
  position_head [] l h = cc
  position_head (m ∷ ls) l h = ground (arith, h)

-- What a client makes of the user's answer to a version.
abbrev pub judged : {E : Type 0} → Result E (Unit {0}) → Compatibility E
judged (ok _) = Compatibility.compatible
judged (err e) = Compatibility.incompatible e

module _ {P : Packets} {PacketId : Type 0} ⦃o : Ord PacketId⦄ ⦃u : Uuid PacketId⦄ (rkyv : Rkyv P)
    (server_handler : ServerHandler P PacketId) (client_handler : ClientHandler P PacketId) where
  -- The datagram of the server's version.
  abbrev pub version_datagram : P.Version → List ℕ
  version_datagram v = to_byte PacketKind.version ∷ P.write_version v

  -- The server's side of a version query: the empty datagram of any address is answered by the
  -- version, where the socket takes it.
  version_sent :
      (log : List (Call P PacketId)) (s : Server PacketId) (id : PacketId) (a : SocketAddr)
      (now : ℕ)
      → length (P.write_version (server_handler.version log)) ≤ 511
      → (Socket.send
          (record { socket = s.socket; addr = a })
          (version_datagram (server_handler.version log))).0
        ≡ ok true
      → (calls : List (Call P PacketId)) × (s' : Server PacketId) × (Loop.handle_datagram rkyv
            server_handler log s id a [] now
          ≡ some (calls, s'))
        × (s'.socket.sent
            ≡ s.socket.sent ++ ((a, version_datagram (server_handler.version log)) ∷ []))
  unfolding Loop.handle_datagram Update.handle_version_request send_version Update.version_sent
  version_sent log s id a now short h =
      let bytes = P.write_version (server_handler.version log) in
      let (r, socket') =
        Socket.send (record { socket = s.socket; addr = a }) (to_byte PacketKind.version ∷ bytes) in
      let (events, s') = Update.version_sent s a (is_some (get a s.listeners)) r socket' in
      (
        version ∷ map event events,
        s',
        ground (arith, short),
        ground (
          arith,
          h,
          send-Sent (record { socket = s.socket; addr = a }) (to_byte PacketKind.version ∷ bytes),
        ),
      )

  -- The client's side.
  version_read :
      (log : List (Receive.Call P PacketId)) (c : Client P.CompatibilityError PacketId)
      (a : SocketAddr) (index : ℕ) (l : ServerListener P.CompatibilityError PacketId)
      (last : Option ℕ) (v : P.Version) (now : ℕ)
      → P.read_version (P.write_version v) ≡ some v
      → position a c.listeners ≡ some index
      → get_elem? c.listeners index ≡ some l
      → l.state ≡ ServerState.pending_version last
      → (calls : List (Receive.Call P PacketId)) × (c' : Client P.CompatibilityError PacketId)
        × (Receive.handle_datagram rkyv client_handler log c a (version_datagram v) now
            ≡ some (calls, c'))
        × (compatibility c' a ≡ some (judged (client_handler.compatibility log v)))
  unfolding Receive.handle_datagram handle_version compatibility to_byte from_byte
  version_read log c a index l last v now law h k pending =
      elim (Result-split (client_handler.compatibility log v)) [
        | inl (e, r) ↦ (
          Receive.compatibility v ∷ [],
          with_state c index l (ServerState.incompatible e) c.socket,
          ground (arith, law, h, k, pending, r),
          ground (arith, r, find-set a c.listeners index l (ServerState.incompatible e) h k),
        )
        | inr (x, r) ↦
            let fresh : ServerState P.CompatibilityError PacketId =
              ServerState.compatible (Buffers.new c.config.connection.initial_send_batch_size)
                now in
            (
              Receive.compatibility v ∷ [],
              with_state c index l fresh c.socket,
              ground (arith, law, h, k, pending, r),
              ground (arith, r, find-set a c.listeners index l fresh h k),
            )
      ]

  -- Version negotiation. The server answers an empty datagram, where its socket takes the answer, by
  -- one datagram to the sender; the client that is waiting for the version of that server is then told
  -- compatible or incompatible with it just as its handler judges the version of the server's handler.
  -- That holds for versions that are written to at most 511 bytes and can be read back from them.
  pub version_round :
      (server_log : List (Call P PacketId)) (s : Server PacketId) (id : PacketId)
      (client_addr : SocketAddr) (now : ℕ) (client_log : List (Receive.Call P PacketId))
      (c : Client P.CompatibilityError PacketId) (server_addr : SocketAddr) (index : ℕ)
      (l : ServerListener P.CompatibilityError PacketId) (last : Option ℕ) (later : ℕ)
      → ((v : P.Version) → P.read_version (P.write_version v) ≡ some v)
      → ((v : P.Version) → length (P.write_version v) ≤ 511)
      → (Socket.send
          (record { socket = s.socket; addr = client_addr })
          (version_datagram (server_handler.version server_log))).0
        ≡ ok true
      → position server_addr c.listeners ≡ some index
      → get_elem? c.listeners index ≡ some l
      → l.state ≡ ServerState.pending_version last
      → (d : List ℕ) × ((calls : List (Call P PacketId)) × (s' : Server PacketId)
          × (Loop.handle_datagram rkyv server_handler server_log s id client_addr [] now
              ≡ some (calls, s'))
          × (s'.socket.sent ≡ s.socket.sent ++ ((client_addr, d) ∷ [])))
        × ((calls : List (Receive.Call P PacketId)) × (c' : Client P.CompatibilityError PacketId)
            × (Receive.handle_datagram rkyv client_handler client_log c server_addr d later
                ≡ some (calls, c'))
            × (compatibility c' server_addr
                ≡ some (
                    judged (
                      client_handler.compatibility client_log
                        (server_handler.version server_log)))))
  version_round server_log s id client_addr now client_log c server_addr index l last later law
        short sent h k pending =
      (
        version_datagram (server_handler.version server_log),
        version_sent server_log s id client_addr now (short (server_handler.version server_log))
            sent,
        version_read client_log c server_addr index l last (server_handler.version server_log) later
            (law (server_handler.version server_log)) h k pending,
      )

  ping_sent :
      (ping_id : PacketId) (c : ClientConnection PacketId) (socket : UdpSocket) (now : ℕ)
      → (Socket.send
          (record { socket = socket; addr = c.client_addr })
          (to_byte PacketKind.ping ∷ u.as_bytes ping_id)).0
        ≡ ok true
      → ((send_ping ping_id c socket now).1
          ≡ some (record c { active_ping = some (record { ping_id = ping_id; ping = now }) }))
        × ((send_ping ping_id c socket now).2.sent
            ≡ socket.sent ++ ((c.client_addr, to_byte PacketKind.ping ∷ u.as_bytes ping_id) ∷ []))
  unfolding send_ping
  ping_sent ping_id c socket now h = ground (
    arith,
    h,
    send-Sent (record { socket = socket; addr = c.client_addr })
        (to_byte PacketKind.ping ∷ u.as_bytes ping_id),
  )

  -- The client sends a ping of its connection's server back as it came, where its socket takes it.
  ping_echoed :
      (log : List (Receive.Call P PacketId)) (c : Client P.CompatibilityError PacketId)
      (l : ServerListener P.CompatibilityError PacketId) (b : PacketBuffers PacketId) (last : ℕ)
      (rest : List ℕ) (now : ℕ)
      → is_disconnected c.state ≡ false
      → get_elem? c.listeners 0 ≡ some l
      → l.state ≡ ServerState.compatible b last
      → (Socket.send
          (record { socket = c.socket; addr = l.server_addr })
          (to_byte PacketKind.ping ∷ rest)).0
        ≡ ok true
      → (c' : Client P.CompatibilityError PacketId) × (Receive.handle_datagram rkyv client_handler
            log c l.server_addr
            (to_byte PacketKind.ping ∷ rest)
            now
          ≡ some (ping ∷ [], c'))
        × (c'.state ≡ c.state)
        × (c'.socket.sent ≡ c.socket.sent ++ ((l.server_addr, to_byte PacketKind.ping ∷ rest) ∷ []))
  unfolding Receive.handle_datagram handle_ping to_byte from_byte
  ping_echoed log c l b last rest now connection first compatible sent = (
    record (with_state c 0 l (ServerState.compatible b now) c.socket) {
      socket =
          (Socket.send (record { socket = c.socket; addr = l.server_addr })
            (to_byte PacketKind.ping ∷ rest)).1.socket;
    },
    ground (arith, connection, first, compatible, sent, position_head c.listeners l first),
    refl,
    ground (
      arith,
      sent,
      send-Sent (record { socket = c.socket; addr = l.server_addr })
          (to_byte PacketKind.ping ∷ rest),
    ),
  )

  -- A ping and its pong. Where the sockets take both datagrams and the client has a connection to the
  -- server, compatible and its first listener, the ping that the server sends to one of its clients
  -- is sent back as it is, the client keeps its state, and the server, which still has that client
  -- with this ping as its active one, hears of a valid pong and holds no missed pongs against it.
  pub ping_round :
      (ping_id : PacketId) (before : ClientConnection PacketId) (socket : UdpSocket) (now : ℕ)
      (client_log : List (Receive.Call P PacketId)) (c : Client P.CompatibilityError PacketId)
      (l : ServerListener P.CompatibilityError PacketId) (b : PacketBuffers PacketId) (last : ℕ)
      (server_log : List (Call P PacketId)) (s : Server PacketId) (id : PacketId) (later : ℕ)
      → (Socket.send
          (record { socket = socket; addr = before.client_addr })
          (to_byte PacketKind.ping ∷ u.as_bytes ping_id)).0
        ≡ ok true
      → is_disconnected c.state ≡ false
      → get_elem? c.listeners 0 ≡ some l
      → l.state ≡ ServerState.compatible b last
      → (Socket.send
          (record { socket = c.socket; addr = l.server_addr })
          (to_byte PacketKind.ping ∷ u.as_bytes ping_id)).0
        ≡ ok true
      → client before.client_addr s.clients ≡ (send_ping ping_id before socket now).1
      → (d : List ℕ) × ((send_ping ping_id before socket now).2.sent
          ≡ socket.sent ++ ((before.client_addr, d) ∷ []))
        × ((c' : Client P.CompatibilityError PacketId) × (Receive.handle_datagram rkyv
                client_handler client_log c l.server_addr d later
              ≡ some (ping ∷ [], c'))
            × (c'.state ≡ c.state)
            × (c'.socket.sent ≡ c.socket.sent ++ ((l.server_addr, d) ∷ [])))
        × ((s' : Server PacketId) × (after : ClientConnection PacketId) × (Loop.handle_datagram rkyv
                server_handler server_log s id before.client_addr d later
              ≡ some (event (pong before.client_addr true) ∷ [], s'))
            × (client before.client_addr s'.clients ≡ some after)
            × (after.missed_pongs ≡ 0)
            × (timed_out s.config.max_missed_pongs after ≡ false))
  ping_round ping_id before socket now client_log c l b last server_log s id later sent connection
        first compatible echoed still =
      let (slot, out) = ping_sent ping_id before socket now sent in
      (
        to_byte PacketKind.ping ∷ u.as_bytes ping_id,
        out,
        ping_echoed client_log c l b last (u.as_bytes ping_id) later connection first compatible
            echoed,
        ping_answered rkyv server_handler server_log s id
            (record before { active_ping = some (record { ping_id = ping_id; ping = now }) })
            (record { ping_id = ping_id; ping = now }) later s.config.max_missed_pongs
            (still ∙ slot) refl,
      )
