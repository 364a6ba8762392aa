-- ===== src/Server/Panics.antt =====
-- When a datagram makes the loop of `handle_packets` in src/net/server.rs panic.
pub mod Tests
use packet_test.Common.{
  ℕ, ◌*◌, ◌^◌, ◌≤◌, ◌≡◌, refl, arith, List, [], ◌∷◌, ◌++◌, Option, none, some, ok, err, Bool, true,
  false, not, length, Option-cases, Bool-cases, ◌⊎◌, inl, inr,
}
use packet_test.Common.Dict.{Ord, nat_ord, get, get-insert}
use packet_test.Config.{ServerConfig}
use packet_test.Socket.{SocketAddr, UdpSocket, NonBlockingUdpSocket}
use packet_test.Handler.Buffers.{handle_buffers}
use packet_test.Handler.Buffers.Panics.{handle_buffers-Late}
use packet_test.Packet.Kind.{Uuid}
use packet_test.Packet.Packets.{Packets, ServerConnectionPacket, ClientConnectionPacket, Rkyv}
use packet_test.Packet.Serialize.VecRun.{flat}
use packet_test.Packet.Buffers
use packet_test.Packet.Buffers.{PacketBuffers}
use packet_test.Packet.Buffers.Panics.{Late, send_total}
use packet_test.Server.{ClientConnection, Server, client, accept_client, disconnect_client}
use packet_test.Server.Handle.{
  Call, query, connect, Connect, accept, reject, ServerHandler, reported, reply, answered,
  handle_client_packet, handle_connect, handle_listener_packet, replace_client, with_client,
  with_listener,
}
use packet_test.Server.Update.{send_version, handle_version_request}
use packet_test.Server.Loop.{
  settle_client, settle_listener, handle_client, handle_listener, handle_datagram, is_ping,
}
use packet_test.Server.Pong.{client-replace_client}

-- The buffers that the server keeps for an address: a client's, or else a listener's.
abbrev pub KeptFor :
    {PacketId : Type 0} → Server PacketId → SocketAddr → PacketBuffers PacketId → Type 0
KeptFor {PacketId = PacketId} s a b =
    ((c : ClientConnection PacketId) × (client a s.clients ≡ some c) × (c.buffers ≡ b))
    ⊎ ((client a s.clients ≡ none) × (get a s.listeners ≡ some b))

module _ {PacketId : Type 0} where
  pub client_addr-client :
      (a : SocketAddr) (clients : List (Option (ClientConnection PacketId)))
      (c : ClientConnection PacketId)
      → client a clients ≡ some c
      → c.client_addr ≡ a
  unfolding client
  client_addr-client a [] c h = cc
  client_addr-client a (none ∷ clients) c h = client_addr-client a clients c h
  client_addr-client a (some d ∷ clients) c h = ground (arith, h, client_addr-client a clients c)

module _ {P : Packets} {PacketId : Type 0} where
  -- The `unwrap` behind a client's packet.
  settle_client_total :
      (s : Server PacketId) (c d : ClientConnection PacketId) (socket : UdpSocket)
      (disconnect : Bool) (calls : List (Call P PacketId))
      → client d.client_addr s.clients ≡ some c
      → ¬ (settle_client (with_client s d socket) d.client_addr disconnect calls ≡ none)
  unfolding settle_client disconnect_client
  settle_client_total s c d socket false calls found panics = ground (arith, panics)
  settle_client_total s c d socket true calls found panics =
      ground (arith, panics, client-replace_client c d s.clients found)

  -- The `unwrap` behind a listener's packet.
  settle_listener_total :
      (s : Server PacketId) (a : SocketAddr) (b : PacketBuffers PacketId) (socket : UdpSocket)
      (accepted : Bool) (calls : List (Call P PacketId))
      → ¬ (settle_listener (with_listener s a b socket) a accepted calls ≡ none)
  unfolding settle_listener accept_client
  settle_listener_total s a b socket false calls panics = ground (arith, panics)
  settle_listener_total s a b socket true calls panics =
      ground (arith, panics, get-insert a a b s.listeners)

module _ {P : Packets} {PacketId : Type 0} ⦃o : Ord PacketId⦄ ⦃u : Uuid PacketId⦄ (rkyv : Rkyv P)
    (handler : ServerHandler P PacketId)
    (sized : (p : ServerConnectionPacket P) → length (flat (rkyv.write_server p)) ≤ 491 * 2 ^ 32)
    (short : (v : P.Version) → length (P.write_version v) ≤ 511) where
  reply_total :
      (config : ServerConfig) (id : PacketId) (a : SocketAddr) (answer : ServerConnectionPacket P)
      (b : PacketBuffers PacketId) (socket : UdpSocket) (now : ℕ)
      → ¬ (reply rkyv handler config id a answer b socket now ≡ none)
  unfolding reply
  reply_total config id a answer b socket now panics =
      let s : NonBlockingUdpSocket = record { socket = socket; addr = a } in
      elim (Option-cases (
        Buffers.send b id (rkyv.write_server answer)
          config.connection.background_serialization_threshold s now)) [
            | inl k ↦
                send_total b id (rkyv.write_server answer)
                  config.connection.background_serialization_threshold s now (sized answer) k
            | inr ((err e, x, y), k) ↦ ground (arith, panics, k)
            | inr ((ok e, x, y), k) ↦ ground (arith, panics, k)
          ]

  answered_total :
      (asked : Call P PacketId) (config : ServerConfig) (id : PacketId) (a : SocketAddr)
      (answer : ServerConnectionPacket P) (b : PacketBuffers PacketId) (socket : UdpSocket)
      (now : ℕ) (flag : Bool → Bool)
      → ¬ (
          answered rkyv handler config asked
            (reply rkyv handler config id a answer b socket now)
            flag
          ≡ none)
  unfolding answered
  answered_total asked config id a answer b socket now flag panics =
      elim (Option-cases (reply rkyv handler config id a answer b socket now)) [
        | inl k ↦ reply_total config id a answer b socket now k
        | inr (x, k) ↦ ground (arith, panics, k)
      ]

  handle_client_packet_total :
      (config : ServerConfig) (log : List (Call P PacketId)) (id : PacketId) (a : SocketAddr)
      (packet : ClientConnectionPacket P) (b : PacketBuffers PacketId) (socket : UdpSocket)
      (now : ℕ)
      → ¬ (handle_client_packet rkyv handler config log id a packet b socket now ≡ none)
  unfolding handle_client_packet
  handle_client_packet_total config log id a (ClientConnectionPacket.query q) b socket now panics =
      answered_total (query a q) config id a (ServerConnectionPacket.status (handler.query log a q))
        b socket now not panics
  handle_client_packet_total config log id a (ClientConnectionPacket.connect c) b socket now
        panics =
      cc
  handle_client_packet_total config log id a (ClientConnectionPacket.disconnect d) b socket now
        panics =
      cc
  handle_client_packet_total config log id a (ClientConnectionPacket.user x) b socket now panics =
      cc

  handle_connect_total :
      (config : ServerConfig) (id : PacketId) (a : SocketAddr) (c : P.Connect)
      (decision : Connect P) (b : PacketBuffers PacketId) (socket : UdpSocket) (now : ℕ)
      → ¬ (handle_connect rkyv handler config id a c decision b socket now ≡ none)
  unfolding handle_connect
  handle_connect_total config id a c (accept answer) b socket now panics =
      answered_total (connect a c) config id a (ServerConnectionPacket.accept answer) b socket now
        (λ sent. sent) panics
  handle_connect_total config id a c (reject answer) b socket now panics =
      answered_total (connect a c) config id a (ServerConnectionPacket.reject answer) b socket now
        (λ sent. false) panics

  handle_listener_packet_total :
      (config : ServerConfig) (log : List (Call P PacketId)) (id : PacketId) (a : SocketAddr)
      (packet : ClientConnectionPacket P) (b : PacketBuffers PacketId) (socket : UdpSocket)
      (now : ℕ)
      → ¬ (handle_listener_packet rkyv handler config log id a packet b socket now ≡ none)
  unfolding handle_listener_packet
  handle_listener_packet_total config log id a (ClientConnectionPacket.query q) b socket now
        panics =
      answered_total (query a q) config id a (ServerConnectionPacket.status (handler.query log a q))
        b socket now (λ sent. false) panics
  handle_listener_packet_total config log id a (ClientConnectionPacket.connect c) b socket now
        panics =
      handle_connect_total config id a c (handler.connect log a c) b socket now panics
  handle_listener_packet_total config log id a (ClientConnectionPacket.disconnect d) b socket now
        panics =
      cc
  handle_listener_packet_total config log id a (ClientConnectionPacket.user x) b socket now panics =
      cc

  handle_client-Late :
      (log : List (Call P PacketId)) (s : Server PacketId) (id : PacketId)
      (c : ClientConnection PacketId) (buf : List ℕ) (now : ℕ)
      → client c.client_addr s.clients ≡ some c
      → handle_client rkyv handler log s id c buf now ≡ none
      → Late c.buffers.receive_buffer buf
  unfolding handle_client
  handle_client-Late log s id c buf now found h =
      elim (Option-cases
        (handle_buffers rkyv.check_client c.buffers buf s.socket c.client_addr now)) [
          | inl e ↦ handle_buffers-Late rkyv.check_client c.buffers buf s.socket c.client_addr now e
          | inr (((none, reports), buffers, socket), e) ↦ absurd (ground (arith, h, e))
          | inr (((some packet, reports), buffers, socket), e) ↦
              elim (Option-cases (
                handle_client_packet rkyv handler s.config (log ++ reported reports) id
                  c.client_addr packet buffers socket now)) [
                    | inl k ↦ absurd (
                        handle_client_packet_total s.config (log ++ reported reports) id
                          c.client_addr packet buffers socket now k)
                    | inr ((out, calls, buffers', socket'), k) ↦ absurd (
                        settle_client_total s c (record c { buffers = buffers' }) socket' out
                          (reported reports ++ calls) found (ground (arith, h, e, k)))
                  ]
        ]

  handle_listener-Late :
      (log : List (Call P PacketId)) (s : Server PacketId) (id : PacketId) (a : SocketAddr)
      (b : PacketBuffers PacketId) (buf : List ℕ) (now : ℕ)
      → handle_listener rkyv handler log s id a b buf now ≡ none
      → Late b.receive_buffer buf
  unfolding handle_listener
  handle_listener-Late log s id a b buf now h =
      elim (Option-cases (handle_buffers rkyv.check_client b buf s.socket a now)) [
        | inl e ↦ handle_buffers-Late rkyv.check_client b buf s.socket a now e
        | inr (((none, reports), buffers, socket), e) ↦ absurd (ground (arith, h, e))
        | inr (((some packet, reports), buffers, socket), e) ↦
            elim (Option-cases (
              handle_listener_packet rkyv handler s.config (log ++ reported reports) id a packet
                buffers socket now)) [
                  | inl k ↦ absurd (
                      handle_listener_packet_total s.config (log ++ reported reports) id a packet
                        buffers socket now k)
                  | inr ((accepted, calls, buffers', socket'), k) ↦ absurd (
                      settle_listener_total s a buffers' socket' accepted
                        (reported reports ++ calls) (ground (arith, h, e, k)))
                ]
      ]

  -- Where no packet of the server's has more than 2^32 parts and every version is written to at most
  -- 511 bytes, a datagram makes the server panic only if it is a part of a packet that the server is
  -- reassembling for its sender, and its index is below that packet's first pending one, or the
  -- chunks at that packet's front or those that it has counted are too many for a `u32`.
  pub server_panics-Late :
      (log : List (Call P PacketId)) (s : Server PacketId) (id : PacketId) (a : SocketAddr)
      (buf : List ℕ) (now : ℕ)
      → handle_datagram rkyv handler log s id a buf now ≡ none
      → (b : PacketBuffers PacketId) × KeptFor s a b × Late b.receive_buffer buf
  unfolding handle_datagram handle_version_request send_version
  server_panics-Late log s id a [] now h = absurd (ground (arith, h, short (handler.version log)))
  server_panics-Late log s id a (kind ∷ rest) now h = elim (Option-cases (client a s.clients)) [
    | inr (c, e) ↦
        let at = client_addr-client a s.clients c e in
        elim (Bool-cases (is_ping kind)) [
          | inl p ↦ absurd (ground (arith, h, e, p))
          | inr p ↦ (
            c.buffers,
            inl (c, e, refl),
            handle_client-Late log s id c (kind ∷ rest) now (ground (arith, e, at))
                (ground (arith, h, e, p)),
          )
        ]
    | inl e ↦ elim (Option-cases (get a s.listeners)) [
      | inl k ↦ absurd (ground (arith, h, e, k))
      | inr (b, k) ↦ (
        b,
        inr (e, k),
        handle_listener-Late log s id a b (kind ∷ rest) now (ground (arith, h, e, k)),
      )
    ]
  ]
