-- ===== src/Server/Ends.antt =====
-- The datagrams that have come in, and the loop of `handle_packets` of src/net/server.rs over them.
use packet_test.Common.{
  ℕ, zero, suc, ◌≡◌, ◌<◌, refl, arith, List, [], ◌∷◌, ◌++◌, Option, none, some, Bool, true, false,
  Option-cases, inl, inr, length,
}
use packet_test.Common.Dict.{Ord, nat_ord, get}
use packet_test.Config.{ServerConfig}
use packet_test.Socket
use packet_test.Socket.{SocketAddr, UdpSocket, IoError, recv, recv_takes}
use packet_test.Handler.Buffers.{handle_buffers}
use packet_test.Handler.Buffers.Arrivals.{handle_buffers_arrivals}
use packet_test.Packet.Kind.{Uuid}
use packet_test.Packet.Packets.{Packets, ServerConnectionPacket, ClientConnectionPacket, Rkyv}
use packet_test.Packet.Serialize.{Panicking}
use packet_test.Packet.Arrivals.{buffers_send_arrivals}
use packet_test.Packet.Buffers.{PacketBuffers}
use packet_test.Server.{ClientConnection, Server, accept_client, disconnect_client, client}
use packet_test.Server.Update.{handle_version_request, send_version, version_sent}
use packet_test.Server.Handle.{
  Call, Connect, accept, reject, ServerHandler, reported, with_client, with_listener, handle_pong,
  reply, answered, handle_client_packet, handle_connect, handle_listener_packet,
}
use packet_test.Server.Loop.{
  settle_client, settle_listener, handle_client, handle_listener, handle_datagram, handle_packets,
  recv_error,
}

-- The same of the packets of a client or a listener.
abbrev LeavesSent : {A B C : Type 0} → UdpSocket → Option (A × B × C × UdpSocket) → Type 0
LeavesSent s none = Unit
LeavesSent s (some (a, b, c, s')) = s'.arrivals ≡ s.arrivals

-- The same of a server.
abbrev LeavesServer : {A PacketId : Type 0} → UdpSocket → Option (A × Server PacketId) → Type 0
LeavesServer s none = Unit
LeavesServer s (some (a, s')) = s'.socket.arrivals ≡ s.arrivals

module _ {P : Packets} {PacketId : Type 0} ⦃o : Ord PacketId⦄ ⦃u : Uuid PacketId⦄ (rkyv : Rkyv P)
    (handler : ServerHandler P PacketId) where
  reply_arrivals :
      (config : ServerConfig) (id : PacketId) (addr : SocketAddr)
      (answer : ServerConnectionPacket P) (b : PacketBuffers PacketId) (s : UdpSocket) (now : ℕ)
      → LeavesSent s (reply rkyv handler config id addr answer b s now)
  unfolding reply
  reply_arrivals config id addr answer b s now = ground (
    arith,
    buffers_send_arrivals b id (rkyv.write_server answer)
        config.connection.background_serialization_threshold (record { socket = s; addr = addr })
        now,
  )

  handle_client_packet_arrivals :
      (config : ServerConfig) (log : List (Call P PacketId)) (id : PacketId) (addr : SocketAddr)
      (packet : ClientConnectionPacket P) (b : PacketBuffers PacketId) (s : UdpSocket) (now : ℕ)
      → LeavesSent s (handle_client_packet rkyv handler config log id addr packet b s now)
  unfolding handle_client_packet answered
  handle_client_packet_arrivals config log id addr (ClientConnectionPacket.query q) b s now =
      ground (
        arith,
        reply_arrivals config id addr (ServerConnectionPacket.status (handler.query log addr q)) b s
            now,
      )
  handle_client_packet_arrivals config log id addr (ClientConnectionPacket.connect c) b s now = refl
  handle_client_packet_arrivals config log id addr (ClientConnectionPacket.disconnect d) b s now =
      refl
  handle_client_packet_arrivals config log id addr (ClientConnectionPacket.user x) b s now = refl

  handle_connect_arrivals :
      (config : ServerConfig) (id : PacketId) (addr : SocketAddr) (c : P.Connect)
      (decision : Connect P) (b : PacketBuffers PacketId) (s : UdpSocket) (now : ℕ)
      → LeavesSent s (handle_connect rkyv handler config id addr c decision b s now)
  unfolding handle_connect answered
  handle_connect_arrivals config id addr c (accept a) b s now =
      ground (arith, reply_arrivals config id addr (ServerConnectionPacket.accept a) b s now)
  handle_connect_arrivals config id addr c (reject r) b s now =
      ground (arith, reply_arrivals config id addr (ServerConnectionPacket.reject r) b s now)

  handle_listener_packet_arrivals :
      (config : ServerConfig) (log : List (Call P PacketId)) (id : PacketId) (addr : SocketAddr)
      (packet : ClientConnectionPacket P) (b : PacketBuffers PacketId) (s : UdpSocket) (now : ℕ)
      → LeavesSent s (handle_listener_packet rkyv handler config log id addr packet b s now)
  unfolding handle_listener_packet answered
  handle_listener_packet_arrivals config log id addr (ClientConnectionPacket.query q) b s now =
      ground (
        arith,
        reply_arrivals config id addr (ServerConnectionPacket.status (handler.query log addr q)) b s
            now,
      )
  handle_listener_packet_arrivals config log id addr (ClientConnectionPacket.connect c) b s now =
      handle_connect_arrivals config id addr c (handler.connect log addr c) b s now
  handle_listener_packet_arrivals config log id addr (ClientConnectionPacket.disconnect d) b s now =
      refl
  handle_listener_packet_arrivals config log id addr (ClientConnectionPacket.user x) b s now = refl

module _ {P : Packets} {PacketId : Type 0} where
  settle_client_arrivals :
      (s : Server PacketId) (addr : SocketAddr) (disconnect : Bool) (calls : List (Call P PacketId))
      → LeavesServer s.socket (settle_client s addr disconnect calls)
  unfolding settle_client disconnect_client
  settle_client_arrivals s addr false calls = refl
  settle_client_arrivals s addr true calls = ground arith

  settle_listener_arrivals :
      (s : Server PacketId) (addr : SocketAddr) (accepted : Bool) (calls : List (Call P PacketId))
      → LeavesServer s.socket (settle_listener s addr accepted calls)
  unfolding settle_listener accept_client
  settle_listener_arrivals s addr false calls = refl
  settle_listener_arrivals s addr true calls = ground arith

module _ {P : Packets} {PacketId : Type 0} ⦃o : Ord PacketId⦄ ⦃u : Uuid PacketId⦄ (rkyv : Rkyv P)
    (handler : ServerHandler P PacketId) where
  handle_client_arrivals :
      (log : List (Call P PacketId)) (s : Server PacketId) (id : PacketId)
      (c : ClientConnection PacketId) (buf : List ℕ) (now : ℕ)
      → LeavesServer s.socket (handle_client rkyv handler log s id c buf now)
  unfolding handle_client
  handle_client_arrivals log s id c buf now =
      elim (Option-cases
        (handle_buffers rkyv.check_client c.buffers buf s.socket c.client_addr now)) [
          | inl h ↦ ground (arith, h)
          | inr (((none, reports), buffers, socket), h) ↦ ground (
            arith,
            h,
            handle_buffers_arrivals rkyv.check_client c.buffers buf s.socket c.client_addr now,
          )
          | inr (((some packet, reports), buffers, socket), h) ↦
              elim (Option-cases (
                handle_client_packet rkyv handler s.config (log ++ reported reports) id
                  c.client_addr packet buffers socket now)) [
                    | inl k ↦ ground (arith, h, k)
                    | inr ((d, calls, buffers', socket'), k) ↦ ground (
                      arith,
                      h,
                      k,
                      handle_buffers_arrivals rkyv.check_client c.buffers buf s.socket c.client_addr
                          now,
                      handle_client_packet_arrivals rkyv handler s.config (log ++ reported reports)
                          id c.client_addr packet buffers socket now,
                      settle_client_arrivals
                          (with_client s (record c { buffers = buffers' }) socket') c.client_addr d
                          (reported reports ++ calls),
                    )
                  ]
        ]

  handle_listener_arrivals :
      (log : List (Call P PacketId)) (s : Server PacketId) (id : PacketId) (addr : SocketAddr)
      (b : PacketBuffers PacketId) (buf : List ℕ) (now : ℕ)
      → LeavesServer s.socket (handle_listener rkyv handler log s id addr b buf now)
  unfolding handle_listener
  handle_listener_arrivals log s id addr b buf now =
      elim (Option-cases (handle_buffers rkyv.check_client b buf s.socket addr now)) [
        | inl h ↦ ground (arith, h)
        | inr (((none, reports), buffers, socket), h) ↦
            ground (arith, h, handle_buffers_arrivals rkyv.check_client b buf s.socket addr now)
        | inr (((some packet, reports), buffers, socket), h) ↦
            elim (Option-cases (
              handle_listener_packet rkyv handler s.config (log ++ reported reports) id addr packet
                buffers socket now)) [
                  | inl k ↦ ground (arith, h, k)
                  | inr ((d, calls, buffers', socket'), k) ↦ ground (
                    arith,
                    h,
                    k,
                    handle_buffers_arrivals rkyv.check_client b buf s.socket addr now,
                    handle_listener_packet_arrivals rkyv handler s.config (log ++ reported reports)
                        id addr packet buffers socket now,
                    settle_listener_arrivals (with_listener s addr buffers' socket') addr d
                        (reported reports ++ calls),
                  )
                ]
      ]

  handle_datagram_arrivals :
      (log : List (Call P PacketId)) (s : Server PacketId) (id : PacketId) (addr : SocketAddr)
      (buf : List ℕ) (now : ℕ)
      → LeavesServer s.socket (handle_datagram rkyv handler log s id addr buf now)
  unfolding handle_datagram handle_version_request send_version version_sent Socket.send handle_pong
  handle_datagram_arrivals log s id addr [] now = ground arith
  handle_datagram_arrivals log s id addr (kind ∷ rest) now =
      elim (Option-cases (client addr s.clients)) [
        | inr (c, h) ↦ ground (arith, h, handle_client_arrivals log s id c (kind ∷ rest) now)
        | inl h ↦ elim (Option-cases (get addr s.listeners)) [
          | inl k ↦ ground (arith, h, k)
          | inr (b, k) ↦
              ground (arith, h, k, handle_listener_arrivals log s id addr b (kind ∷ rest) now)
        ]
      ]

  -- With more fuel than datagrams have come in, the loop over them comes to an end, by a result or
  -- by a panic.
  pub handle_packets_ends :
      (fuel round : ℕ) (log : List (Call P PacketId)) (s : Server PacketId) (fresh : ℕ → PacketId)
      (now : ℕ)
      → length s.socket.arrivals < fuel
      → (r : Panicking (List (Call P PacketId) × Server PacketId)) × (handle_packets rkyv handler
            fuel round log s fresh now
          ≡ some r)
  unfolding handle_packets
  handle_packets_ends zero round log s fresh now h = absurd (omega arith)
  handle_packets_ends (suc fuel) round log s fresh now h = elim (Option-cases (recv s.socket).0) [
    | inl k ↦ (
      some (log ++ recv_error (recv s.socket).1, record s { socket = (recv s.socket).2 }),
      ground (arith, k),
    )
    | inr ((addr, buf), k) ↦
        elim (Option-cases (
          handle_datagram rkyv handler log (record s { socket = (recv s.socket).2 }) (fresh round)
            addr buf now)) [
              | inl e ↦ (none, ground (arith, k, e))
              | inr ((calls, s'), e) ↦
                  let (r, ends) = handle_packets_ends fuel (suc round) (log ++ calls) s' fresh now (
                    ground (
                      arith,
                      h,
                      e,
                      recv_takes s.socket (addr, buf) k,
                      handle_datagram_arrivals log (record s { socket = (recv s.socket).2 })
                          (fresh round) addr buf now,
                    )) in
                  (r, ground (arith, k, e, ends))
            ]
  ]
