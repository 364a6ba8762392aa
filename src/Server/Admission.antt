-- ===== src/Server/Admission.antt =====
-- Who becomes a client in `handle_packets` of src/net/server.rs.
use packet_test.Common.{
  ℕ, ◌≤◌, ◌<◌, ◌≡◌, refl, arith, List, [], ◌∷◌, ◌++◌, none, some, Bool, true, false, Option-cases,
  Bool-cases, inl, inr,
}
use packet_test.Common.Dict.{Ord, nat_ord, get}
use packet_test.Config.{ServerConfig}
use packet_test.Socket.{SocketAddr, UdpSocket}
use packet_test.Handler.Buffers.{handle_buffers}
use packet_test.Packet.Kind.{Uuid}
use packet_test.Packet.Packets.{Packets, ClientConnectionPacket, Rkyv}
use packet_test.Packet.Buffers.{PacketBuffers}
use packet_test.Server.{ClientConnection, Server, accept_client, disconnect_client, client, new}
use packet_test.Server.Update.{send_version, version_sent, handle_version_request}
use packet_test.Server.Registry.{slots_of, slots_of-place, slots_of-vacate}
use packet_test.Server.Served.{slots_of-replace_client}
use packet_test.Server.Handle.{
  Call, Connect, accept, reject, connect, ServerHandler, reported, reply, with_client,
  with_listener, handle_pong, answered, handle_client_packet, handle_connect,
  handle_listener_packet,
}
use packet_test.Server.Loop.{
  settle_client, settle_listener, handle_client, handle_listener, handle_datagram, is_ping,
}

-- The last of the calls asks the handler for a request of the address to connect, and it accepts.
abbrev pub Admitted :
    {P : Packets} {PacketId : Type 0}
    → ServerHandler P PacketId
    → List (Call P PacketId)
    → SocketAddr
    → List (Call P PacketId)
    → Type 0
Admitted {P = P} {PacketId = PacketId} handler log a calls =
    (before : List (Call P PacketId)) × (c : P.Connect) × (answer : P.Accept) × (calls
      ≡ before ++ (connect a c ∷ []))
    × (handler.connect (log ++ before) a c ≡ accept answer)

module _ {P : Packets} {PacketId : Type 0} where
  slots_of-settle_client :
      (s : Server PacketId) (a : SocketAddr) (disconnect : Bool)
      (calls calls' : List (Call P PacketId)) (s' : Server PacketId) (d : SocketAddr)
      → settle_client s a disconnect calls ≡ some (calls', s')
      → slots_of d s'.clients ≤ slots_of d s.clients
  unfolding settle_client disconnect_client
  slots_of-settle_client s a false calls calls' s' d h = ground (arith, h)
  slots_of-settle_client s a true calls calls' s' d h = elim (Option-cases (client a s.clients)) [
    | inl k ↦ absurd (ground (arith, h, k))
    | inr (c, k) ↦ ground (arith, h, k, slots_of-vacate d a s.clients c k)
  ]

module _ {P : Packets} {PacketId : Type 0} ⦃o : Ord PacketId⦄ ⦃u : Uuid PacketId⦄ (rkyv : Rkyv P)
    (handler : ServerHandler P PacketId) where
  handle_connect_admits :
      (config : ServerConfig) (id : PacketId) (a : SocketAddr) (c : P.Connect)
      (decision : Connect P) (b : PacketBuffers PacketId) (s : UdpSocket) (now : ℕ)
      (calls : List (Call P PacketId)) (b' : PacketBuffers PacketId) (s' : UdpSocket)
      → handle_connect rkyv handler config id a c decision b s now ≡ some (true, calls, b', s')
      → (answer : P.Accept) × (decision ≡ accept answer) × (calls ≡ connect a c ∷ [])
  unfolding handle_connect answered reply
  handle_connect_admits config id a c (accept answer) b s now calls b' s' h =
      (answer, refl, ground (arith, h))
  handle_connect_admits config id a c (reject r) b s now calls b' s' h = absurd (ground (arith, h))

  handle_listener_packet_admits :
      (config : ServerConfig) (log : List (Call P PacketId)) (id : PacketId) (a : SocketAddr)
      (packet : ClientConnectionPacket P) (b : PacketBuffers PacketId) (s : UdpSocket) (now : ℕ)
      (calls : List (Call P PacketId)) (b' : PacketBuffers PacketId) (s' : UdpSocket)
      → handle_listener_packet rkyv handler config log id a packet b s now
        ≡ some (true, calls, b', s')
      → (c : P.Connect) × (answer : P.Accept) × (handler.connect log a c ≡ accept answer)
        × (calls ≡ connect a c ∷ [])
  unfolding handle_listener_packet answered
  handle_listener_packet_admits config log id a (ClientConnectionPacket.query q) b s now calls b' s'
        h =
      absurd (ground (arith, h))
  handle_listener_packet_admits config log id a (ClientConnectionPacket.connect c) b s now calls b'
        s' h =
      let (answer, accepts, last) =
        handle_connect_admits config id a c (handler.connect log a c) b s now calls b' s' h in
      (c, answer, accepts, last)
  handle_listener_packet_admits config log id a (ClientConnectionPacket.disconnect d) b s now calls
        b' s' h =
      absurd (ground (arith, h))
  handle_listener_packet_admits config log id a (ClientConnectionPacket.user x) b s now calls b' s'
        h =
      absurd (ground (arith, h))

  handle_listener_admits :
      (log : List (Call P PacketId)) (s : Server PacketId) (id : PacketId) (a : SocketAddr)
      (b : PacketBuffers PacketId) (buf : List ℕ) (now : ℕ) (calls : List (Call P PacketId))
      (s' : Server PacketId) (d : SocketAddr)
      → handle_listener rkyv handler log s id a b buf now ≡ some (calls, s')
      → slots_of d s.clients < slots_of d s'.clients
      → (d ≡ a) × Admitted handler log a calls
  unfolding handle_listener settle_listener accept_client new
  handle_listener_admits log s id a b buf now calls s' d h more =
      elim (Option-cases (handle_buffers rkyv.check_client b buf s.socket a now)) [
        | inl e ↦ absurd (ground (arith, h, e))
        | inr (((none, reports), buffers, socket), e) ↦ absurd (ground (arith, h, e, more))
        | inr (((some packet, reports), buffers, socket), e) ↦
            elim (Option-cases (
              handle_listener_packet rkyv handler s.config (log ++ reported reports) id a packet
                buffers socket now)) [
                  | inl k ↦ absurd (ground (arith, h, e, k))
                  | inr ((false, calls₁, buffers', socket'), k) ↦
                      absurd (ground (arith, h, e, k, more))
                  | inr ((true, calls₁, buffers', socket'), k) ↦
                      elim (Option-cases (get a (with_listener s a buffers' socket').listeners)) [
                        | inl g ↦ absurd (ground (arith, h, e, k, g))
                        | inr (b₂, g) ↦
                            let (c, answer, accepts, last) =
                              handle_listener_packet_admits s.config (log ++ reported reports) id a
                                packet buffers socket now calls₁ buffers' socket' k in
                            (
                              ground
                                  (arith, h, e, k, g, more, slots_of-place d s.clients (new a b₂)),
                              (
                                reported reports,
                                c,
                                answer,
                                ground (arith, h, e, k, g, last),
                                accepts,
                              ),
                            )
                      ]
                ]
      ]

  slots_of-handle_client :
      (log : List (Call P PacketId)) (s : Server PacketId) (id : PacketId)
      (c : ClientConnection PacketId) (buf : List ℕ) (now : ℕ) (calls : List (Call P PacketId))
      (s' : Server PacketId) (d : SocketAddr)
      → handle_client rkyv handler log s id c buf now ≡ some (calls, s')
      → slots_of d s'.clients ≤ slots_of d s.clients
  unfolding handle_client
  slots_of-handle_client log s id c buf now calls s' d h =
      elim (Option-cases
        (handle_buffers rkyv.check_client c.buffers buf s.socket c.client_addr now)) [
          | inl e ↦ absurd (ground (arith, h, e))
          | inr (((none, reports), buffers, socket), e) ↦
              ground
                (arith, h, e, slots_of-replace_client d (record c { buffers = buffers }) s.clients)
          | inr (((some packet, reports), buffers, socket), e) ↦
              elim (Option-cases (
                handle_client_packet rkyv handler s.config (log ++ reported reports) id
                  c.client_addr packet buffers socket now)) [
                    | inl k ↦ absurd (ground (arith, h, e, k))
                    | inr ((out, calls₁, buffers', socket'), k) ↦
                        let settled =
                          slots_of-settle_client
                            (with_client s (record c { buffers = buffers' }) socket') c.client_addr
                            out (reported reports ++ calls₁) calls s' d (ground (arith, h, e, k)) in
                        omega (
                          arith,
                          settled,
                          slots_of-replace_client d (record c { buffers = buffers' }) s.clients,
                        )
                  ]
        ]

  -- A datagram, from whatever address, makes nobody a client but its sender, and its sender only
  -- where the last call of the handler asks it for a request of the sender to connect, and it accepts.
  pub handle_datagram_admits :
      (log : List (Call P PacketId)) (s : Server PacketId) (id : PacketId) (a : SocketAddr)
      (buf : List ℕ) (now : ℕ) (calls : List (Call P PacketId)) (s' : Server PacketId)
      (d : SocketAddr)
      → handle_datagram rkyv handler log s id a buf now ≡ some (calls, s')
      → slots_of d s.clients < slots_of d s'.clients
      → (d ≡ a) × Admitted handler log a calls
  unfolding handle_datagram handle_version_request send_version version_sent handle_pong
  handle_datagram_admits log s id a [] now calls s' d h more = absurd (ground (arith, h, more))
  handle_datagram_admits log s id a (kind ∷ rest) now calls s' d h more =
      elim (Option-cases (client a s.clients)) [
        | inr (c, e) ↦ elim (Bool-cases (is_ping kind)) [
          | inl p ↦ absurd (
              ground (
                arith,
                h,
                e,
                p,
                more,
                slots_of-replace_client d (record c { last_pong = some now; missed_pongs = 0 })
                    s.clients,
              ))
          | inr p ↦ absurd (
              omega (
                arith,
                more,
                slots_of-handle_client log s id c (kind ∷ rest) now calls s' d
                    (ground (arith, h, e, p)),
              ))
        ]
        | inl e ↦ elim (Option-cases (get a s.listeners)) [
          | inl k ↦ absurd (ground (arith, h, e, k, more))
          | inr (b, k) ↦
              handle_listener_admits log s id a b (kind ∷ rest) now calls s' d
                (ground (arith, h, e, k)) more
        ]
      ]
