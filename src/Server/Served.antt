-- ===== src/Server/Served.antt =====
-- What a datagram does to who is registered, in `handle_packets` and `update` of src/net/server.rs.
use packet_test.Common.{
  Result, ℕ, ◌≡◌, refl, ◌∙◌, arith, List, [], ◌∷◌, ◌++◌, Option, none, some, Bool, true, false,
  Option-cases, inl, inr,
}
use packet_test.Common.Dict.{Ord, nat_ord, get, get-insert}
use packet_test.Socket.{IoError, SocketAddr, UdpSocket}
use packet_test.Handler.Buffers.{handle_buffers}
use packet_test.Packet.Kind.{Uuid}
use packet_test.Packet.Packets.{ServerConnectionPacket, Packets, Rkyv}
use packet_test.Packet.Buffers.{PacketBuffers}
use packet_test.Server.{ClientConnection, Server, accept_client, disconnect_client, client}
use packet_test.Server.Registry.{
  slots_of, registrations, IsValid, registrations-accept_client, registrations-disconnect_client,
}
use packet_test.Server.Handle
use packet_test.Packet.Buffers
use packet_test.Server.Handle.{
  send_raw, Call, event, ServerHandler, reported, replace_client, with_client, with_listener,
  handle_pong, handle_client_packet, handle_listener_packet,
}
use packet_test.Server.Loop.{
  settle_client, settle_listener, handle_client, handle_listener, handle_datagram,
}

-- On the server that is left, if there is one, every address is registered as often as before.
abbrev pub Conserves :
    {A PacketId : Type 0} → Server PacketId → Option (A × Server PacketId) → Type 0
Conserves s none = Unit
Conserves s (some (a, s')) = (b : SocketAddr) → registrations s' b ≡ registrations s b

module _ {PacketId : Type 0} where
  pub slots_of-replace_client :
      (a : SocketAddr) (c : ClientConnection PacketId)
      (clients : List (Option (ClientConnection PacketId)))
      → slots_of a (replace_client c clients) ≡ slots_of a clients
  unfolding slots_of replace_client
  slots_of-replace_client a c [] = refl
  slots_of-replace_client a c (none ∷ clients) = slots_of-replace_client a c clients
  slots_of-replace_client a c (some d ∷ clients) =
      ground (arith, slots_of-replace_client a c clients)

  pub registrations-with_client :
      (s : Server PacketId) (c : ClientConnection PacketId) (socket : UdpSocket) (b : SocketAddr)
      → registrations (with_client s c socket) b ≡ registrations s b
  unfolding registrations
  registrations-with_client s c socket b = omega (arith, slots_of-replace_client b c s.clients)

  registrations-with_listener :
      (s : Server PacketId) (a : SocketAddr) (old new : PacketBuffers PacketId) (socket : UdpSocket)
      → get a s.listeners ≡ some old
      → (b : SocketAddr) → registrations (with_listener s a new socket) b ≡ registrations s b
  unfolding registrations
  registrations-with_listener s a old new socket h b =
      ground (arith, h, get-insert a b new s.listeners)

  registrations-handle_pong :
      ⦃o : Ord PacketId⦄ ⦃u : Uuid PacketId⦄ (s : Server PacketId) (c : ClientConnection PacketId)
      (id : List ℕ) (now : ℕ) (b : SocketAddr)
      → registrations (handle_pong s c id now).1 b ≡ registrations s b
  unfolding handle_pong registrations
  registrations-handle_pong s c id now b = ground (
    arith,
    slots_of-replace_client b (record c { last_pong = some now; missed_pongs = 0 }) s.clients,
  )

module _ {P : Packets} {PacketId : Type 0} where
  settle_client-Conserves :
      (s₀ s : Server PacketId) (a : SocketAddr) (disconnect : Bool) (calls : List (Call P PacketId))
      → IsValid s₀
      → ((b : SocketAddr) → registrations s b ≡ registrations s₀ b)
      → Conserves s₀ (settle_client s a disconnect calls)
  unfolding settle_client
  settle_client-Conserves s₀ s a false calls v same = same
  settle_client-Conserves s₀ s a true calls v same = elim (Option-cases (disconnect_client s a)) [
    | inl h ↦ ground (arith, h)
    | inr (s', h) ↦
        let moved : (b : SocketAddr) → registrations s' b ≡ registrations s₀ b = λ b.
          registrations-disconnect_client s s' a h (λ d. omega (arith, v d, same d)) b ∙ same b in
        ground (arith, h, moved)
  ]

  settle_listener-Conserves :
      (s₀ s : Server PacketId) (a : SocketAddr) (accepted : Bool) (calls : List (Call P PacketId))
      → ((b : SocketAddr) → registrations s b ≡ registrations s₀ b)
      → Conserves s₀ (settle_listener s a accepted calls)
  unfolding settle_listener
  settle_listener-Conserves s₀ s a false calls same = same
  settle_listener-Conserves s₀ s a true calls same = elim (Option-cases (accept_client s a)) [
    | inl h ↦ ground (arith, h)
    | inr (s', h) ↦
        let moved : (b : SocketAddr) → registrations s' b ≡ registrations s₀ b =
          λ b. registrations-accept_client s s' a h b ∙ same b in
        ground (arith, h, moved)
  ]

module _ {P : Packets} {PacketId : Type 0} ⦃o : Ord PacketId⦄ ⦃u : Uuid PacketId⦄ (rkyv : Rkyv P)
    (handler : ServerHandler P PacketId) where
  -- A packet that the user sends to a client.
  pub send-IsValid :
      (s s' : Server PacketId) (a : SocketAddr) (id : PacketId) (packet : P.Server) (now : ℕ)
      (r : Result IoError PacketId)
      → Handle.send rkyv s a id packet now ≡ some (some (r, s'))
      → IsValid s
      → IsValid s'
  unfolding Handle.send send_raw
  send-IsValid s s' a id packet now r h v b = elim (Option-cases (client a s.clients)) [
    | inl k ↦ absurd (ground (arith, h, k))
    | inr (c, k) ↦
        elim (Option-cases (
          Buffers.send c.buffers id (rkyv.write_server (ServerConnectionPacket.user packet))
            s.config.connection.background_serialization_threshold
            (record { socket = s.socket; addr = a }) now)) [
              | inl e ↦ absurd (ground (arith, h, k, e))
              | inr ((x, buffers', socket'), e) ↦ ground (
                arith,
                h,
                k,
                e,
                v b,
                registrations-with_client s (record c { buffers = buffers' }) socket'.socket b,
              )
            ]
  ]

  handle_client-Conserves :
      (log : List (Call P PacketId)) (s : Server PacketId) (id : PacketId)
      (c : ClientConnection PacketId) (buf : List ℕ) (now : ℕ)
      → IsValid s
      → Conserves s (handle_client rkyv handler log s id c buf now)
  unfolding handle_client
  handle_client-Conserves log s id c buf now v =
      elim (Option-cases
        (handle_buffers rkyv.check_client c.buffers buf s.socket c.client_addr now)) [
          | inl h ↦ ground (arith, h)
          | inr (((none, reports), buffers, socket), h) ↦
              ground (arith, h, registrations-with_client s (record c { buffers = buffers }) socket)
          | inr (((some packet, reports), buffers, socket), h) ↦
              elim (Option-cases (
                handle_client_packet rkyv handler s.config (log ++ reported reports) id
                  c.client_addr packet buffers socket now)) [
                    | inl k ↦ ground (arith, h, k)
                    | inr ((d, calls, buffers', socket'), k) ↦ ground (
                      arith,
                      h,
                      k,
                      settle_client-Conserves s
                          (with_client s (record c { buffers = buffers' }) socket') c.client_addr d
                          (reported reports ++ calls) v
                          (registrations-with_client s (record c { buffers = buffers' }) socket'),
                    )
                  ]
        ]

  handle_listener-Conserves :
      (log : List (Call P PacketId)) (s : Server PacketId) (id : PacketId) (a : SocketAddr)
      (b : PacketBuffers PacketId) (buf : List ℕ) (now : ℕ)
      → get a s.listeners ≡ some b
      → Conserves s (handle_listener rkyv handler log s id a b buf now)
  unfolding handle_listener
  handle_listener-Conserves log s id a b buf now g =
      elim (Option-cases (handle_buffers rkyv.check_client b buf s.socket a now)) [
        | inl h ↦ ground (arith, h)
        | inr (((none, reports), buffers, socket), h) ↦
            ground (arith, h, registrations-with_listener s a b buffers socket g)
        | inr (((some packet, reports), buffers, socket), h) ↦
            elim (Option-cases (
              handle_listener_packet rkyv handler s.config (log ++ reported reports) id a packet
                buffers socket now)) [
                  | inl k ↦ ground (arith, h, k)
                  | inr ((d, calls, buffers', socket'), k) ↦ ground (
                    arith,
                    h,
                    k,
                    settle_listener-Conserves s (with_listener s a buffers' socket') a d
                        (reported reports ++ calls)
                        (registrations-with_listener s a b buffers' socket' g),
                  )
                ]
      ]

  -- On a server where no address is registered twice, a datagram that is not empty, from whatever
  -- address and unless it makes the server panic, leaves every address registered as often as
  -- before: what it moves between listeners and clients, it neither loses nor doubles.
  pub handle_datagram-Conserves :
      (log : List (Call P PacketId)) (s : Server PacketId) (id : PacketId) (a : SocketAddr)
      (kind : ℕ) (rest : List ℕ) (now : ℕ)
      → IsValid s
      → Conserves s (handle_datagram rkyv handler log s id a (kind ∷ rest) now)
  unfolding handle_datagram
  handle_datagram-Conserves log s id a kind rest now v = elim (Option-cases (client a s.clients)) [
    | inr (c, h) ↦ ground (
      arith,
      h,
      registrations-handle_pong s c rest now,
      handle_client-Conserves log s id c (kind ∷ rest) now v,
    )
    | inl h ↦ elim (Option-cases (get a s.listeners)) [
      | inl k ↦ ground (arith, h, k)
      | inr (b, k) ↦
          ground (arith, h, k, handle_listener-Conserves log s id a b (kind ∷ rest) now k)
    ]
  ]
