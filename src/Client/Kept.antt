-- ===== src/Client/Kept.antt =====
-- How many listeners each address has in `update` of src/net/client.rs.
use packet_test.Common.{
  ℕ, zero, suc, ◌≤◌, ◌≡◌, refl, arith, List, [], ◌∷◌, ◌++◌, map, Option, none, some, if◌then◌else◌,
  get_elem?, set, Option-cases, Result-split, inl, inr,
}
use packet_test.Common.Dict.{Ord}
use packet_test.Config.{ClientConfig}
use packet_test.Socket.{SocketAddr, UdpSocket, recv}
use packet_test.Packet.Kind.{Uuid}
use packet_test.Packet.Packets.{Packets, Rkyv}
use packet_test.Packet.Buffers
use packet_test.Packet.Buffers.{PacketBuffers}
use packet_test.Handler.Buffers.{handle_buffers}
use packet_test.Client.{
  ClientState, ServerState, ServerListener, Client, is_disconnected, position, ServerState-cases,
}
use packet_test.Client.Update.{
  update_query, update_listener, update_each, update_listeners, timeout_connection,
}
use packet_test.Client.Receive.{
  Call, ClientHandler, handle_ping, handle_version, handle_compatible, handle_datagram,
  handle_datagrams, update, error,
}
use packet_test.Client.Roster.{listeners_of, listeners_of-set, listeners_of-timeout_each}
use packet_test.Client.Requested.{IsDistinct}

module _ {E PacketId : Type 0} ⦃o : Ord PacketId⦄ ⦃u : Uuid PacketId⦄ where
  -- A listener that is kept keeps its address.
  update_listener_addr :
      (l : ServerListener E PacketId) (socket : UdpSocket) (state : Option ClientState)
      (config : ClientConfig) (now : ℕ) (m : ServerListener E PacketId)
      → (update_listener l socket state config now).1 ≡ some m
      → m.server_addr ≡ l.server_addr
  unfolding update_listener update_query
  update_listener_addr l socket state config now m h = elim (ServerState-cases l.state) [
    | inl (v, x) ↦ ground (arith, h, x)
    | inr (inl (b, last, x)) ↦ ground (arith, h, x)
    | inr (inr (r, x)) ↦ ground (arith, h, x)
  ]

  listeners_of-update_each :
      (a : SocketAddr) (ls : List (ServerListener E PacketId)) (socket : UdpSocket)
      (state : Option ClientState) (config : ClientConfig) (now : ℕ)
      → listeners_of a (update_each ls socket state config now).1 ≤ listeners_of a ls
  unfolding update_each listeners_of
  listeners_of-update_each a [] socket state config now = omega arith
  listeners_of-update_each a (l ∷ ls) socket state config now =
      let rest =
        listeners_of-update_each a ls (update_listener l socket state config now).3 none config
          now in
      elim (Option-cases (update_listener l socket state config now).1) [
        | inl h ↦ ground (arith, h, rest)
        | inr (m, h) ↦ ground (arith, h, rest, update_listener_addr l socket state config now m h)
      ]

  update_listeners-IsDistinct :
      (c : Client E PacketId) (now : ℕ) → IsDistinct c → IsDistinct (update_listeners c now).1
  unfolding update_listeners
  update_listeners-IsDistinct c now v b = omega (
    arith,
    v b,
    listeners_of-update_each b c.listeners c.socket
        (if is_disconnected c.state then none else some c.state) c.config now,
  )

  timeout_connection-IsDistinct :
      (c : Client E PacketId) (now : ℕ) → IsDistinct c → IsDistinct (timeout_connection c now).1
  unfolding timeout_connection
  timeout_connection-IsDistinct c now v b =
      omega (arith, v b, listeners_of-timeout_each b c.config.timeout now c.listeners)

module _ {P : Packets} {PacketId : Type 0} ⦃o : Ord PacketId⦄ ⦃u : Uuid PacketId⦄ (rkyv : Rkyv P)
    (handler : ClientHandler P PacketId) where
  listeners_of-handle_version :
      (a : SocketAddr) (log : List (Call P PacketId)) (c : Client P.CompatibilityError PacketId)
      (index : ℕ) (l : ServerListener P.CompatibilityError PacketId) (buf : List ℕ) (now : ℕ)
      → get_elem? c.listeners index ≡ some l
      → listeners_of a (handle_version rkyv handler log c index l buf now).1.listeners
        ≡ listeners_of a c.listeners
  unfolding handle_version
  listeners_of-handle_version a log c index l [] now h = refl
  listeners_of-handle_version a log c index l (kind ∷ rest) now h =
      let keeps : (state : ServerState P.CompatibilityError PacketId)
          → listeners_of a (set c.listeners index (record l { state = state }))
            ≡ listeners_of a c.listeners =
        λ state. listeners_of-set a c.listeners index l (record l { state = state }) h refl in
      elim (Option-cases (P.read_version rest)) [
        | inl e ↦ ground (arith, e)
        | inr (version, e) ↦ elim (Result-split (handler.compatibility log version)) [
          | inl (r, k) ↦ ground (arith, e, k, keeps (ServerState.incompatible r))
          | inr (x, k) ↦ ground (
            arith,
            e,
            k,
            keeps (
                ServerState.compatible (Buffers.new c.config.connection.initial_send_batch_size)
                  now),
          )
        ]
      ]

  listeners_of-handle_compatible :
      (a : SocketAddr) (c c' : Client P.CompatibilityError PacketId) (index : ℕ)
      (l : ServerListener P.CompatibilityError PacketId) (b : PacketBuffers PacketId) (buf : List ℕ)
      (now : ℕ) (calls : List (Call P PacketId))
      → get_elem? c.listeners index ≡ some l
      → handle_compatible rkyv handler c index l b buf now ≡ some (calls, c')
      → listeners_of a c'.listeners ≡ listeners_of a c.listeners
  unfolding handle_compatible
  listeners_of-handle_compatible a c c' index l b buf now calls found e =
      elim (Option-cases (handle_buffers rkyv.check_server b buf c.socket l.server_addr now)) [
        | inl h ↦ absurd (ground (arith, h, e))
        | inr (((packet, reports), b', socket), h) ↦ ground (
          arith,
          h,
          e,
          listeners_of-set a c.listeners index l
              (record l { state = ServerState.compatible b' now }) found refl,
        )
      ]

  -- A datagram adds no listener and takes none away.
  pub listeners_of-handle_datagram :
      (a : SocketAddr) (log : List (Call P PacketId)) (c : Client P.CompatibilityError PacketId)
      (addr : SocketAddr) (buf : List ℕ) (now : ℕ) (calls : List (Call P PacketId))
      (c' : Client P.CompatibilityError PacketId)
      → handle_datagram rkyv handler log c addr buf now ≡ some (calls, c')
      → listeners_of a c'.listeners ≡ listeners_of a c.listeners
  unfolding handle_datagram handle_ping
  listeners_of-handle_datagram a log c addr buf now calls c' e =
      elim (Option-cases (position addr c.listeners)) [
        | inl h ↦ ground (arith, h, e)
        | inr (index, h) ↦ elim (Option-cases (get_elem? c.listeners index)) [
          | inl k ↦ absurd (ground (arith, h, k, e))
          | inr (l, k) ↦ elim (ServerState-cases l.state) [
            | inl (v, x) ↦
                ground (arith, h, k, x, e, listeners_of-handle_version a log c index l buf now k)
            | inr (inl (b, last, x)) ↦ ground (
              arith,
              h,
              k,
              x,
              e,
              listeners_of-handle_compatible a c c' index l b buf now calls k,
              listeners_of-set a c.listeners index l
                  (record l { state = ServerState.compatible b now }) k refl,
            )
            | inr (inr (r, x)) ↦ ground (arith, h, k, x, e)
          ]
        ]
      ]

  handle_datagrams-IsDistinct :
      (fuel : ℕ) (log : List (Call P PacketId)) (c : Client P.CompatibilityError PacketId) (now : ℕ)
      (log' : List (Call P PacketId)) (c' : Client P.CompatibilityError PacketId)
      → handle_datagrams rkyv handler fuel log c now ≡ some (some (log', c'))
      → IsDistinct c
      → IsDistinct c'
  unfolding handle_datagrams
  handle_datagrams-IsDistinct zero log c now log' c' h v b = cc
  handle_datagrams-IsDistinct (suc fuel) log c now log' c' h v b =
      elim (Option-cases (recv c.socket).0) [
        | inl k ↦ ground (arith, k, h, v b)
        | inr ((a, buf), k) ↦
            elim (Option-cases (
              handle_datagram rkyv handler log (record c { socket = (recv c.socket).2 }) a buf
                now)) [
                  | inl e ↦ absurd (ground (arith, k, e, h))
                  | inr ((calls, c₁), e) ↦
                      let v₁ : IsDistinct c₁ = λ d. omega (
                        arith,
                        v d,
                        listeners_of-handle_datagram d log (record c { socket = (recv c.socket).2 })
                            a buf now calls c₁ e,
                      ) in
                      handle_datagrams-IsDistinct fuel (log ++ calls) c₁ now log' c'
                        (ground (arith, k, e, h)) v₁ b
                ]
      ]

  pub update-IsDistinct :
      (fuel : ℕ) (log : List (Call P PacketId)) (c : Client P.CompatibilityError PacketId) (now : ℕ)
      (log' : List (Call P PacketId)) (c' : Client P.CompatibilityError PacketId)
      → update rkyv handler fuel log c now ≡ some (some (log', c'))
      → IsDistinct c
      → IsDistinct c'
  unfolding update
  update-IsDistinct fuel log c now log' c' h v b =
      elim (Option-cases (
        handle_datagrams rkyv handler fuel (log ++ map error (update_listeners c now).0)
          (update_listeners c now).1 now)) [
            | inl k ↦ absurd (ground (arith, k, h))
            | inr (none, k) ↦ absurd (ground (arith, k, h))
            | inr (some (log₂, c₂), k) ↦
                let v₂ : IsDistinct c₂ =
                  handle_datagrams-IsDistinct fuel (log ++ map error (update_listeners c now).0)
                    (update_listeners c now).1 now log₂ c₂ k
                    (update_listeners-IsDistinct c now v) in
                ground (arith, k, h, timeout_connection-IsDistinct c₂ now v₂ b)
          ]
