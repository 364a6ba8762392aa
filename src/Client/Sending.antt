-- ===== src/Client/Sending.antt =====
-- `connect`, `disconnect` and `send` of src/net/client.rs: the state that they lead to, and their
-- listeners.
use packet_test.Common.{
  ℕ, ◌≤◌, ◌≡◌, refl, arith, List, some, Result, ok, err, get_elem?, Option-cases, ◌⊎◌, inl, inr,
}
use packet_test.Common.Dict.{Ord}
use packet_test.Socket.{SocketAddr, IoError}
use packet_test.Packet.Kind.{Uuid}
use packet_test.Packet.Buffers
use packet_test.Packet.Buffers.{PacketBuffers}
use packet_test.Client.{
  ClientState, ServerState, Client, ConnectError, SendError, disconnected, connecting, connected,
  disconnecting, ServerState-cases,
}
use packet_test.Client.Connection.{query, connect, send_connected, disconnect, send}
use packet_test.Client.Roster.{listeners_of, listeners_of-set, listeners_of-swap_remove}
use packet_test.Client.Requested.{IsDistinct, query_state, query-IsDistinct}

module _ {E PacketId : Type 0} ⦃o : Ord PacketId⦄ ⦃u : Uuid PacketId⦄ where
  pub connect-IsDistinct :
      (c c' : Client E PacketId) (peer : Result IoError SocketAddr) (id : PacketId)
      (writes : List (List ℕ)) (now : ℕ) (r : Result ConnectError PacketId)
      → connect c peer id writes now ≡ some (r, c')
      → IsDistinct c
      → IsDistinct c'
  unfolding connect
  connect-IsDistinct c c' (err e) id writes now r h v b = ground (arith, h, v b)
  connect-IsDistinct c c' (ok a) id writes now r h v b =
      elim (Option-cases (query c a id writes now)) [
        | inl k ↦ ground (arith, h, k, v b)
        | inr ((q, c₁), k) ↦
            ground (arith, h, k, v b, query-IsDistinct c c₁ a id writes now q k v b)
      ]

  pub connect_state :
      (c c' : Client E PacketId) (peer : Result IoError SocketAddr) (id : PacketId)
      (writes : List (List ℕ)) (now : ℕ) (r : Result ConnectError PacketId)
      → connect c peer id writes now ≡ some (r, c')
      → (c'.state ≡ c.state) ⊎ ((c.state ≡ disconnected) × (c'.state ≡ connecting))
  unfolding connect
  connect_state c c' (err e) id writes now r h = ground (arith, h)
  connect_state c c' (ok a) id writes now r h = elim (Option-cases (query c a id writes now)) [
    | inl k ↦ ground (arith, h, k)
    | inr ((q, c₁), k) ↦ ground (arith, h, k, query_state c c₁ a id writes now q k)
  ]

  listeners_of-send_connected :
      (c c' : Client E PacketId) (next : ClientState) (id : PacketId) (writes : List (List ℕ))
      (now : ℕ) (r : Result SendError PacketId) (b : SocketAddr)
      → send_connected c next id writes now ≡ some (r, c')
      → listeners_of b c'.listeners ≤ listeners_of b c.listeners
  unfolding send_connected
  listeners_of-send_connected c c' next id writes now r b h =
      elim (Option-cases (get_elem? c.listeners 0)) [
        | inl k ↦ absurd (ground (arith, h, k))
        | inr (l, k) ↦ elim (ServerState-cases l.state) [
          | inl (v, x) ↦ absurd (ground (arith, h, k, x))
          | inr (inr (e, x)) ↦ absurd (ground (arith, h, k, x))
          | inr (inl (old, last, x)) ↦
              elim (Option-cases (
                Buffers.send old id writes c.config.connection.background_serialization_threshold
                  (record { socket = c.socket; addr = l.server_addr }) now)) [
                    | inl y ↦ absurd (ground (arith, h, k, x, y))
                    | inr ((sent, new, s'), y) ↦ ground (
                      arith,
                      h,
                      k,
                      x,
                      y,
                      listeners_of-swap_remove b c.listeners 0,
                      listeners_of-set b c.listeners 0 l
                          (record l { state = ServerState.compatible new last }) k refl,
                    )
                  ]
        ]
      ]

  -- What is sent leads on, and what fails disconnects.
  send_connected_state :
      (c c' : Client E PacketId) (next : ClientState) (id : PacketId) (writes : List (List ℕ))
      (now : ℕ) (r : Result SendError PacketId)
      → send_connected c next id writes now ≡ some (r, c')
      → (c'.state ≡ next) ⊎ (c'.state ≡ disconnected)
  unfolding send_connected
  send_connected_state c c' next id writes now r h = elim (Option-cases (get_elem? c.listeners 0)) [
    | inl k ↦ absurd (ground (arith, h, k))
    | inr (l, k) ↦ elim (ServerState-cases l.state) [
      | inl (v, x) ↦ absurd (ground (arith, h, k, x))
      | inr (inr (e, x)) ↦ absurd (ground (arith, h, k, x))
      | inr (inl (old, last, x)) ↦ ground (arith, h, k, x)
    ]
  ]

  pub disconnect-IsDistinct :
      (c c' : Client E PacketId) (id : PacketId) (writes : List (List ℕ)) (now : ℕ)
      (r : Result SendError PacketId)
      → disconnect c id writes now ≡ some (r, c')
      → IsDistinct c
      → IsDistinct c'
  unfolding disconnect
  disconnect-IsDistinct c c' id writes now r h v b =
      ground (arith, h, v b, listeners_of-send_connected c c' disconnecting id writes now r b)

  pub disconnect_state :
      (c c' : Client E PacketId) (id : PacketId) (writes : List (List ℕ)) (now : ℕ)
      (r : Result SendError PacketId)
      → disconnect c id writes now ≡ some (r, c')
      → (c'.state ≡ c.state)
        ⊎ ((c.state ≡ connected) × ((c'.state ≡ disconnecting) ⊎ (c'.state ≡ disconnected)))
  unfolding disconnect
  disconnect_state c c' id writes now r h =
      ground (arith, h, send_connected_state c c' disconnecting id writes now r)

  pub send-IsDistinct :
      (c c' : Client E PacketId) (id : PacketId) (writes : List (List ℕ)) (now : ℕ)
      (r : Result SendError PacketId)
      → send c id writes now ≡ some (r, c')
      → IsDistinct c
      → IsDistinct c'
  unfolding send
  send-IsDistinct c c' id writes now r h v b =
      ground (arith, h, v b, listeners_of-send_connected c c' connected id writes now r b)

  pub send_state :
      (c c' : Client E PacketId) (id : PacketId) (writes : List (List ℕ)) (now : ℕ)
      (r : Result SendError PacketId)
      → send c id writes now ≡ some (r, c')
      → (c'.state ≡ c.state) ⊎ ((c.state ≡ connected) × (c'.state ≡ disconnected))
  unfolding send
  send_state c c' id writes now r h =
      ground (arith, h, send_connected_state c c' connected id writes now r)
