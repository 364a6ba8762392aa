-- ===== src/Client/Requested.antt =====
-- What the requests of the user of src/net/client.rs do to its state and to who its listeners are.
use packet_test.Common.{
  ℕ, ◌≤◌, ◌≡◌, refl, arith, List, some, Result, get_elem?, Option-cases, Result-split, inl, inr,
}
use packet_test.Common.Dict.{Ord}
use packet_test.Socket.{SocketAddr, IoError}
use packet_test.Packet.Kind.{Uuid}
use packet_test.Packet.Buffers
use packet_test.Packet.Buffers.{PacketBuffers}
use packet_test.Client.{
  ServerState, Client, Compatibility, QueryError, position, pending_version_query,
  ServerState-cases,
}
use packet_test.Client.Requests.{get_or_add_listener, listen, forget, forget_all, refresh_all}
use packet_test.Client.Connection.{send_to_listener, query}
use packet_test.Client.Roster.{
  listeners_of, listeners_of-append, listeners_of-position, listeners_of-set,
  listeners_of-swap_remove, listeners_of-refresh_each,
}

-- No server has two listeners.
abbrev pub IsDistinct : {E PacketId : Type 0} → Client E PacketId → Type 0
IsDistinct c = (a : SocketAddr) → listeners_of a c.listeners ≤ 1

module _ {E PacketId : Type 0} where
  pub get_or_add_listener_state :
      (c : Client E PacketId) (a : SocketAddr) (now : ℕ)
      → (get_or_add_listener c a now).1.state ≡ c.state
  unfolding get_or_add_listener
  get_or_add_listener_state c a now = ground arith

  pub get_or_add_listener-IsDistinct :
      (c : Client E PacketId) (a : SocketAddr) (now : ℕ)
      → IsDistinct c
      → IsDistinct (get_or_add_listener c a now).1
  unfolding get_or_add_listener
  get_or_add_listener-IsDistinct c a now v b = elim (Option-cases (position a c.listeners)) [
    | inr (index, h) ↦ ground (arith, h, v b)
    | inl h ↦
        elim (Result-split (pending_version_query {E = E} {PacketId = PacketId} c.socket a now).0) [
          | inl (e, k) ↦ ground (arith, h, k, v b)
          | inr (state, k) ↦ ground (
            arith,
            h,
            k,
            v b,
            listeners_of-position a c.listeners h,
            listeners_of-append b c.listeners (record { server_addr = a; state = state }),
          )
        ]
  ]

  pub listen_state :
      (c c' : Client E PacketId) (a : SocketAddr) (now : ℕ) (r : Result IoError (Compatibility E))
      → listen c a now ≡ some (r, c')
      → c' ≡ (get_or_add_listener c a now).1
  unfolding listen
  listen_state c c' a now r h = ground (arith, h)

  pub forget-IsDistinct :
      (c : Client E PacketId) (a : SocketAddr) → IsDistinct c → IsDistinct (forget c a).1
  unfolding forget
  forget-IsDistinct c a v b = elim (Option-cases (position a c.listeners)) [
    | inl h ↦ ground (arith, h, v b)
    | inr (index, h) ↦ ground (arith, h, v b, listeners_of-swap_remove b c.listeners index)
  ]

  pub forget_state : (c : Client E PacketId) (a : SocketAddr) → (forget c a).1.state ≡ c.state
  unfolding forget
  forget_state c a = ground arith

  pub forget_all-IsDistinct :
      (c c' : Client E PacketId) → forget_all c ≡ some c' → IsDistinct c → IsDistinct c'
  unfolding forget_all listeners_of
  forget_all-IsDistinct c c' h v b = ground (arith, h, v b)

  pub forget_all_state : (c c' : Client E PacketId) → forget_all c ≡ some c' → c'.state ≡ c.state
  unfolding forget_all
  forget_all_state c c' h = ground (arith, h)

  pub refresh_all-IsDistinct :
      (c : Client E PacketId) (now : ℕ) → IsDistinct c → IsDistinct (refresh_all c now).1
  unfolding refresh_all
  refresh_all-IsDistinct c now v b =
      omega (arith, v b, listeners_of-refresh_each b c.listeners c.socket now)

  pub refresh_all_state : (c : Client E PacketId) (now : ℕ) → (refresh_all c now).1.state ≡ c.state
  unfolding refresh_all
  refresh_all_state c now = refl

module _ {E PacketId : Type 0} ⦃o : Ord PacketId⦄ ⦃u : Uuid PacketId⦄ where
  send_to_listener_keeps :
      (c c' : Client E PacketId) (index : ℕ) (id : PacketId) (writes : List (List ℕ)) (now : ℕ)
      (r : Result QueryError PacketId)
      → send_to_listener c index id writes now ≡ some (r, c')
      → (c'.state ≡ c.state)
        × ((a : SocketAddr) → listeners_of a c'.listeners ≡ listeners_of a c.listeners)
  unfolding send_to_listener
  send_to_listener_keeps c c' index id writes now r h =
      elim (Option-cases (get_elem? c.listeners index)) [
        | inl k ↦ absurd (ground (arith, h, k))
        | inr (l, k) ↦ elim (ServerState-cases l.state) [
          | inl (v, x) ↦ (ground (arith, h, k, x), λ a. ground (arith, h, k, x))
          | inr (inr (e, x)) ↦ (ground (arith, h, k, x), λ a. ground (arith, h, k, x))
          | inr (inl (b, last, x)) ↦
              elim (Option-cases (
                Buffers.send b id writes c.config.connection.background_serialization_threshold
                  (record { socket = c.socket; addr = l.server_addr }) now)) [
                    | inl y ↦ absurd (ground (arith, h, k, x, y))
                    | inr ((sent, b', s'), y) ↦ (
                      ground (arith, h, k, x, y),
                      λ a. ground (
                        arith,
                        h,
                        k,
                        x,
                        y,
                        listeners_of-set a c.listeners index l
                            (record l { state = ServerState.compatible b' last }) k refl,
                      ),
                    )
                  ]
        ]
      ]

  pub query_state :
      (c c' : Client E PacketId) (a : SocketAddr) (id : PacketId) (writes : List (List ℕ)) (now : ℕ)
      (r : Result QueryError PacketId)
      → query c a id writes now ≡ some (r, c')
      → c'.state ≡ c.state
  unfolding query
  query_state c c' a id writes now r h = elim (Result-split (get_or_add_listener c a now).0) [
    | inl (e, k) ↦ ground (arith, h, k, get_or_add_listener_state c a now)
    | inr (index, k) ↦
        let (same, others) =
          send_to_listener_keeps (get_or_add_listener c a now).1 c' index id writes now r
            (ground (arith, h, k)) in
        ground (arith, same, get_or_add_listener_state c a now)
  ]

  pub query-IsDistinct :
      (c c' : Client E PacketId) (a : SocketAddr) (id : PacketId) (writes : List (List ℕ)) (now : ℕ)
      (r : Result QueryError PacketId)
      → query c a id writes now ≡ some (r, c')
      → IsDistinct c
      → IsDistinct c'
  unfolding query
  query-IsDistinct c c' a id writes now r h v b =
      elim (Result-split (get_or_add_listener c a now).0) [
        | inl (e, k) ↦ ground (arith, h, k, get_or_add_listener-IsDistinct c a now v b)
        | inr (index, k) ↦
            let (same, others) =
              send_to_listener_keeps (get_or_add_listener c a now).1 c' index id writes now r
                (ground (arith, h, k)) in
            omega (arith, others b, get_or_add_listener-IsDistinct c a now v b)
      ]
