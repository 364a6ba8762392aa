-- ===== src/Client/First.antt =====
-- Which listener of src/net/client.rs stands for the connection after `connect`.
use packet_test.Common.{
  ℕ, zero, suc, ◌≡◌, refl, arith, List, [], ◌∷◌, Option, none, some, Result, ok, err, get_elem?,
  set, Option-cases, Result-split, inl, inr,
}
use packet_test.Common.Dict.{Ord}
use packet_test.Socket.{SocketAddr, IoError}
use packet_test.Packet.Kind.{Uuid}
use packet_test.Packet.Buffers
use packet_test.Packet.Buffers.{PacketBuffers}
use packet_test.Client.{
  ServerState, ServerListener, Client, QueryError, connecting, ServerState-cases, server_addr,
}
use packet_test.Client.Requests.{get_or_add_listener}
use packet_test.Client.Connection.{send_to_listener, query, connect}

module _ {E PacketId : Type 0} where
  -- The address of the first listener.
  abbrev first_addr : List (ServerListener E PacketId) → Option SocketAddr
  first_addr [] = none
  first_addr (l ∷ ls) = some l.server_addr

  first_addr-set :
      (ls : List (ServerListener E PacketId)) (index : ℕ) (l m : ServerListener E PacketId)
      → get_elem? ls index ≡ some l
      → m.server_addr ≡ l.server_addr
      → first_addr (set ls index m) ≡ first_addr ls
  first_addr-set [] index l m h same = refl
  first_addr-set (k ∷ ls) zero l m h same = ground (arith, h, same)
  first_addr-set (k ∷ ls) (suc index) l m h same = refl

  first_addr-get_or_add_listener :
      (c : Client E PacketId) (a b : SocketAddr) (now : ℕ)
      → first_addr c.listeners ≡ some b
      → first_addr (get_or_add_listener c a now).1.listeners ≡ some b
  unfolding get_or_add_listener
  first_addr-get_or_add_listener c a b now h = ground (arith, h)

  server_addr_connecting :
      (c : Client E PacketId) (a : SocketAddr)
      → c.state ≡ connecting
      → first_addr c.listeners ≡ some a
      → server_addr c ≡ some (some a)
  unfolding server_addr
  server_addr_connecting c a h k = ground (arith, h, k)

module _ {E PacketId : Type 0} ⦃o : Ord PacketId⦄ ⦃u : Uuid PacketId⦄ where
  first_addr-send_to_listener :
      (c c' : Client E PacketId) (index : ℕ) (id : PacketId) (writes : List (List ℕ)) (now : ℕ)
      (r : Result QueryError PacketId)
      → send_to_listener c index id writes now ≡ some (r, c')
      → first_addr c'.listeners ≡ first_addr c.listeners
  unfolding send_to_listener
  first_addr-send_to_listener c c' index id writes now r h =
      elim (Option-cases (get_elem? c.listeners index)) [
        | inl k ↦ absurd (ground (arith, h, k))
        | inr (l, k) ↦ elim (ServerState-cases l.state) [
          | inl (v, x) ↦ ground (arith, h, k, x)
          | inr (inr (e, x)) ↦ ground (arith, h, k, x)
          | inr (inl (b, last, x)) ↦
              elim (Option-cases (
                Buffers.send b id writes c.config.connection.background_serialization_threshold
                  (record { socket = c.socket; addr = l.server_addr }) now)) [
                    | inl y ↦ absurd (ground (arith, h, k, x, y))
                    | inr ((sent, b', s'), y) ↦ ground (
                      arith,
                      h,
                      k,
                      x,
                      y,
                      first_addr-set c.listeners index l
                          (record l { state = ServerState.compatible b' last }) k refl,
                    )
                  ]
        ]
      ]

  first_addr-query :
      (c c' : Client E PacketId) (a b : SocketAddr) (id : PacketId) (writes : List (List ℕ))
      (now : ℕ) (r : Result QueryError PacketId)
      → query c a id writes now ≡ some (r, c')
      → first_addr c.listeners ≡ some b
      → first_addr c'.listeners ≡ some b
  unfolding query
  first_addr-query c c' a b id writes now r h first =
      elim (Result-split (get_or_add_listener c a now).0) [
        | inl (e, k) ↦ ground (arith, h, k, first_addr-get_or_add_listener c a b now first)
        | inr (index, k) ↦ ground (
          arith,
          first_addr-send_to_listener (get_or_add_listener c a now).1 c' index id writes now r
              (ground (arith, h, k)),
          first_addr-get_or_add_listener c a b now first,
        )
      ]

  -- After `connect` has sent its packet, to whatever server, the server that the client takes itself
  -- to be connecting to is the one that it has listened to first.
  pub connect-server_addr :
      (c c' : Client E PacketId) (l : ServerListener E PacketId) (peer : Result IoError SocketAddr)
      (id sent_id : PacketId) (writes : List (List ℕ)) (now : ℕ)
      → get_elem? c.listeners 0 ≡ some l
      → connect c peer id writes now ≡ some (ok sent_id, c')
      → server_addr c' ≡ some (some l.server_addr)
  unfolding connect
  connect-server_addr c c' l (err e) id sent_id writes now first h = absurd (ground (arith, h))
  connect-server_addr c c' l (ok a) id sent_id writes now first h =
      elim (Option-cases (query c a id writes now)) [
        | inl k ↦ absurd (ground (arith, h, k))
        | inr ((q, c₁), k) ↦ server_addr_connecting c' l.server_addr (ground (arith, h, k)) (
            ground (
              arith,
              h,
              k,
              first_addr-query c c₁ a l.server_addr id writes now q k (ground (arith, first)),
            ))
      ]
