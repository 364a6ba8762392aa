-- ===== src/Client/Panics.antt =====
-- When the client of src/net/client.rs panics: on a datagram, and on the requests of its user.
mod Tests
use packet_test.Common.{
  ℕ, zero, suc, ◌*◌, ◌^◌, ◌≤◌, ◌<◌, ◌≡◌, refl, arith, List, [], ◌∷◌, ◌++◌, Option, none, some,
  Result, ok, err, Bool, true, false, ◌&&◌, not, ◌==◌, length, length-append, get_elem?,
  Option-cases, Bool-cases, Result-split, inl, inr,
}
use packet_test.Common.Dict.{Ord}
use packet_test.Socket.{SocketAddr, UdpSocket, NonBlockingUdpSocket, IoError}
use packet_test.Handler.Buffers.{handle_buffers}
use packet_test.Handler.Buffers.Panics.{handle_buffers-Late}
use packet_test.Packet.Kind.{Uuid}
use packet_test.Packet.Packets.{Packets, Rkyv}
use packet_test.Packet.Serialize.VecRun.{flat}
use packet_test.Packet.Buffers
use packet_test.Packet.Buffers.{PacketBuffers}
use packet_test.Packet.Buffers.Panics.{Late, send_total}
use packet_test.Client.{
  ServerState, ServerListener, Client, is_disconnected, position, pending_version_query,
  ServerState-cases,
}
use packet_test.Client.Requests.{get_or_add_listener, listen}
use packet_test.Client.Connection.{send_to_listener, query, connect}
use packet_test.Client.Receive.{Call, ClientHandler, is_ping, handle_compatible, handle_datagram}

module _ {E PacketId : Type 0} where
  -- A position is an index of the list.
  position_in_range :
      (a : SocketAddr) (ls : List (ServerListener E PacketId)) (index : ℕ)
      → position a ls ≡ some index
      → index < length ls
  unfolding position
  position_in_range a [] index h = cc
  position_in_range a (l ∷ ls) zero h = omega arith
  position_in_range a (l ∷ ls) (suc index) h = ground (arith, h, position_in_range a ls index)

  get_elem?-in_range :
      (ls : List (ServerListener E PacketId)) (index : ℕ)
      → index < length ls
      → ¬ (get_elem? ls index ≡ none)
  get_elem?-in_range [] index h panics = absurd (omega arith)
  get_elem?-in_range (l ∷ ls) zero h panics = cc
  get_elem?-in_range (l ∷ ls) (suc index) h panics =
      get_elem?-in_range ls index (omega arith) panics

  get_or_add_listener_in_range :
      (c : Client E PacketId) (a : SocketAddr) (now index : ℕ)
      → (get_or_add_listener c a now).0 ≡ ok index
      → index < length (get_or_add_listener c a now).1.listeners
  unfolding get_or_add_listener
  get_or_add_listener_in_range c a now index h = elim (Option-cases (position a c.listeners)) [
    | inr (i, k) ↦ ground (arith, h, k, position_in_range a c.listeners i k)
    | inl k ↦
        elim (Result-split (pending_version_query {E = E} {PacketId = PacketId} c.socket a now).0) [
          | inl (e, r) ↦ absurd (ground (arith, h, k, r))
          | inr (state, r) ↦ ground (
            arith,
            h,
            k,
            r,
            length-append c.listeners ((record { server_addr = a; state = state }) ∷ []),
          )
        ]
  ]

  listen_total : (c : Client E PacketId) (a : SocketAddr) (now : ℕ) → ¬ (listen c a now ≡ none)
  unfolding listen
  listen_total c a now panics = elim (Result-split (get_or_add_listener c a now).0) [
    | inl (e, k) ↦ ground (arith, panics, k)
    | inr (index, k) ↦ ground (
      arith,
      panics,
      k,
      get_elem?-in_range (get_or_add_listener c a now).1.listeners index
          (get_or_add_listener_in_range c a now index k),
    )
  ]

module _ {E PacketId : Type 0} ⦃o : Ord PacketId⦄ ⦃u : Uuid PacketId⦄ (writes : List (List ℕ))
    (sized : length (flat writes) ≤ 491 * 2 ^ 32) where
  send_to_listener_total :
      (c : Client E PacketId) (index : ℕ) (id : PacketId) (now : ℕ)
      → index < length c.listeners
      → ¬ (send_to_listener c index id writes now ≡ none)
  unfolding send_to_listener
  send_to_listener_total c index id now h panics =
      elim (Option-cases (get_elem? c.listeners index)) [
        | inl k ↦ get_elem?-in_range c.listeners index h k
        | inr (l, k) ↦ elim (ServerState-cases l.state) [
          | inl (v, x) ↦ ground (arith, panics, k, x)
          | inr (inr (e, x)) ↦ ground (arith, panics, k, x)
          | inr (inl (b, last, x)) ↦
              let s : NonBlockingUdpSocket = record { socket = c.socket; addr = l.server_addr } in
              let threshold = c.config.connection.background_serialization_threshold in
              elim (Option-cases (Buffers.send b id writes threshold s now)) [
                | inl y ↦ send_total b id writes threshold s now sized y
                | inr ((err e, y, z), r) ↦ ground (arith, panics, k, x, r)
                | inr ((ok e, y, z), r) ↦ ground (arith, panics, k, x, r)
              ]
        ]
      ]

  query_total :
      (c : Client E PacketId) (a : SocketAddr) (id : PacketId) (now : ℕ)
      → ¬ (query c a id writes now ≡ none)
  unfolding query
  query_total c a id now panics = elim (Result-split (get_or_add_listener c a now).0) [
    | inl (e, k) ↦ ground (arith, panics, k)
    | inr (index, k) ↦
        send_to_listener_total (get_or_add_listener c a now).1 index id now
          (get_or_add_listener_in_range c a now index k) (ground (arith, panics, k))
  ]

  connect_total :
      (c : Client E PacketId) (peer : Result IoError SocketAddr) (id : PacketId) (now : ℕ)
      → ¬ (connect c peer id writes now ≡ none)
  unfolding connect
  connect_total c (err e) id now panics = ground (arith, panics)
  connect_total c (ok a) id now panics = elim (Option-cases (query c a id writes now)) [
    | inl k ↦ query_total c a id now k
    | inr ((err e, x), k) ↦ ground (arith, panics, k)
    | inr ((ok e, x), k) ↦ ground (arith, panics, k)
  ]

  -- Whatever state the client is in, `listen`, and `query` and `connect` with a packet of at most 2^32
  -- parts, do not panic: the index that they look the listener up by is in range.
  pub requests_total :
      (c : Client E PacketId) (a : SocketAddr) (peer : Result IoError SocketAddr) (id : PacketId)
      (now : ℕ)
      → (¬ (listen c a now ≡ none))
        × (¬ (query c a id writes now ≡ none))
        × (¬ (connect c peer id writes now ≡ none))
  requests_total c a peer id now =
      (listen_total c a now, query_total c a id now, connect_total c peer id now)

module _ {P : Packets} {PacketId : Type 0} ⦃o : Ord PacketId⦄ ⦃u : Uuid PacketId⦄ (rkyv : Rkyv P)
    (handler : ClientHandler P PacketId) where
  handle_compatible-Late :
      (c : Client P.CompatibilityError PacketId) (index : ℕ)
      (l : ServerListener P.CompatibilityError PacketId) (b : PacketBuffers PacketId) (buf : List ℕ)
      (now : ℕ)
      → handle_compatible rkyv handler c index l b buf now ≡ none
      → Late b.receive_buffer buf
  unfolding handle_compatible
  handle_compatible-Late c index l b buf now h =
      elim (Option-cases (handle_buffers rkyv.check_server b buf c.socket l.server_addr now)) [
        | inl e ↦ handle_buffers-Late rkyv.check_server b buf c.socket l.server_addr now e
        | inr (((none, reports), buffers, socket), e) ↦ absurd (ground (arith, h, e))
        | inr (((some whole, reports), buffers, socket), e) ↦ absurd (ground (arith, h, e))
      ]

  -- A datagram makes the client panic only if its sender is a compatible listener and the datagram is
  -- a part of a packet that the client is reassembling for that listener, and its index is below that
  -- packet's first pending one, or the chunks at that packet's front or those that it has counted are
  -- too many for a `u32`.
  pub client_panics-Late :
      (log : List (Call P PacketId)) (c : Client P.CompatibilityError PacketId) (a : SocketAddr)
      (buf : List ℕ) (now : ℕ)
      → handle_datagram rkyv handler log c a buf now ≡ none
      → (index : ℕ) × (l : ServerListener P.CompatibilityError PacketId) × (b : PacketBuffers
          PacketId)
        × (last : ℕ) × (position a c.listeners ≡ some index)
        × (get_elem? c.listeners index ≡ some l)
        × (l.state ≡ ServerState.compatible b last)
        × Late b.receive_buffer buf
  unfolding handle_datagram
  client_panics-Late log c a buf now h = elim (Option-cases (position a c.listeners)) [
    | inl k ↦ absurd (ground (arith, h, k))
    | inr (index, k) ↦ elim (Option-cases (get_elem? c.listeners index)) [
      | inl e ↦
          absurd (get_elem?-in_range c.listeners index (position_in_range a c.listeners index k) e)
      | inr (l, e) ↦ elim (ServerState-cases l.state) [
        | inl (v, x) ↦ absurd (ground (arith, h, k, e, x))
        | inr (inr (y, x)) ↦ absurd (ground (arith, h, k, e, x))
        | inr (inl (b, last, x)) ↦
            elim (Bool-cases (index == 0 && not (is_disconnected c.state) && is_ping buf)) [
              | inl p ↦ absurd (ground (arith, h, k, e, x, p))
              | inr p ↦ (
                index,
                l,
                b,
                last,
                k,
                e,
                x,
                handle_compatible-Late c index l b buf now (ground (arith, h, k, e, x, p)),
              )
            ]
      ]
    ]
  ]
