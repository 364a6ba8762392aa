-- ===== src/Client/Ends.antt =====
-- The datagrams that have come in, and the loop of `update` of src/net/client.rs over them.
use packet_test.Common.{
  ℕ, zero, suc, ◌≡◌, ◌<◌, refl, arith, List, [], ◌∷◌, ◌++◌, Option, none, some, get_elem?, length,
  Option-cases, inl, inr,
}
use packet_test.Common.Dict.{Ord}
use packet_test.Socket
use packet_test.Socket.{SocketAddr, UdpSocket, recv, recv_takes}
use packet_test.Handler.Buffers.Arrivals.{handle_buffers_arrivals}
use packet_test.Packet.Kind.{Uuid}
use packet_test.Packet.Packets.{Packets, Rkyv}
use packet_test.Packet.Serialize.{Panicking}
use packet_test.Packet.Buffers.{PacketBuffers}
use packet_test.Client.{ServerListener, Client, position, ServerState-cases}
use packet_test.Client.Receive.{
  Call, ClientHandler, recv_error, handle_ping, handle_version, handle_compatible, handle_datagram,
  handle_datagrams,
}

-- The datagrams that have come in are those of `s`, if the operation does not panic.
abbrev LeavesClient : {A E PacketId : Type 0} → UdpSocket → Option (A × Client E PacketId) → Type 0
LeavesClient s none = Unit
LeavesClient s (some (a, c')) = c'.socket.arrivals ≡ s.arrivals

module _ {P : Packets} {PacketId : Type 0} ⦃o : Ord PacketId⦄ ⦃u : Uuid PacketId⦄ (rkyv : Rkyv P)
    (handler : ClientHandler P PacketId) where
  handle_version_arrivals :
      (log : List (Call P PacketId)) (c : Client P.CompatibilityError PacketId) (index : ℕ)
      (l : ServerListener P.CompatibilityError PacketId) (buf : List ℕ) (now : ℕ)
      → (handle_version rkyv handler log c index l buf now).1.socket.arrivals ≡ c.socket.arrivals
  unfolding handle_version
  handle_version_arrivals log c index l [] now = refl
  handle_version_arrivals log c index l (kind ∷ rest) now = ground arith

  handle_compatible_arrivals :
      (c : Client P.CompatibilityError PacketId) (index : ℕ)
      (l : ServerListener P.CompatibilityError PacketId) (b : PacketBuffers PacketId) (buf : List ℕ)
      (now : ℕ)
      → LeavesClient c.socket (handle_compatible rkyv handler c index l b buf now)
  unfolding handle_compatible
  handle_compatible_arrivals c index l b buf now =
      ground (arith, handle_buffers_arrivals rkyv.check_server b buf c.socket l.server_addr now)

  handle_datagram_arrivals :
      (log : List (Call P PacketId)) (c : Client P.CompatibilityError PacketId) (addr : SocketAddr)
      (buf : List ℕ) (now : ℕ)
      → LeavesClient c.socket (handle_datagram rkyv handler log c addr buf now)
  unfolding handle_datagram handle_ping Socket.send
  handle_datagram_arrivals log c addr buf now = elim (Option-cases (position addr c.listeners)) [
    | inl h ↦ ground (arith, h)
    | inr (index, h) ↦ elim (Option-cases (get_elem? c.listeners index)) [
      | inl k ↦ ground (arith, h, k)
      | inr (l, k) ↦ elim (ServerState-cases l.state) [
        | inl (v, e) ↦ ground (arith, h, k, e, handle_version_arrivals log c index l buf now)
        | inr (inl (b, last, e)) ↦
            ground (arith, h, k, e, handle_compatible_arrivals c index l b buf now)
        | inr (inr (r, e)) ↦ ground (arith, h, k, e)
      ]
    ]
  ]

  -- With more fuel than datagrams have come in, the loop over them comes to an end, by a result or
  -- by a panic.
  pub handle_datagrams_ends :
      (fuel : ℕ) (log : List (Call P PacketId)) (c : Client P.CompatibilityError PacketId) (now : ℕ)
      → length c.socket.arrivals < fuel
      → (r : Panicking (List (Call P PacketId) × Client P.CompatibilityError PacketId))
        × (handle_datagrams rkyv handler fuel log c now ≡ some r)
  unfolding handle_datagrams
  handle_datagrams_ends zero log c now h = absurd (omega arith)
  handle_datagrams_ends (suc fuel) log c now h = elim (Option-cases (recv c.socket).0) [
    | inl k ↦ (
      some (log ++ recv_error (recv c.socket).1, record c { socket = (recv c.socket).2 }),
      ground (arith, k),
    )
    | inr ((addr, buf), k) ↦
        elim (Option-cases (
          handle_datagram rkyv handler log (record c { socket = (recv c.socket).2 }) addr buf
            now)) [
              | inl e ↦ (none, ground (arith, k, e))
              | inr ((calls, c'), e) ↦
                  let (r, ends) = handle_datagrams_ends fuel (log ++ calls) c' now (
                    ground (
                      arith,
                      h,
                      e,
                      recv_takes c.socket (addr, buf) k,
                      handle_datagram_arrivals log (record c { socket = (recv c.socket).2 }) addr
                          buf now,
                    )) in
                  (r, ground (arith, k, e, ends))
            ]
  ]
