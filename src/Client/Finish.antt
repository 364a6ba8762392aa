-- ===== src/Client/Finish.antt =====
-- The end of `update` of src/net/client.rs: the datagrams that have come in, under resending.
use packet_test.Common.{
  ℕ, ◌≡◌, ◌<◌, refl, ◌∙◌, arith, List, [], ◌∷◌, ◌++◌, map, Option, none, some, length, Option-cases,
  inl, inr, if◌then◌else◌,
}
use packet_test.Common.Dict.{Ord}
use packet_test.Config.{ClientConfig}
use packet_test.Socket
use packet_test.Socket.{UdpSocket}
use packet_test.Packet.Kind.{Uuid}
use packet_test.Packet.Packets.{Packets, Rkyv}
use packet_test.Packet.Serialize.{Panicking}
use packet_test.Packet.Arrivals.Resending.{buffers_update_arrivals}
use packet_test.Client.{
  ClientState, ServerListener, Client, is_disconnected, send_version_query, ServerState-cases,
}
use packet_test.Client.Update.{
  update_query, update_listener, update_each, update_listeners, timeout_connection,
}
use packet_test.Client.Receive.{Call, ClientHandler, error, update}
use packet_test.Client.Ends.{handle_datagrams_ends}

module _ {E PacketId : Type 0} where
  update_query_arrivals :
      (l : ServerListener E PacketId) (last : Option ℕ) (s : UdpSocket) (config : ClientConfig)
      (now : ℕ)
      → (update_query l last s config now).2.arrivals ≡ s.arrivals
  unfolding update_query send_version_query Socket.send
  update_query_arrivals l none s config now = refl
  update_query_arrivals l (some last) s config now = ground arith

module _ {E PacketId : Type 0} ⦃o : Ord PacketId⦄ ⦃u : Uuid PacketId⦄ where
  update_listener_arrivals :
      (l : ServerListener E PacketId) (s : UdpSocket) (state : Option ClientState)
      (config : ClientConfig) (now : ℕ)
      → (update_listener l s state config now).3.arrivals ≡ s.arrivals
  unfolding update_listener
  update_listener_arrivals l s state config now = elim (ServerState-cases l.state) [
    | inl (v, x) ↦ ground (arith, x, update_query_arrivals l v s config now)
    | inr (inl (b, last, x)) ↦ ground (
      arith,
      x,
      buffers_update_arrivals b config.connection.resend_delay config.connection.max_missed_acks
          config.connection.receive_timeout (record { socket = s; addr = l.server_addr }) now,
    )
    | inr (inr (r, x)) ↦ ground (arith, x)
  ]

  update_each_arrivals :
      (ls : List (ServerListener E PacketId)) (s : UdpSocket) (state : Option ClientState)
      (config : ClientConfig) (now : ℕ)
      → (update_each ls s state config now).3.arrivals ≡ s.arrivals
  unfolding update_each
  update_each_arrivals [] s state config now = refl
  update_each_arrivals (l ∷ ls) s state config now =
      update_each_arrivals ls (update_listener l s state config now).3 none config now
      ∙ update_listener_arrivals l s state config now

  update_listeners_arrivals :
      (c : Client E PacketId) (now : ℕ)
      → (update_listeners c now).1.socket.arrivals ≡ c.socket.arrivals
  unfolding update_listeners
  update_listeners_arrivals c now =
      update_each_arrivals c.listeners c.socket
        (if is_disconnected c.state then none else some c.state) c.config now

module _ {P : Packets} {PacketId : Type 0} ⦃o : Ord PacketId⦄ ⦃u : Uuid PacketId⦄ (rkyv : Rkyv P)
    (handler : ClientHandler P PacketId) where
  -- With more fuel than datagrams have come in, a whole `update` of the client comes to an end, by a
  -- result or by a panic.
  client_update_ends :
      (fuel : ℕ) (log : List (Call P PacketId)) (c : Client P.CompatibilityError PacketId) (now : ℕ)
      → length c.socket.arrivals < fuel
      → (r : Panicking (List (Call P PacketId) × Client P.CompatibilityError PacketId)) × (update
            rkyv handler fuel log c now
          ≡ some r)
  unfolding update
  client_update_ends fuel log c now h =
      let (r, e) =
        handle_datagrams_ends rkyv handler fuel (log ++ map error (update_listeners c now).0)
          (update_listeners c now).1 now (ground (arith, h, update_listeners_arrivals c now)) in
      elim (Option-cases r) [
        | inl k ↦ (none, ground (arith, e, k))
        | inr ((log', c'), k) ↦ (
          some (log' ++ map error (timeout_connection c' now).0, (timeout_connection c' now).1),
          ground (arith, e, k),
        )
      ]
