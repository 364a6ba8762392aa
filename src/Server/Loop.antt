-- ===== src/Server/Loop.antt =====
-- `handle_packets` and `update` of src/net/server.rs. The log holds the handler's calls so far. What is
-- given an id gets `fresh` of the round of the loop, and a ping that of its slot by `fresh_ping`.
use packet_test.Common.{
  ℕ, zero, suc, List, [], ◌∷◌, ◌++◌, map, Option, none, some, Bool, true, false, if◌then◌else◌,
}
use packet_test.Common.Dict.{Ord, nat_ord, get}
use packet_test.Socket.{SocketAddr, IoError, recv}
use packet_test.Handler.{HandlerError, error}
use packet_test.Handler.Buffers.{handle_buffers}
use packet_test.Packet.Kind.{PacketKind, Uuid, from_byte}
use packet_test.Packet.Packets.{Packets, Rkyv}
use packet_test.Packet.Serialize.{Panicking, Fueled}
use packet_test.Packet.Buffers.{PacketBuffers}
use packet_test.Server.{
  ClientConnection, Server, report, unexpected, unknown_compatibility, client, accept_client,
  disconnect_client, is_some,
}
use packet_test.Server.Update.{handle_version_request, send_pings, update_buffers}
use packet_test.Server.Handle.{
  Call, event, version, ServerHandler, reported, with_client, with_listener, handle_pong,
  handle_client_packet, handle_listener_packet,
}

abbrev pub is_ping : ℕ → Bool
is_ping kind = elim (from_byte kind) [ some PacketKind.ping ↦ true | _ ↦ false ]

module _ {P : Packets} {PacketId : Type 0} where
  -- The end of the branch for a client: it is disconnected, or stays.
  unfoldable pub settle_client :
      Server PacketId
      → SocketAddr
      → Bool
      → List (Call P PacketId)
      → Panicking (List (Call P PacketId) × Server PacketId)
  settle_client s addr false calls = some (calls, s)
  settle_client s addr true calls = elim (disconnect_client s addr) [
    | none ↦ none
    | some s' ↦ some (calls, s')
  ]

  -- The end of the branch for a listener: it becomes a client, or stays.
  unfoldable pub settle_listener :
      Server PacketId
      → SocketAddr
      → Bool
      → List (Call P PacketId)
      → Panicking (List (Call P PacketId) × Server PacketId)
  settle_listener s addr false calls = some (calls, s)
  settle_listener s addr true calls = elim (accept_client s addr) [
    | none ↦ none
    | some s' ↦ some (calls, s')
  ]

  abbrev pub recv_error : Option IoError → List (Call P PacketId)
  recv_error none = []
  recv_error (some e) = event (report (error (HandlerError.recv e))) ∷ []

module _ {P : Packets} {PacketId : Type 0} ⦃o : Ord PacketId⦄ ⦃u : Uuid PacketId⦄ (rkyv : Rkyv P)
    (handler : ServerHandler P PacketId) where
  -- The branch for a client, where its datagram is no ping.
  unfoldable pub handle_client :
      List (Call P PacketId)
      → Server PacketId
      → PacketId
      → ClientConnection PacketId
      → List ℕ
      → ℕ
      → Panicking (List (Call P PacketId) × Server PacketId)
  handle_client log s id c buf now =
      elim (handle_buffers rkyv.check_client c.buffers buf s.socket c.client_addr now) [
        | none ↦ none
        | some ((none, reports), buffers, socket) ↦
            some (reported reports, with_client s (record c { buffers = buffers }) socket)
        | some ((some packet, reports), buffers, socket) ↦
            elim (handle_client_packet rkyv handler s.config (log ++ reported reports) id
              c.client_addr packet buffers socket now) [
                | none ↦ none
                | some (disconnect, calls, buffers', socket') ↦
                    settle_client (with_client s (record c { buffers = buffers' }) socket')
                      c.client_addr disconnect (reported reports ++ calls)
              ]
      ]

  unfoldable pub handle_listener :
      List (Call P PacketId)
      → Server PacketId
      → PacketId
      → SocketAddr
      → PacketBuffers PacketId
      → List ℕ
      → ℕ
      → Panicking (List (Call P PacketId) × Server PacketId)
  handle_listener log s id addr buffers₀ buf now =
      elim (handle_buffers rkyv.check_client buffers₀ buf s.socket addr now) [
        | none ↦ none
        | some ((none, reports), buffers, socket) ↦
            some (reported reports, with_listener s addr buffers socket)
        | some ((some packet, reports), buffers, socket) ↦
            elim (handle_listener_packet rkyv handler s.config (log ++ reported reports) id addr
              packet buffers socket now) [
                | none ↦ none
                | some (accepted, calls, buffers', socket') ↦
                    settle_listener (with_listener s addr buffers' socket') addr accepted
                      (reported reports ++ calls)
              ]
      ]

  -- The body of the loop, for a datagram of `addr`.
  unfoldable pub handle_datagram :
      List (Call P PacketId)
      → Server PacketId
      → PacketId
      → SocketAddr
      → List ℕ
      → ℕ
      → Panicking (List (Call P PacketId) × Server PacketId)
  handle_datagram log s id addr [] now =
      elim (handle_version_request s (P.write_version (handler.version log)) addr
        (is_some (get addr s.listeners))) [
          | none ↦ none
          | some (events, s') ↦ some (version ∷ map event events, s')
        ]
  handle_datagram log s id addr (kind ∷ rest) now = elim (client addr s.clients) [
    | some c ↦
        if is_ping kind
        then (let (events, s') = handle_pong s c rest now in some (map event events, s'))
        else handle_client log s id c (kind ∷ rest) now
    | none ↦ elim (get addr s.listeners) [
      | some buffers ↦ handle_listener log s id addr buffers (kind ∷ rest) now
      | none ↦ some (event (unexpected addr unknown_compatibility) ∷ [], s)
    ]
  ]

  unfoldable pub handle_packets :
      ℕ
      → ℕ
      → List (Call P PacketId)
      → Server PacketId
      → (ℕ → PacketId)
      → ℕ
      → Fueled (List (Call P PacketId) × Server PacketId)
  handle_packets zero round log s fresh now = none
  handle_packets (suc fuel) round log s fresh now =
      let (received, failed, socket') = recv s.socket in
      elim received [
        | none ↦ some (some (log ++ recv_error failed, record s { socket = socket' }))
        | some (addr, buf) ↦
            elim (handle_datagram log (record s { socket = socket' }) (fresh round) addr buf now) [
              | none ↦ some none
              | some (calls, s') ↦ handle_packets fuel (suc round) (log ++ calls) s' fresh now
            ]
      ]

  -- `update`.
  unfoldable pub update :
      ℕ
      → List (Call P PacketId)
      → Server PacketId
      → (ℕ → PacketId)
      → (ℕ → PacketId)
      → ℕ
      → Fueled (List (Call P PacketId) × Server PacketId)
  update fuel log s fresh fresh_ping now =
      let (events, s₁) = update_buffers s now in
      elim (handle_packets fuel 0 (log ++ map event events) s₁ fresh now) [
        | none ↦ none
        | some none ↦ some none
        | some (some (log', s₂)) ↦
            let (pings, s₃) = send_pings s₂ fresh_ping now in
            some (some (log' ++ map event pings, s₃))
      ]
