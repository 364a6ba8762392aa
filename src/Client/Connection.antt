-- ===== src/Client/Connection.antt =====
-- The packets that the user of src/net/client.rs sends: `query`, `connect`, `disconnect` and `send`. What
-- a packet is written as by rkyv comes as `writes`, and `id` is its id. A panic is `none`.
use packet_test.Common.{ℕ, List, none, some, Result, ok, err, true, false, get_elem?, set}
use packet_test.Common.Dict.{Ord}
use packet_test.Socket.{SocketAddr, IoError}
use packet_test.Packet.Kind.{Uuid}
use packet_test.Packet.Serialize.{Panicking}
use packet_test.Packet.Buffers
use packet_test.Packet.Buffers.{PacketBuffers}
use packet_test.Client.{
  ClientState, ServerState, Client, CompatibilityError, QueryError, ConnectError, SendError,
  is_disconnected, swap_remove, connecting, connected, disconnecting, disconnected,
}
use packet_test.Client.Requests.{get_or_add_listener, with_state}

abbrev pub connect_error : QueryError → ConnectError
connect_error (QueryError.compatibility_error e) = ConnectError.compatibility_error e
connect_error (QueryError.io e) = ConnectError.io e

module _ {E PacketId : Type 0} ⦃o : Ord PacketId⦄ ⦃u : Uuid PacketId⦄ where
  -- The `match` of `query` and `connect` on the listener at `index`.
  unfoldable pub send_to_listener :
      Client E PacketId
      → ℕ
      → PacketId
      → List (List ℕ)
      → ℕ
      → Panicking (Result QueryError PacketId × Client E PacketId)
  send_to_listener c index id writes now = elim (get_elem? c.listeners index) [
    | none ↦ none
    | some l ↦ elim l.state [
      | ServerState.pending_version last_version_query ↦
          some (err (QueryError.compatibility_error CompatibilityError.compatibility_pending), c)
      | ServerState.incompatible e ↦
          some (err (QueryError.compatibility_error CompatibilityError.incompatible), c)
      | ServerState.compatible buffers last_interaction ↦
          elim (Buffers.send buffers id writes
            c.config.connection.background_serialization_threshold
            (record { socket = c.socket; addr = l.server_addr }) now) [
              | none ↦ none
              | some (err e, buffers', socket') ↦ some (
                err (QueryError.io e),
                with_state c index l (ServerState.compatible buffers' last_interaction)
                    socket'.socket,
              )
              | some (ok sent_id, buffers', socket') ↦ some (
                ok sent_id,
                with_state c index l (ServerState.compatible buffers' last_interaction)
                    socket'.socket,
              )
            ]
    ]
  ]

  unfoldable pub query :
      Client E PacketId
      → SocketAddr
      → PacketId
      → List (List ℕ)
      → ℕ
      → Panicking (Result QueryError PacketId × Client E PacketId)
  query c server_addr id writes now =
      let (r, c') = get_or_add_listener c server_addr now in
      elim r [
        | err e ↦ some (err (QueryError.io e), c')
        | ok index ↦ send_to_listener c' index id writes now
      ]

  -- `connect`: `peer` is the address that `UdpSocket::connect` and `peer_addr` come to.
  unfoldable pub connect :
      Client E PacketId
      → Result IoError SocketAddr
      → PacketId
      → List (List ℕ)
      → ℕ
      → Panicking (Result ConnectError PacketId × Client E PacketId)
  connect c peer id writes now = elim (is_disconnected c.state) [
    | false ↦ some (err ConnectError.not_disconnected, c)
    | true ↦ elim peer [
      | err e ↦ some (err (ConnectError.io e), c)
      | ok server_addr ↦ elim (query c server_addr id writes now) [
        | none ↦ none
        | some (err e, c') ↦ some (err (connect_error e), c')
        | some (ok sent_id, c') ↦ some (ok sent_id, record c' { state = connecting })
      ]
    ]
  ]

  -- `disconnect` and `send`, which differ in the state that they lead to; `none` is their `panic!`
  -- and the index 0 of an empty vector.
  unfoldable pub send_connected :
      Client E PacketId
      → ClientState
      → PacketId
      → List (List ℕ)
      → ℕ
      → Panicking (Result SendError PacketId × Client E PacketId)
  send_connected c next id writes now = elim (get_elem? c.listeners 0) [
    | none ↦ none
    | some l ↦ elim l.state [
      | ServerState.pending_version last_version_query ↦ none
      | ServerState.incompatible e ↦ none
      | ServerState.compatible buffers last_interaction ↦
          elim (Buffers.send buffers id writes
            c.config.connection.background_serialization_threshold
            (record { socket = c.socket; addr = l.server_addr }) now) [
              | none ↦ none
              | some (err e, buffers', socket') ↦ some (
                err (SendError.io e),
                record c {
                  listeners = swap_remove c.listeners 0;
                  socket = socket'.socket;
                  state = disconnected;
                },
              )
              | some (ok sent_id, buffers', socket') ↦ some (
                ok sent_id,
                record c {
                  listeners =
                      set c.listeners 0
                        (record l { state = ServerState.compatible buffers' last_interaction });
                  socket = socket'.socket;
                  state = next;
                },
              )
            ]
    ]
  ]

  unfoldable pub disconnect :
      Client E PacketId
      → PacketId
      → List (List ℕ)
      → ℕ
      → Panicking (Result SendError PacketId × Client E PacketId)
  disconnect c id writes now = elim c.state [
    | ClientState.connected ↦ send_connected c disconnecting id writes now
    | _ ↦ some (err SendError.not_connected, c)
  ]

  unfoldable pub send :
      Client E PacketId
      → PacketId
      → List (List ℕ)
      → ℕ
      → Panicking (Result SendError PacketId × Client E PacketId)
  send c id writes now = elim c.state [
    | ClientState.connected ↦ send_connected c connected id writes now
    | _ ↦ some (err SendError.not_connected, c)
  ]
