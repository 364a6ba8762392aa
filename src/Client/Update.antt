-- ===== src/Client/Update.antt =====
-- What `update` of src/net/client.rs does to the listeners by itself: resending and timeouts.
use packet_test.Common.{
  ℕ, List, [], ◌∷◌, ◌++◌, Option, none, some, ok, err, Bool, true, false, leb, ltb, if◌then◌else◌,
}
use packet_test.Common.Dict.{Ord}
use packet_test.Config.{ClientConfig}
use packet_test.Socket.{UdpSocket}
use packet_test.Handler.{HandlerError}
use packet_test.Packet.Kind.{Uuid}
use packet_test.Packet.Out.{elapsed}
use packet_test.Packet.Buffers
use packet_test.Packet.Buffers.{PacketBuffers}
use packet_test.Client.{
  ClientState, ServerState, ServerListener, Client, is_disconnected, send_version_query,
  disconnected,
}

abbrev pub kept_before : {A : Type 0} → Option A → List A → List A
kept_before none ls = ls
kept_before (some l) ls = l ∷ ls

module _ {E PacketId : Type 0} where
  -- A pending version query that is due again; `none` says that the listener is dropped.
  unfoldable pub update_query :
      ServerListener E PacketId
      → Option ℕ
      → UdpSocket
      → ClientConfig
      → ℕ
      → List (HandlerError PacketId) × Option (ServerListener E PacketId) × UdpSocket
  update_query l none socket config now = ([], some l, socket)
  update_query l (some last) socket config now =
      let (r, socket') = send_version_query socket l.server_addr in
      if leb config.connection.resend_delay (elapsed now last)
      then elim r [
        | err e ↦ (HandlerError.send l.server_addr e ∷ [], none, socket'.socket)
        | ok sent ↦ (
          [],
          some (if sent then record l { state = ServerState.pending_version (some now) } else l),
          socket'.socket,
        )
      ]
      else ([], some l, socket)

module _ {E PacketId : Type 0} ⦃o : Ord PacketId⦄ ⦃u : Uuid PacketId⦄ where
  -- `ServerListener::update`; `state` is that of the client, where the listener is its connection.
  unfoldable pub update_listener :
      ServerListener E PacketId
      → UdpSocket
      → Option ClientState
      → ClientConfig
      → ℕ
      → List (HandlerError PacketId)
        × Option (ServerListener E PacketId)
        × Option ClientState
        × UdpSocket
  update_listener l socket state config now = elim l.state [
    | ServerState.pending_version last_version_query ↦
        let (errors, kept, socket') = update_query l last_version_query socket config now in
        (errors, kept, state, socket')
    | ServerState.incompatible e ↦ ([], some l, state, socket)
    | ServerState.compatible buffers last_interaction ↦
        let (r, buffers', socket') =
          Buffers.update buffers config.connection.resend_delay config.connection.max_missed_acks
            config.connection.receive_timeout (record { socket = socket; addr = l.server_addr })
            now in
        elim r [
          | err e ↦ (
            HandlerError.send l.server_addr e ∷ [],
            none,
            elim state [ none ↦ none | some _ ↦ some disconnected ],
            socket'.socket,
          )
          | ok _ ↦ (
            [],
            some (record l { state = ServerState.compatible buffers' last_interaction }),
            state,
            socket'.socket,
          )
        ]
  ]

  -- The loop of `update` over the listeners: `state` goes to the first.
  unfoldable pub update_each :
      List (ServerListener E PacketId)
      → UdpSocket
      → Option ClientState
      → ClientConfig
      → ℕ
      → List (HandlerError PacketId)
        × List (ServerListener E PacketId)
        × Option ClientState
        × UdpSocket
  update_each [] socket state config now = ([], [], state, socket)
  update_each (l ∷ ls) socket state config now =
      let (errors, kept, state', socket') = update_listener l socket state config now in
      let (errors', ls', state'', socket'') = update_each ls socket' none config now in
      (errors ++ errors', kept_before kept ls', state', socket'')

  unfoldable pub update_listeners :
      Client E PacketId → ℕ → List (HandlerError PacketId) × Client E PacketId
  update_listeners c now =
      let slot : Option ClientState = if is_disconnected c.state then none else some c.state in
      let (errors, listeners', slot', socket') =
        update_each c.listeners c.socket slot c.config now in
      (
        errors,
        record c {
          listeners = listeners';
          state = elim slot' [ none ↦ c.state | some state ↦ state ];
          socket = socket';
        },
      )

module _ {E PacketId : Type 0} where
  unfoldable pub is_expired : Option ℕ → ℕ → ServerState E PacketId → Bool
  is_expired none now state = false
  is_expired (some timeout) now (ServerState.compatible buffers last_interaction) =
      ltb timeout (elapsed now last_interaction)
  is_expired (some timeout) now _ = false

  -- The loop of `timeout_connection`: the errors, what is kept, and whether anything expired.
  unfoldable pub timeout_each :
      Option ℕ
      → ℕ
      → List (ServerListener E PacketId)
      → List (HandlerError PacketId) × List (ServerListener E PacketId) × Bool
  timeout_each timeout now [] = ([], [], false)
  timeout_each timeout now (l ∷ ls) =
      let (errors, kept, any) = timeout_each timeout now ls in
      if is_expired timeout now l.state
      then (HandlerError.timeout l.server_addr ∷ errors, kept, true)
      else (errors, l ∷ kept, any)

  unfoldable pub timeout_connection :
      Client E PacketId → ℕ → List (HandlerError PacketId) × Client E PacketId
  timeout_connection c now =
      let (errors, kept, any) = timeout_each c.config.timeout now c.listeners in
      (errors, record c { listeners = kept; state = if any then disconnected else c.state })
