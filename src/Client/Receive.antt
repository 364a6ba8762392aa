-- ===== src/Client/Receive.antt =====
-- The loop of `update` in src/net/client.rs: the datagrams that come in. The log holds the handler's
-- calls so far.
use packet_test.Common.{
  ℕ, zero, suc, List, [], ◌∷◌, ◌++◌, map, Option, none, some, Result, ok, err, Bool, true, false,
  ◌&&◌, not, ◌==◌, if◌then◌else◌, get_elem?,
}
use packet_test.Common.Dict.{Ord}
use packet_test.Socket
use packet_test.Socket.{SocketAddr, UdpSocket, IoError, recv}
use packet_test.Handler.{HandlerError, Report}
use packet_test.Handler.Buffers.{handle_buffers}
use packet_test.Packet.Kind.{PacketKind, Uuid, from_byte}
use packet_test.Packet.Packets.{Packets, ServerConnectionPacket, Rkyv}
use packet_test.Packet.Serialize.{Panicking, Fueled}
use packet_test.Packet.Buffers
use packet_test.Packet.Buffers.{PacketBuffers}
use packet_test.Client.{
  ClientState, ServerState, ServerListener, Client, is_disconnected, position, connected,
  disconnected,
}
use packet_test.Client.Requests.{with_state}
use packet_test.Client.Update.{update_listeners, timeout_connection}

pub data UnexpectedServerPacket : Type 0 where
  unknown_server not_connected incompatible empty_packet pending_compatibility malformed_version :
      UnexpectedServerPacket

-- The calls of the handler.
pub data Call (P : Packets) (PacketId : Type 0) : Type 0 where
  report : Report PacketId → Call P PacketId
  unexpected : SocketAddr → UnexpectedServerPacket → Call P PacketId
  compatibility : P.Version → Call P PacketId
  status : SocketAddr → P.Status → Call P PacketId
  accept : P.Accept → Call P PacketId
  reject : P.Reject → Call P PacketId
  kick : P.Kick → Call P PacketId
  packet : P.Server → Call P PacketId
  ping : Call P PacketId

-- What the user's handler answers, by the calls that it has got before.
pub record ClientHandler (P : Packets) (PacketId : Type 0) : Type 0 where
  pub compatibility : List (Call P PacketId) → P.Version → Result P.CompatibilityError (Unit {0})

-- `DefaultConnectionHandler`, with the default body of `compatibility`.
unfoldable pub default_handler : {P : Packets} {PacketId : Type 0} → ClientHandler P PacketId
default_handler = record { compatibility = λ log version. ok tt }

abbrev pub error : {P : Packets} {PacketId : Type 0} → HandlerError PacketId → Call P PacketId
error e = report (Report.error e)

abbrev pub is_connecting : ClientState → Bool
is_connecting ClientState.connecting = true
is_connecting _ = false

abbrev pub is_connected : ClientState → Bool
is_connected ClientState.connected = true
is_connected _ = false

abbrev pub is_ping : List ℕ → Bool
is_ping [] = false
is_ping (kind ∷ rest) = elim (from_byte kind) [ some PacketKind.ping ↦ true | _ ↦ false ]

abbrev pub recv_error : {P : Packets} {PacketId : Type 0} → Option IoError → List (Call P PacketId)
recv_error none = []
recv_error (some e) = error (HandlerError.recv e) ∷ []

module _ {P : Packets} {PacketId : Type 0} where
  -- A packet of the server: the call and the state after it. `connection` says that the server is the
  -- one of the connection.
  unfoldable pub handle_packet :
      Bool → ClientState → SocketAddr → ServerConnectionPacket P → Call P PacketId × ClientState
  handle_packet connection state addr (ServerConnectionPacket.status s) = (status addr s, state)
  handle_packet connection state addr (ServerConnectionPacket.accept a) =
      if connection && is_connecting state
      then (accept a, connected)
      else (unexpected addr not_connected, state)
  handle_packet connection state addr (ServerConnectionPacket.reject r) =
      if connection && is_connecting state
      then (reject r, disconnected)
      else (unexpected addr not_connected, state)
  handle_packet connection state addr (ServerConnectionPacket.kick k) =
      if connection && is_connected state
      then (kick k, disconnected)
      else (unexpected addr not_connected, state)
  handle_packet connection state addr (ServerConnectionPacket.user x) =
      if connection && is_connected state
      then (packet x, state)
      else (unexpected addr not_connected, state)

  -- A ping of the connection's server, which is sent back.
  unfoldable pub handle_ping :
      Client P.CompatibilityError PacketId
      → SocketAddr
      → List ℕ
      → List (Call P PacketId) × Client P.CompatibilityError PacketId
  handle_ping c server_addr buf =
      let (r, socket') = Socket.send (record { socket = c.socket; addr = server_addr }) buf in
      let c' : Client P.CompatibilityError PacketId = record c { socket = socket'.socket } in
      elim r [
        | err e ↦ (
          ping ∷ error (HandlerError.send server_addr e) ∷ [],
          record c' { state = disconnected },
        )
        | ok sent ↦ (ping ∷ [], c')
      ]

module _ {P : Packets} {PacketId : Type 0} ⦃o : Ord PacketId⦄ ⦃u : Uuid PacketId⦄ (rkyv : Rkyv P)
    (handler : ClientHandler P PacketId) where
  -- The branch for `PendingVersion`.
  unfoldable pub handle_version :
      List (Call P PacketId)
      → Client P.CompatibilityError PacketId
      → ℕ
      → ServerListener P.CompatibilityError PacketId
      → List ℕ
      → ℕ
      → List (Call P PacketId) × Client P.CompatibilityError PacketId
  handle_version log c index l [] now = (unexpected l.server_addr empty_packet ∷ [], c)
  handle_version log c index l (kind ∷ rest) now = elim (from_byte kind) [
    | some PacketKind.version ↦ elim (P.read_version rest) [
      | none ↦ (unexpected l.server_addr malformed_version ∷ [], c)
      | some version ↦ elim (handler.compatibility log version) [
        | ok _ ↦ (
          compatibility version ∷ [],
          with_state c index l
              (ServerState.compatible (Buffers.new c.config.connection.initial_send_batch_size) now)
              c.socket,
        )
        | err e ↦
            (compatibility version ∷ [], with_state c index l (ServerState.incompatible e) c.socket)
      ]
    ]
    | _ ↦ (unexpected l.server_addr pending_compatibility ∷ [], c)
  ]

  -- The branch for `Compatible`, behind the ping.
  unfoldable pub handle_compatible :
      Client P.CompatibilityError PacketId
      → ℕ
      → ServerListener P.CompatibilityError PacketId
      → PacketBuffers PacketId
      → List ℕ
      → ℕ
      → Panicking (List (Call P PacketId) × Client P.CompatibilityError PacketId)
  handle_compatible c index l buffers₀ buf now =
      elim (handle_buffers rkyv.check_server buffers₀ buf c.socket l.server_addr now) [
        | none ↦ none
        | some ((none, reports), buffers, socket) ↦
            some
              (map report reports, with_state c index l (ServerState.compatible buffers now) socket)
        | some ((some whole, reports), buffers, socket) ↦
            let c' = with_state c index l (ServerState.compatible buffers now) socket in
            let (call, state') =
              handle_packet (index == 0 && not (is_disconnected c.state)) c.state l.server_addr
                whole in
            some (map report reports ++ (call ∷ []), record c' { state = state' })
      ]

  -- The body of the loop, for a datagram of `server_addr`.
  unfoldable pub handle_datagram :
      List (Call P PacketId)
      → Client P.CompatibilityError PacketId
      → SocketAddr
      → List ℕ
      → ℕ
      → Panicking (List (Call P PacketId) × Client P.CompatibilityError PacketId)
  handle_datagram log c server_addr buf now = elim (position server_addr c.listeners) [
    | none ↦ some (unexpected server_addr unknown_server ∷ [], c)
    | some index ↦ elim (get_elem? c.listeners index) [
      | none ↦ none
      | some l ↦ elim l.state [
        | ServerState.pending_version last_version_query ↦
            some (handle_version log c index l buf now)
        | ServerState.incompatible e ↦ some (unexpected server_addr incompatible ∷ [], c)
        | ServerState.compatible buffers last_interaction ↦
            let touched = with_state c index l (ServerState.compatible buffers now) c.socket in
            if index == 0 && not (is_disconnected c.state) && is_ping buf
            then some (handle_ping touched server_addr buf)
            else handle_compatible c index l buffers buf now
      ]
    ]
  ]

  unfoldable pub handle_datagrams :
      ℕ
      → List (Call P PacketId)
      → Client P.CompatibilityError PacketId
      → ℕ
      → Fueled (List (Call P PacketId) × Client P.CompatibilityError PacketId)
  handle_datagrams zero log c now = none
  handle_datagrams (suc fuel) log c now =
      let (received, failed, socket') = recv c.socket in
      elim received [
        | none ↦ some (some (log ++ recv_error failed, record c { socket = socket' }))
        | some (addr, buf) ↦
            elim (handle_datagram log (record c { socket = socket' }) addr buf now) [
              | none ↦ some none
              | some (calls, c') ↦ handle_datagrams fuel (log ++ calls) c' now
            ]
      ]

  unfoldable pub update :
      ℕ
      → List (Call P PacketId)
      → Client P.CompatibilityError PacketId
      → ℕ
      → Fueled (List (Call P PacketId) × Client P.CompatibilityError PacketId)
  update fuel log c now =
      let (errors, c₁) = update_listeners c now in
      elim (handle_datagrams fuel (log ++ map error errors) c₁ now) [
        | none ↦ none
        | some none ↦ some none
        | some (some (log', c₂)) ↦
            let (errors', c₃) = timeout_connection c₂ now in
            some (some (log' ++ map error errors', c₃))
      ]
