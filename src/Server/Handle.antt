-- ===== src/Server/Handle.antt =====
-- `handle_packets` of src/net/server.rs, for one datagram: what a client's or a listener's packet does
-- to the tables, and the calls of the user's handler.
use packet_test.Common.{
  ◌≡◌, ◌↔◌, arith, Result, ℕ, List, [], ◌∷◌, map, Option, none, some, ok, err, Bool, true, false,
  not, ◌==◌, if◌then◌else◌,
}
use packet_test.Common.Dict.{Ord, nat_ord, insert}
use packet_test.Socket.{SocketAddr, UdpSocket, IoError}
use packet_test.Handler.{HandlerError, Report, error}
use packet_test.Packet.Kind.{Uuid}
use packet_test.Packet.Error.{malformed}
use packet_test.Packet.Packets.{Packets, ServerConnectionPacket, ClientConnectionPacket, Rkyv}
use packet_test.Packet.Serialize.{Panicking}
use packet_test.Packet.Buffers
use packet_test.Packet.Buffers.{PacketBuffers}
use packet_test.Config.{ServerConfig}
use packet_test.Server.{
  ClientConnection, Server, Event, report, pong, unexpected, send_error, not_connected,
  already_connected, client,
}

-- The calls of the handler; its `listen` is never called.
pub data Call (P : Packets) (PacketId : Type 0) : Type 0 where
  event : Event PacketId → Call P PacketId
  version : Call P PacketId
  query : SocketAddr → P.Query → Call P PacketId
  connect : SocketAddr → P.Connect → Call P PacketId
  disconnect : SocketAddr → P.Disconnect → Call P PacketId
  packet : SocketAddr → P.Client → Call P PacketId

pub data Connect (P : Packets) : Type 0 where
  accept : P.Accept → Connect P
  reject : P.Reject → Connect P

-- `PartialEq`, from that of the two types.
unfoldable connect_eq :
    {P : Packets}
    → (P.Accept → P.Accept → Bool)
    → (P.Reject → P.Reject → Bool)
    → Connect P
    → Connect P
    → Bool
connect_eq accept_eq reject_eq (accept a) (accept b) = accept_eq a b
connect_eq accept_eq reject_eq (reject a) (reject b) = reject_eq a b
connect_eq accept_eq reject_eq _ _ = false

-- It decides equality where theirs do.
connect_eq_iff :
    {P : Packets} (accept_eq : P.Accept → P.Accept → Bool) (reject_eq : P.Reject → P.Reject → Bool)
    → ((a b : P.Accept) → (accept_eq a b ≡ true) ↔ (a ≡ b))
    → ((a b : P.Reject) → (reject_eq a b ≡ true) ↔ (a ≡ b))
    → (c d : Connect P) → (connect_eq accept_eq reject_eq c d ≡ true) ↔ (c ≡ d)
unfolding connect_eq
connect_eq_iff accept_eq reject_eq h k (accept a) (accept b) = ground (arith, h a b)
connect_eq_iff accept_eq reject_eq h k (accept a) (reject b) = ground arith
connect_eq_iff accept_eq reject_eq h k (reject a) (accept b) = ground arith
connect_eq_iff accept_eq reject_eq h k (reject a) (reject b) = ground (arith, k a b)

-- What the user's handler answers, by the calls that it has got before.
pub record ServerHandler (P : Packets) (PacketId : Type 0) : Type 0 where
  pub version : List (Call P PacketId) → P.Version
  pub query : List (Call P PacketId) → SocketAddr → P.Query → P.Status
  pub connect : List (Call P PacketId) → SocketAddr → P.Connect → Connect P

-- `DefaultConnectionHandler`, from the default values of the three types.
unfoldable pub default_handler :
    {P : Packets} {PacketId : Type 0} → P.Version → P.Status → P.Accept → ServerHandler P PacketId
default_handler default_version default_status default_accept = record {
  version = λ log. default_version;
  query = λ log client_addr q. default_status;
  connect = λ log client_addr c. accept default_accept;
}

abbrev pub reported :
    {P : Packets} {PacketId : Type 0} → List (Report PacketId) → List (Call P PacketId)
reported reports = map (λ r. event (report r)) reports

module _ {PacketId : Type 0} where
  -- A write through `client_entry`, the first slot that holds the address.
  unfoldable pub replace_client :
      ClientConnection PacketId
      → List (Option (ClientConnection PacketId))
      → List (Option (ClientConnection PacketId))
  replace_client c [] = []
  replace_client c (none ∷ clients) = none ∷ replace_client c clients
  replace_client c (some d ∷ clients) =
      if d.client_addr == c.client_addr then some c ∷ clients else some d ∷ replace_client c clients

  abbrev pub with_client : Server PacketId → ClientConnection PacketId → UdpSocket → Server PacketId
  with_client s c socket = record s { clients = replace_client c s.clients; socket = socket }

  abbrev pub with_listener :
      Server PacketId → SocketAddr → PacketBuffers PacketId → UdpSocket → Server PacketId
  with_listener s addr buffers socket = record s {
    listeners = insert addr buffers s.listeners;
    socket = socket;
  }

module _ {PacketId : Type 0} ⦃o : Ord PacketId⦄ ⦃u : Uuid PacketId⦄ where
  -- A ping packet of the client `c`: `id` is what stands behind the kind.
  unfoldable pub handle_pong :
      Server PacketId
      → ClientConnection PacketId
      → List ℕ
      → ℕ
      → List (Event PacketId) × Server PacketId
  handle_pong s c id now = elim c.active_ping [
    | none ↦ (pong c.client_addr false ∷ [], s)
    | some active_ping ↦ elim (u.from_slice id) [
      | none ↦ (report (error (HandlerError.handle c.client_addr malformed)) ∷ [], s)
      | some ping_id ↦
          if o.beq ping_id active_ping.ping_id
          then (
            pong c.client_addr true ∷ [],
            with_client s (record c { last_pong = some now; missed_pongs = 0 }) s.socket,
          )
          else (pong c.client_addr false ∷ [], s)
    ]
  ]

module _ {P : Packets} {PacketId : Type 0} ⦃o : Ord PacketId⦄ ⦃u : Uuid PacketId⦄ (rkyv : Rkyv P)
    (handler : ServerHandler P PacketId) (config : ServerConfig) where
  -- `buffers.send(..)` with the report of its error: whether it was sent, the calls and the rest.
  unfoldable pub reply :
      PacketId
      → SocketAddr
      → ServerConnectionPacket P
      → PacketBuffers PacketId
      → UdpSocket
      → ℕ
      → Panicking (Bool × List (Call P PacketId) × PacketBuffers PacketId × UdpSocket)
  reply id addr answer buffers socket now =
      elim (Buffers.send buffers id (rkyv.write_server answer)
        config.connection.background_serialization_threshold
        (record { socket = socket; addr = addr }) now) [
          | none ↦ none
          | some (err e, buffers', socket') ↦
              some (false, event (send_error addr e) ∷ [], buffers', socket'.socket)
          | some (ok _, buffers', socket') ↦ some (true, [], buffers', socket'.socket)
        ]

  -- `reply`, as the answer to what the handler was asked by the call `asked`.
  unfoldable pub answered :
      Call P PacketId
      → Panicking (Bool × List (Call P PacketId) × PacketBuffers PacketId × UdpSocket)
      → (Bool → Bool)
      → Panicking (Bool × List (Call P PacketId) × PacketBuffers PacketId × UdpSocket)
  answered asked r flag = elim r [
    | none ↦ none
    | some (sent, calls, buffers, socket) ↦ some (flag sent, asked ∷ calls, buffers, socket)
  ]

  -- A client's packet: whether it is disconnected.
  unfoldable pub handle_client_packet :
      List (Call P PacketId)
      → PacketId
      → SocketAddr
      → ClientConnectionPacket P
      → PacketBuffers PacketId
      → UdpSocket
      → ℕ
      → Panicking (Bool × List (Call P PacketId) × PacketBuffers PacketId × UdpSocket)
  handle_client_packet log id addr (ClientConnectionPacket.query q) buffers socket now =
      answered (query addr q)
        (reply id addr (ServerConnectionPacket.status (handler.query log addr q)) buffers socket
          now)
        not
  handle_client_packet log id addr (ClientConnectionPacket.connect c) buffers socket now =
      some (true, event (unexpected addr already_connected) ∷ [], buffers, socket)
  handle_client_packet log id addr (ClientConnectionPacket.disconnect d) buffers socket now =
      some (true, disconnect addr d ∷ [], buffers, socket)
  handle_client_packet log id addr (ClientConnectionPacket.user x) buffers socket now =
      some (false, packet addr x ∷ [], buffers, socket)

  -- A listener's request to connect, by the handler's decision.
  unfoldable pub handle_connect :
      PacketId
      → SocketAddr
      → P.Connect
      → Connect P
      → PacketBuffers PacketId
      → UdpSocket
      → ℕ
      → Panicking (Bool × List (Call P PacketId) × PacketBuffers PacketId × UdpSocket)
  handle_connect id addr c (accept a) buffers socket now =
      answered (connect addr c) (reply id addr (ServerConnectionPacket.accept a) buffers socket now)
        (λ sent. sent)
  handle_connect id addr c (reject r) buffers socket now =
      answered (connect addr c) (reply id addr (ServerConnectionPacket.reject r) buffers socket now)
        (λ sent. false)

  -- A listener's packet: whether it becomes a client.
  unfoldable pub handle_listener_packet :
      List (Call P PacketId)
      → PacketId
      → SocketAddr
      → ClientConnectionPacket P
      → PacketBuffers PacketId
      → UdpSocket
      → ℕ
      → Panicking (Bool × List (Call P PacketId) × PacketBuffers PacketId × UdpSocket)
  handle_listener_packet log id addr (ClientConnectionPacket.query q) buffers socket now =
      answered (query addr q)
        (reply id addr (ServerConnectionPacket.status (handler.query log addr q)) buffers socket
          now)
        (λ sent. false)
  handle_listener_packet log id addr (ClientConnectionPacket.connect c) buffers socket now =
      handle_connect id addr c (handler.connect log addr c) buffers socket now
  handle_listener_packet log id addr (ClientConnectionPacket.disconnect d) buffers socket now =
      some (false, event (unexpected addr not_connected) ∷ [], buffers, socket)
  handle_listener_packet log id addr (ClientConnectionPacket.user x) buffers socket now =
      some (false, event (unexpected addr not_connected) ∷ [], buffers, socket)

module _ {P : Packets} {PacketId : Type 0} ⦃o : Ord PacketId⦄ ⦃u : Uuid PacketId⦄
    (rkyv : Rkyv P) where
  -- `send` of the `Client` that `client` gives; the outer `none` says that there is none.
  unfoldable pub send_raw :
      Server PacketId
      → SocketAddr
      → PacketId
      → ServerConnectionPacket P
      → ℕ
      → Option (Panicking (Result IoError PacketId × Server PacketId))
  send_raw s client_addr id whole now = elim (client client_addr s.clients) [
    | none ↦ none
    | some c ↦
        elim (Buffers.send c.buffers id (rkyv.write_server whole)
          s.config.connection.background_serialization_threshold
          (record { socket = s.socket; addr = client_addr }) now) [
            | none ↦ some none
            | some (r, buffers', socket') ↦
                some (some (r, with_client s (record c { buffers = buffers' }) socket'.socket))
          ]
  ]

  unfoldable pub send :
      Server PacketId
      → SocketAddr
      → PacketId
      → P.Server
      → ℕ
      → Option (Panicking (Result IoError PacketId × Server PacketId))
  send s client_addr id x now = send_raw s client_addr id (ServerConnectionPacket.user x) now
