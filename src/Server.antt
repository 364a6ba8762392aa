-- ===== src/Server.antt =====
-- The tables of `Server` in src/net/server.rs: its listeners and its client slots, and the operations
-- on them. The calls of the handler are the events that an operation gives back. The moves between
-- the tables that a datagram causes are `accept_client` and `disconnect_client`.
pub mod Update
pub mod Handle
pub mod Loop
pub mod Ends
pub mod Finish
pub mod Registry
pub mod Rounds
pub mod Served
pub mod Updated
pub mod Admission
pub mod Pong
pub mod Panics
pub mod Isolation
pub mod Reach
pub mod Fixtures
mod Tests
use packet_test.Common.{
  ℕ, zero, suc, ◌+◌, ◌-◌, ◌^◌, min, max, List, [], ◌∷◌, ◌++◌, Option, none, some, Result, ok, err,
  Bool, true, false, not, ◌&&◌, ◌||◌, leb, ltb, ◌==◌, if◌then◌else◌, take,
}
use packet_test.Config.{ServerConfig}
use packet_test.Common.Dict.{Ord, nat_ord, Dict, get, insert, remove}
use packet_test.Socket.{SocketAddr, UdpSocket, NonBlockingUdpSocket, IoError, send}
use packet_test.Packet.Kind.{PacketKind, Uuid, to_byte}
use packet_test.Packet.Out.{elapsed}
use packet_test.Handler.{HandlerError, Report, error}
use packet_test.Packet.Buffers
use packet_test.Packet.Buffers.{PacketBuffers}

pub record ActivePing (PacketId : Type 0) : Type 0 where
  pub ping_id : PacketId
  pub ping : ℕ

pub record ClientConnection (PacketId : Type 0) : Type 0 where
  pub client_addr : SocketAddr
  pub buffers : PacketBuffers PacketId
  pub active_ping : Option (ActivePing PacketId)
  pub last_pong : Option ℕ
  pub missed_pongs : ℕ

pub record Server (PacketId : Type 0) : Type 0 where
  pub config : ServerConfig
  pub socket : UdpSocket
  pub listeners : Dict SocketAddr (PacketBuffers PacketId)
  pub clients : List (Option (ClientConnection PacketId))

pub data UnexpectedClientPacket : Type 0 where
  unknown_compatibility not_connected already_connected : UnexpectedClientPacket

-- The calls of the handler that carry nothing of the user's.
pub data Event (PacketId : Type 0) : Type 0 where
  report : Report PacketId → Event PacketId
  ping : SocketAddr → Event PacketId
  pong : SocketAddr → Bool → Event PacketId
  unexpected : SocketAddr → UnexpectedClientPacket → Event PacketId

abbrev pub send_error : {PacketId : Type 0} → SocketAddr → IoError → Event PacketId
send_error addr e = report (error (HandlerError.send addr e))

abbrev pub timeout : {PacketId : Type 0} → SocketAddr → Event PacketId
timeout addr = report (error (HandlerError.timeout addr))

pub data UnlistenError : Type 0 where
  unlisten_error : UnlistenError

abbrev pub is_some {ℓ} : {A : Type ℓ} → Option A → Bool
is_some none = false
is_some (some a) = true

module _ {PacketId : Type 0} where
  -- `clients.iter().flatten().any(|client| client.client_addr == client_addr)`.
  unfoldable pub is_client : SocketAddr → List (Option (ClientConnection PacketId)) → Bool
  is_client client_addr [] = false
  is_client client_addr (none ∷ clients) = is_client client_addr clients
  is_client client_addr (some c ∷ clients) =
      c.client_addr == client_addr || is_client client_addr clients

  -- `client`, as far as the client that it finds.
  unfoldable pub client :
      SocketAddr → List (Option (ClientConnection PacketId)) → Option (ClientConnection PacketId)
  client client_addr [] = none
  client client_addr (none ∷ clients) = client client_addr clients
  client client_addr (some c ∷ clients) =
      if c.client_addr == client_addr then some c else client client_addr clients

  unfoldable pub unlisten :
      Server PacketId → SocketAddr → Result UnlistenError Bool × Server PacketId
  unlisten s client_addr =
      let s' : Server PacketId = record s { listeners = remove client_addr s.listeners } in
      if is_some (get client_addr s.listeners)
      then (ok true, s')
      else if is_client client_addr s.clients
      then (err unlisten_error, s')
      else (ok false, s')

  unfoldable pub unlisten_all : Server PacketId → Server PacketId
  unlisten_all s = record s { listeners = [] }

  -- `host_with_config`: `bound` is what binding the socket comes to.
  unfoldable pub host_with_config :
      Result IoError UdpSocket → ServerConfig → Result IoError (Server PacketId)
  host_with_config (err e) config = err e
  host_with_config (ok socket) config =
      ok (record { config = config; socket = socket; listeners = []; clients = [] })

  -- `ClientConnection::new`.
  unfoldable pub new : SocketAddr → PacketBuffers PacketId → ClientConnection PacketId
  new client_addr buffers = record {
    client_addr = client_addr;
    buffers = buffers;
    active_ping = none;
    last_pong = none;
    missed_pongs = 0;
  }

  -- `*self.get_or_add_free_slot() = Some(c)`.
  unfoldable pub place :
      List (Option (ClientConnection PacketId))
      → ClientConnection PacketId
      → List (Option (ClientConnection PacketId))
  place [] c = some c ∷ []
  place (none ∷ clients) c = some c ∷ clients
  place (some other ∷ clients) c = some other ∷ place clients c

  -- The upgrade of a listener in `handle_packets`, once `Accept` is sent; `none` is its `unwrap`.
  unfoldable pub accept_client : Server PacketId → SocketAddr → Option (Server PacketId)
  accept_client s client_addr = elim (get client_addr s.listeners) [
    | none ↦ none
    | some buffers ↦ some (record s {
      listeners = remove client_addr s.listeners;
      clients = place s.clients (new client_addr buffers);
    })
  ]

  -- `client_entry.take()`, in the slot that the search of `handle_packets` finds.
  unfoldable pub vacate :
      SocketAddr
      → List (Option (ClientConnection PacketId))
      → List (Option (ClientConnection PacketId))
  vacate client_addr [] = []
  vacate client_addr (none ∷ clients) = none ∷ vacate client_addr clients
  vacate client_addr (some c ∷ clients) =
      if c.client_addr == client_addr then none ∷ clients else some c ∷ vacate client_addr clients

  -- `if disconnect { .. }` of `handle_packets`; `none` is the `unwrap` of an empty slot.
  unfoldable pub disconnect_client : Server PacketId → SocketAddr → Option (Server PacketId)
  disconnect_client s client_addr = elim (client client_addr s.clients) [
    | none ↦ none
    | some c ↦ some (record s {
      clients = vacate client_addr s.clients;
      listeners = insert client_addr c.buffers s.listeners;
    })
  ]
