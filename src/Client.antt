-- ===== src/Client.antt =====
-- `Client` of src/net/client.rs: the servers that it listens to, and the state of its connection.
-- `E` is `P::CompatibilityError`.
pub mod Requests
pub mod Connection
pub mod Update
pub mod Receive
pub mod Ends
pub mod Finish
pub mod Roster
pub mod Moves
pub mod Requested
pub mod Sending
pub mod Kept
pub mod Reach
pub mod First
pub mod Expiry
pub mod Stuck
pub mod Panics
mod Tests
use packet_test.Common.{
  ℕ, zero, suc, List, [], ◌∷◌, ◌++◌, Option, none, some, Result, ok, err, Bool, true, false, ◌==◌,
  if◌then◌else◌, length, get_elem?, take, set, ◌-◌, ◌≡◌, refl, ◌⊎◌, inl, inr,
}
use mathlib.Core.Option
use packet_test.Config.{ClientConfig}
use packet_test.Socket
use packet_test.Socket.{SocketAddr, UdpSocket, NonBlockingUdpSocket, IoError}
use packet_test.Packet.Serialize.{Panicking}
use packet_test.Packet.Buffers.{PacketBuffers}

pub data ClientState : Type 0 where
  disconnected connecting connected disconnecting : ClientState

pub data ServerState (E PacketId : Type 0) : Type 0 where
  pending_version : Option ℕ → ServerState E PacketId
  compatible : PacketBuffers PacketId → ℕ → ServerState E PacketId
  incompatible : E → ServerState E PacketId

pub record ServerListener (E PacketId : Type 0) : Type 0 where
  pub server_addr : SocketAddr
  pub state : ServerState E PacketId

pub record Client (E PacketId : Type 0) : Type 0 where
  pub config : ClientConfig
  pub socket : UdpSocket
  pub state : ClientState
  pub listeners : List (ServerListener E PacketId)

pub data Compatibility (E : Type 0) : Type 0 where
  pending : Compatibility E
  compatible : Compatibility E
  incompatible : E → Compatibility E

pub data ForgetError : Type 0 where
  not_disconnected unknown_server : ForgetError

pub data CompatibilityError : Type 0 where
  compatibility_pending incompatible : CompatibilityError

pub data QueryError : Type 0 where
  compatibility_error : CompatibilityError → QueryError
  io : IoError → QueryError

pub data ConnectError : Type 0 where
  compatibility_error : CompatibilityError → ConnectError
  not_disconnected : ConnectError
  io : IoError → ConnectError

pub data SendError : Type 0 where
  not_connected : SendError
  io : IoError → SendError

abbrev pub is_disconnected : ClientState → Bool
is_disconnected ClientState.disconnected = true
is_disconnected _ = false

-- `send_version_query`: an empty datagram.
unfoldable pub send_version_query :
    UdpSocket → SocketAddr → Result IoError Bool × NonBlockingUdpSocket
send_version_query socket server_addr =
    Socket.send (record { socket = socket; addr = server_addr }) []

-- `Vec::swap_remove`, for an index in range.
unfoldable pub swap_remove {ℓ} : {A : Type ℓ} → List A → ℕ → List A
swap_remove xs index = elim (get_elem? xs (length xs - 1)) [
  | none ↦ []
  | some last ↦ take (length xs - 1) (set xs index last)
]

module _ {E PacketId : Type 0} where
  -- `with_config`: `bound` is what binding the socket comes to.
  unfoldable pub with_config :
      Result IoError UdpSocket → ClientConfig → Result IoError (Client E PacketId)
  with_config (err e) config = err e
  with_config (ok socket) config = ok (record {
    config = config;
    socket = socket;
    state = ClientState.disconnected;
    listeners = [];
  })

  abbrev pub compatibility_of : ServerState E PacketId → Compatibility E
  compatibility_of (ServerState.pending_version last_version_query) = Compatibility.pending
  compatibility_of (ServerState.compatible buffers last_interaction) = Compatibility.compatible
  compatibility_of (ServerState.incompatible e) = Compatibility.incompatible e

  -- `iter().position(|server| server.server_addr == server_addr)`.
  unfoldable pub position : SocketAddr → List (ServerListener E PacketId) → Option ℕ
  position server_addr [] = none
  position server_addr (l ∷ ls) =
      if l.server_addr == server_addr then some 0 else Option.map suc (position server_addr ls)

  -- `iter().find(|server| server.server_addr == server_addr)`.
  unfoldable pub find :
      SocketAddr → List (ServerListener E PacketId) → Option (ServerListener E PacketId)
  find server_addr [] = none
  find server_addr (l ∷ ls) = if l.server_addr == server_addr then some l else find server_addr ls

  unfoldable pub compatibility : Client E PacketId → SocketAddr → Option (Compatibility E)
  compatibility c server_addr =
      Option.map (λ l. compatibility_of (ServerListener.state l)) (find server_addr c.listeners)

  -- `server_addr`; `none` is the panic of its `expect`.
  unfoldable pub server_addr : Client E PacketId → Panicking (Option SocketAddr)
  server_addr c = elim c.state [
    | ClientState.disconnected ↦ some none
    | _ ↦ elim (get_elem? c.listeners 0) [ none ↦ none | some l ↦ some (some l.server_addr) ]
  ]

  -- `ServerListener::pending_version_query`.
  unfoldable pub pending_version_query :
      UdpSocket → SocketAddr → ℕ → Result IoError (ServerState E PacketId) × UdpSocket
  pending_version_query socket server_addr now =
      let (r, socket') = send_version_query socket server_addr in
      (
        elim r [
          | err e ↦ err e
          | ok sent ↦ ok (ServerState.pending_version (if sent then some now else none))
        ],
        socket'.socket,
      )

  pub ServerState-cases :
      (x : ServerState E PacketId)
      → ((v : Option ℕ) × (x ≡ ServerState.pending_version v))
        ⊎ ((b : PacketBuffers PacketId) × (last : ℕ) × (x ≡ ServerState.compatible b last))
        ⊎ ((e : E) × (x ≡ ServerState.incompatible e))
  ServerState-cases (ServerState.pending_version v) = inl (v, refl)
  ServerState-cases (ServerState.compatible b last) = inr (inl (b, last, refl))
  ServerState-cases (ServerState.incompatible e) = inr (inr (e, refl))
