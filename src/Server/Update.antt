-- ===== src/Server/Update.antt =====
-- What `update` of src/net/server.rs does to the tables: resending to the clients, answering requests
-- for the version, and pings.
use packet_test.Common.{
  ℕ, suc, ◌+◌, ◌-◌, ◌^◌, min, max, List, [], ◌∷◌, ◌++◌, Option, none, some, Result, ok, err, Bool,
  length, true, false, not, ◌&&◌, leb, ltb, if◌then◌else◌, take,
}
use packet_test.Config.{ServerConfig}
use packet_test.Common.Dict.{Ord, nat_ord, insert}
use packet_test.Socket.{SocketAddr, UdpSocket, NonBlockingUdpSocket, IoError, send}
use packet_test.Packet.Kind.{PacketKind, Uuid, to_byte, packet_buffer_size}
use packet_test.Packet.Serialize.{Panicking}
use packet_test.Packet.Out.{elapsed}
use packet_test.Packet.Buffers
use packet_test.Server.{
  ActivePing, ClientConnection, Server, Event, send_error, timeout, ping, is_some, is_client,
}

-- `send_version`: `version` is what `Version::write` puts behind the kind. The slice of the buffer
-- panics where that does not fit behind it.
unfoldable pub send_version :
    UdpSocket → List ℕ → SocketAddr → Panicking (Result IoError Bool × NonBlockingUdpSocket)
send_version socket version client_addr =
    if ltb packet_buffer_size (length version + 1)
    then none
    else some (
        send (record { socket = socket; addr = client_addr })
          (to_byte PacketKind.version ∷ version))

abbrev pub exceeds : ℕ → Option ℕ → Bool
exceeds n none = false
exceeds n (some most) = ltb most n

module _ {PacketId : Type 0} where
  -- The first half of `send_pings` for one client: what becomes of it when its ping is due.
  unfoldable pub missed_pong : ClientConnection PacketId → ClientConnection PacketId
  missed_pong c = record c {
    active_ping = none;
    last_pong = none;
    missed_pongs =
        if is_some c.active_ping && not (is_some c.last_pong)
        then min (2 ^ 64 - 1) (c.missed_pongs + 1)
        else c.missed_pongs;
  }

  unfoldable pub timed_out : Option ℕ → ClientConnection PacketId → Bool
  timed_out max_missed_pongs c =
      is_some c.active_ping
      && not (is_some c.last_pong)
      && exceeds (missed_pong c).missed_pongs max_missed_pongs

  abbrev pub is_ping_due : ℕ → Option (ActivePing PacketId) → ℕ → Bool
  is_ping_due ping_delay none now = true
  is_ping_due ping_delay (some active_ping) now = leb ping_delay (elapsed now active_ping.ping)

-- What an operation on one slot leaves: the events, the slot and the socket.
abbrev pub Visited : Type 0 → Type 0
Visited PacketId = List (Event PacketId) × Option (ClientConnection PacketId) × UdpSocket

module _ {PacketId : Type 0} ⦃u : Uuid PacketId⦄ where
  -- The end of `send_pings` for one client: the ping with a fresh id.
  unfoldable pub send_ping : PacketId → ClientConnection PacketId → UdpSocket → ℕ → Visited PacketId
  send_ping ping_id c socket now =
      let (r, socket') =
        send (record { socket = socket; addr = c.client_addr })
          (to_byte PacketKind.ping ∷ u.as_bytes ping_id) in
      let pinged : ClientConnection PacketId = record c {
        active_ping = some (record { ping_id = ping_id; ping = now });
      } in
      elim r [
        | err e ↦ (send_error c.client_addr e ∷ [], none, socket'.socket)
        | ok sent ↦
            if sent
            then (ping c.client_addr ∷ [], some pinged, socket'.socket)
            else ([], some c, socket'.socket)
      ]

  -- The body of the loop of `send_pings`.
  unfoldable pub ping_client :
      ServerConfig → PacketId → ClientConnection PacketId → UdpSocket → ℕ → Visited PacketId
  ping_client config ping_id c socket now =
      if not (is_ping_due config.ping_delay c.active_ping now)
      then ([], some c, socket)
      else if timed_out config.max_missed_pongs c
      then (timeout c.client_addr ∷ [], none, socket)
      else send_ping ping_id (missed_pong c) socket now

  -- A loop over the slots: `f` visits those that are taken, with their index.
  unfoldable pub each_client :
      (ℕ → ClientConnection PacketId → UdpSocket → Visited PacketId)
      → ℕ
      → List (Option (ClientConnection PacketId))
      → UdpSocket
      → List (Event PacketId) × List (Option (ClientConnection PacketId)) × UdpSocket
  each_client f index [] socket = ([], [], socket)
  each_client f index (none ∷ clients) socket =
      let (events, clients', socket') = each_client f (suc index) clients socket in
      (events, none ∷ clients', socket')
  each_client f index (some c ∷ clients) socket =
      let (here, slot, socket') = f index c socket in
      let (events, clients', socket'') = each_client f (suc index) clients socket' in
      (here ++ events, slot ∷ clients', socket'')

  -- `send_pings`: `fresh` gives the id of the ping in each slot, where `Uuid::new_v4` makes one.
  unfoldable pub send_pings :
      Server PacketId → (ℕ → PacketId) → ℕ → List (Event PacketId) × Server PacketId
  send_pings s fresh now =
      let (events, clients', socket') =
        each_client (λ index c socket. ping_client s.config (fresh index) c socket now) 0 s.clients
          s.socket in
      (events, record s { clients = clients'; socket = socket' })

-- `first_empty_slot`: behind the last slot that is taken.
unfoldable pub first_empty_slot : {C : Type 0} → ℕ → List (Option C) → ℕ
first_empty_slot index [] = 0
first_empty_slot index (none ∷ clients) = first_empty_slot (suc index) clients
first_empty_slot index (some c ∷ clients) = max (suc index) (first_empty_slot (suc index) clients)

module _ {PacketId : Type 0} ⦃o : Ord PacketId⦄ ⦃u : Uuid PacketId⦄ where
  -- The body of the loop of `update_buffers`.
  unfoldable pub update_client :
      ServerConfig → ClientConnection PacketId → UdpSocket → ℕ → Visited PacketId
  update_client config c socket now =
      let (r, buffers', socket') =
        Buffers.update c.buffers config.connection.resend_delay config.connection.max_missed_acks
          config.connection.receive_timeout (record { socket = socket; addr = c.client_addr })
          now in
      elim r [
        | err e ↦ (send_error c.client_addr e ∷ [], none, socket'.socket)
        | ok _ ↦ ([], some (record c { buffers = buffers' }), socket'.socket)
      ]

  unfoldable pub update_buffers : Server PacketId → ℕ → List (Event PacketId) × Server PacketId
  update_buffers s now =
      let (events, clients', socket') =
        each_client (λ _ c socket. update_client s.config c socket now) 0 s.clients s.socket in
      (
        events,
        record s { clients = take (first_empty_slot 0 s.clients) clients'; socket = socket' },
      )

  -- `handle_version_request`, once the version has been sent, with the result `r`.
  unfoldable pub version_sent :
      Server PacketId
      → SocketAddr
      → Bool
      → Result IoError Bool
      → NonBlockingUdpSocket
      → List (Event PacketId) × Server PacketId
  version_sent s client_addr listening r socket' =
      let s' : Server PacketId = record s { socket = socket'.socket } in
      elim r [
        | err e ↦ (send_error client_addr e ∷ [], s')
        | ok sent ↦
            if sent && not listening && not (is_client client_addr s.clients)
            then (
              [],
              record s' {
                listeners =
                    insert client_addr (Buffers.new s.config.connection.initial_send_batch_size)
                      s.listeners;
              },
            )
            else ([], s')
      ]

  unfoldable pub handle_version_request :
      Server PacketId
      → List ℕ
      → SocketAddr
      → Bool
      → Panicking (List (Event PacketId) × Server PacketId)
  handle_version_request s version client_addr listening =
      elim (send_version s.socket version client_addr) [
        | none ↦ none
        | some (r, socket') ↦ some (version_sent s client_addr listening r socket')
      ]
