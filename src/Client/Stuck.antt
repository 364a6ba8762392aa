-- ===== src/Client/Stuck.antt =====
-- Calls and datagrams after which a connection or a query of src/net/client.rs does not go on.
use packet_test.Handler.{HandlerError}
use packet_test.Common.{
  true, false, Bool, ℕ, ◌+◌, ◌≤◌, ◌≡◌, arith, List, [], ◌∷◌, Option, none, some, ok, err, Bool,
  if◌then◌else◌, get_elem?, Option-cases, Result-split, inl, inr,
}
use packet_test.Common.Dict.{Ord}
use packet_test.Config.{ClientConfig}
use packet_test.Socket.{SocketAddr, UdpSocket, IoError}
use packet_test.Packet.Kind.{Uuid}
use packet_test.Packet.Packets.{Packets, Rkyv}
use packet_test.Packet.Buffers.{PacketBuffers}
use packet_test.Client.{
  ClientState, ServerState, ServerListener, Client, pending_version_query, connected, disconnecting,
  server_addr,
}
use packet_test.Client.Requests.{refresh_all, refresh_each}
use packet_test.Client.Connection.{send_connected, disconnect, send}
use packet_test.Client.Update.{update_query, update_listener, update_each, update_listeners}
use packet_test.Client.Receive.{Call, ClientHandler, handle_packet, handle_compatible}
use packet_test.Client.{send_version_query}

module _ {E PacketId : Type 0} where
  refresh_each_head :
      (ls : List (ServerListener E PacketId)) (socket : UdpSocket) (now : ℕ)
      (l : ServerListener E PacketId)
      → (refresh_each ls socket now).0 ≡ ok tt
      → get_elem? (refresh_each ls socket now).1 0 ≡ some l
      → (v : Option ℕ) × (l.state ≡ ServerState.pending_version v)
  unfolding refresh_each pending_version_query
  refresh_each_head [] socket now l h k = cc
  refresh_each_head (m ∷ ls) socket now l h k =
      elim (Result-split (send_version_query socket m.server_addr).0) [
        | inl (e, bad) ↦ absurd (ground (arith, h, bad))
        | inr (sent, good) ↦ ((if sent then some now else none), ground (arith, h, k, good))
      ]

module _ {E PacketId : Type 0} ⦃o : Ord PacketId⦄ ⦃u : Uuid PacketId⦄ where
  -- Once `refresh_all` of a connected client has succeeded, the next `send` and the next `disconnect`
  -- panic.
  pub refresh_all-send :
      (c c' : Client E PacketId) (now : ℕ) (id : PacketId) (writes : List (List ℕ)) (later : ℕ)
      → c.state ≡ connected
      → refresh_all c now ≡ (ok tt, c')
      → (send c' id writes later ≡ none) × (disconnect c' id writes later ≡ none)
  unfolding refresh_all send disconnect send_connected
  refresh_all-send c c' now id writes later h k =
      elim (Option-cases (get_elem? (refresh_each c.listeners c.socket now).1 0)) [
        | inl e ↦ ground (arith, h, k, e)
        | inr (l, e) ↦
            let (v, x) = refresh_each_head c.listeners c.socket now l (ground (arith, k)) e in
            ground (arith, h, k, e, x)
      ]

  -- What an update makes of a listener whose version query was sent, or would have blocked.
  abbrev pub Requeried :
      Bool
      → ServerListener E PacketId
      → UdpSocket
      → Option ClientState
      → List (HandlerError PacketId)
        × Option (ServerListener E PacketId)
        × Option ClientState
        × UdpSocket
      → Type 0
  Requeried true l s slot (errors, kept, slot', s') =
      s' ≡ (send_version_query s l.server_addr).1.socket
  Requeried false l s slot updated = updated ≡ ([], some l, slot, s)

  -- An update after the resend delay sends a version query that went out again, but where the query
  -- would have blocked, the update sends nothing and keeps the listener just as it was.
  pub update_listener-pending_version_query :
      (socket s : UdpSocket) (a : SocketAddr) (now later : ℕ) (slot : Option ClientState)
      (config : ClientConfig) (state : ServerState E PacketId) (sent : Bool)
      → (pending_version_query socket a now).0 ≡ ok state
      → (send_version_query socket a).0 ≡ ok sent
      → config.connection.resend_delay + now ≤ later
      → let l : ServerListener E PacketId = record { server_addr = a; state = state } in
        Requeried sent l s slot (update_listener l s slot config later)
  unfolding pending_version_query update_listener update_query
  update_listener-pending_version_query socket s a now later slot config state true h k late =
      ground (arith, h, k, late)
  update_listener-pending_version_query socket s a now later slot config state false h k late =
      ground (arith, h, k)

  -- When the connection's listener waits for a version again and its query cannot be sent, an update
  -- drops it but leaves the client connected; with no listener left, `server_addr` panics.
  pub update_listeners-server_addr :
      (c : Client E PacketId) (l : ServerListener E PacketId) (last now : ℕ) (e : IoError)
      → c.state ≡ connected
      → c.listeners ≡ l ∷ []
      → l.state ≡ ServerState.pending_version (some last)
      → c.config.connection.resend_delay + last ≤ now
      → (send_version_query c.socket l.server_addr).0 ≡ err e
      → ((update_listeners c now).1.state ≡ connected)
        × (server_addr (update_listeners c now).1 ≡ none)
  unfolding update_listeners update_each update_listener update_query server_addr
  update_listeners-server_addr c l last now e connection only pending due failed =
      ground (arith, connection, only, pending, due, failed)

module _ {P : Packets} {PacketId : Type 0} ⦃o : Ord PacketId⦄ ⦃u : Uuid PacketId⦄ (rkyv : Rkyv P)
    (handler : ClientHandler P PacketId) where
  -- Nothing that the buffers of a disconnecting client receive, the acknowledgement of its
  -- disconnect packet among it, makes it disconnected.
  pub handle_compatible_disconnecting :
      (c c' : Client P.CompatibilityError PacketId) (index : ℕ)
      (l : ServerListener P.CompatibilityError PacketId) (b : PacketBuffers PacketId) (buf : List ℕ)
      (now : ℕ) (calls : List (Call P PacketId))
      → c.state ≡ disconnecting
      → handle_compatible rkyv handler c index l b buf now ≡ some (calls, c')
      → c'.state ≡ disconnecting
  unfolding handle_compatible handle_packet
  handle_compatible_disconnecting c c' index l b buf now calls before h = ground (arith, before, h)
