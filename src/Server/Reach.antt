-- ===== src/Server/Reach.antt =====
-- The server from its start: the steps that change its tables, and what holds after any of them.
use packet_test.Common.{
  Option-cases, refl, Option, ◌-◌, ◌≤◌, ◌<◌, ◌+◌, Result, ℕ, ◌≡◌, arith, List, ◌∷◌, none, some, ok,
  err, true, get_elem?, ◌⊎◌, inl, inr, Bool-cases, Result-split,
}
use packet_test.Config.{ServerConfig}
use packet_test.Common.Dict.{Ord, nat_ord, get}
use packet_test.Socket.{SocketAddr, UdpSocket, IoError, send}
use packet_test.Packet.Kind.{Uuid, PacketKind, to_byte}
use packet_test.Packet.Packets.{Packets, Rkyv}
use packet_test.Server.Handle
use packet_test.Server.Handle.{Call, ServerHandler}
use packet_test.Server.Loop.{handle_packets, update}
use packet_test.Server.Served.{send-IsValid}
use packet_test.Server.Updated.{handle_packets-IsValid, update-IsValid}
use packet_test.Server.{
  ActivePing, Event, ClientConnection, Server, is_some, unlisten, unlisten_all, accept_client,
  disconnect_client, host_with_config,
}
use packet_test.Server.Update.{
  handle_version_request, missed_pong, timed_out, is_ping_due, send_ping, ping_client, send_pings,
  update_buffers,
}
use packet_test.Server.Registry.{
  registrations, slots_of, IsValid, accept_client-IsValid, disconnect_client-IsValid,
  unlisten-IsValid,
}
use packet_test.Server.Rounds.{
  send_pings-IsValid, update_buffers-IsValid, handle_version_request-IsValid, each_client-stable,
  ping_client-Keeps,
}

module _ {PacketId : Type 0} where
  unlisten_all-IsValid : (s : Server PacketId) → IsValid s → IsValid (unlisten_all s)
  unfolding unlisten_all registrations get
  unlisten_all-IsValid s v b = omega (arith, v b)

  host_with_config-IsValid :
      (s : Server PacketId) (bound : Result IoError UdpSocket) (config : ServerConfig)
      → host_with_config bound config ≡ ok s
      → IsValid s
  unfolding host_with_config registrations get slots_of
  host_with_config-IsValid s bound config h b = ground (arith, h)

module _ {P : Packets} {PacketId : Type 0} ⦃o : Ord PacketId⦄ ⦃u : Uuid PacketId⦄ (rkyv : Rkyv P)
    (handler : ServerHandler P PacketId) where
  -- One operation on the server; `handled` is the loop over the datagrams, `updated` all of `update`.
  pub data Step : Server PacketId → Server PacketId → Type 0 where
    accepted : {s s' : Server PacketId} (a : SocketAddr) → accept_client s a ≡ some s' → Step s s'
    disconnected :
        {s s' : Server PacketId} (a : SocketAddr) → disconnect_client s a ≡ some s' → Step s s'
    unlistened : {s : Server PacketId} (a : SocketAddr) → Step s (unlisten s a).1
    all_unlistened : {s : Server PacketId} → Step s (unlisten_all s)
    version_requested :
        {s s' : Server PacketId} (version : List ℕ) (a : SocketAddr)
        (events : List (Event PacketId))
        → handle_version_request s version a (is_some (get a s.listeners)) ≡ some (events, s')
        → Step s s'
    buffers_updated : {s : Server PacketId} (now : ℕ) → Step s (update_buffers s now).1
    pinged :
        {s : Server PacketId} (fresh : ℕ → PacketId) (now : ℕ) → Step s (send_pings s fresh now).1
    packet_sent :
        {s s' : Server PacketId} (a : SocketAddr) (id : PacketId) (packet : P.Server) (now : ℕ)
        (r : Result IoError PacketId)
        → Handle.send rkyv s a id packet now ≡ some (some (r, s'))
        → Step s s'
    handled :
        {s s' : Server PacketId} (fuel round : ℕ) (log log' : List (Call P PacketId))
        (fresh : ℕ → PacketId) (now : ℕ)
        → handle_packets rkyv handler fuel round log s fresh now ≡ some (some (log', s'))
        → Step s s'
    updated :
        {s s' : Server PacketId} (fuel : ℕ) (log log' : List (Call P PacketId))
        (fresh fresh_ping : ℕ → PacketId) (now : ℕ)
        → update rkyv handler fuel log s fresh fresh_ping now ≡ some (some (log', s'))
        → Step s s'

  -- The servers that `host_with_config` and such steps lead to.
  pub data Reachable : Server PacketId → Type 0 where
    hosted :
        {s : Server PacketId} (bound : Result IoError UdpSocket) (config : ServerConfig)
        → host_with_config bound config ≡ ok s
        → Reachable s
    stepped : {s s' : Server PacketId} → Reachable s → Step s s' → Reachable s'

  Step-IsValid : {s s' : Server PacketId} → Step s s' → IsValid s → IsValid s'
  Step-IsValid {s} {s'} (accepted a h) v = accept_client-IsValid s s' a h v
  Step-IsValid {s} {s'} (disconnected a h) v = disconnect_client-IsValid s s' a h v
  Step-IsValid {s} (unlistened a) v = unlisten-IsValid s a v
  Step-IsValid {s} all_unlistened v = unlisten_all-IsValid s v
  Step-IsValid {s} {s'} (version_requested version a events h) v =
      handle_version_request-IsValid s s' version a events h v
  Step-IsValid {s} (buffers_updated now) v = update_buffers-IsValid s now v
  Step-IsValid {s} (pinged fresh now) v = send_pings-IsValid s fresh now v
  Step-IsValid {s} {s'} (packet_sent a id packet now r h) v =
      send-IsValid rkyv handler s s' a id packet now r h v
  Step-IsValid {s} {s'} (handled fuel round log log' fresh now h) v =
      handle_packets-IsValid rkyv handler fuel round log s fresh now log' s' h v
  Step-IsValid {s} {s'} (updated fuel log log' fresh fresh_ping now h) v =
      update-IsValid rkyv handler fuel log s fresh fresh_ping now log' s' h v

  -- However the server came to its tables by these steps, whole updates with all their datagrams
  -- among them, no address is registered twice: it holds at most one slot, and none while it is a
  -- listener.
  pub Reachable-IsValid : {s : Server PacketId} → Reachable s → IsValid s
  Reachable-IsValid {s} (hosted bound config h) = host_with_config-IsValid s bound config h
  Reachable-IsValid (stepped r step) = Step-IsValid step (Reachable-IsValid r)

module _ {PacketId : Type 0} ⦃o : Ord PacketId⦄ ⦃u : Uuid PacketId⦄ where
  -- Pings do not move clients: one that is there afterwards was in the same slot before.
  pub send_pings-stable :
      (s : Server PacketId) (fresh : ℕ → PacketId) (now j : ℕ) (d : ClientConnection PacketId)
      → get_elem? (send_pings s fresh now).1.clients j ≡ some (some d)
      → (c : ClientConnection PacketId) × (get_elem? s.clients j ≡ some (some c))
        × (d.client_addr ≡ c.client_addr)
  unfolding send_pings
  send_pings-stable s fresh now j d h =
      each_client-stable (λ i c socket. ping_client s.config (fresh i) c socket now)
        (λ i c socket. ping_client-Keeps s.config (fresh i) c socket now) 0 j s.clients s.socket d h

  -- The next ping is due: there was none yet, or the delay has passed since the last one.
  abbrev pub IsDue : ℕ → Option (ActivePing PacketId) → ℕ → Type 0
  IsDue ping_delay active_ping now =
      (active_ping ≡ none)
      ⊎ ((p : ActivePing PacketId) × (active_ping ≡ some p) × (ping_delay ≤ now - p.ping))

  -- The last ping has no pong, and with it more pongs are missing than are allowed.
  abbrev pub HasMissed : Option ℕ → ClientConnection PacketId → Type 0
  HasMissed max_missed_pongs c =
      (p : ActivePing PacketId) × (most : ℕ) × (c.active_ping ≡ some p)
      × (c.last_pong ≡ none)
      × (max_missed_pongs ≡ some most)
      × (most < c.missed_pongs + 1)

  is_ping_due-IsDue :
      (ping_delay : ℕ) (active_ping : Option (ActivePing PacketId)) (now : ℕ)
      → is_ping_due ping_delay active_ping now ≡ true
      → IsDue ping_delay active_ping now
  is_ping_due-IsDue ping_delay none now h = inl refl
  is_ping_due-IsDue ping_delay (some p) now h = inr (p, refl, ground arith)

  timed_out-HasMissed :
      (max_missed_pongs : Option ℕ) (c : ClientConnection PacketId)
      → timed_out max_missed_pongs c ≡ true
      → HasMissed max_missed_pongs c
  unfolding timed_out missed_pong
  timed_out-HasMissed none c h = absurd (ground (arith, h))
  timed_out-HasMissed (some most) c h = elim (Option-cases c.active_ping) [
    | inl never ↦ absurd (ground (arith, h, never))
    | inr (p, sent) ↦ elim (Option-cases c.last_pong) [
      | inr (at, answered) ↦ absurd (ground (arith, h, answered))
      | inl silent ↦ (p, most, sent, silent, refl, ground (arith, h, sent, silent))
    ]
  ]

  -- Why a visit of `send_pings` may empty a slot.
  abbrev pub IsDropped : ServerConfig → PacketId → ClientConnection PacketId → UdpSocket → Type 0
  IsDropped config ping_id c socket =
      HasMissed config.max_missed_pongs c
      ⊎ ((e : IoError) × ((send (record { socket = socket; addr = c.client_addr })
              (to_byte PacketKind.ping ∷ u.as_bytes ping_id)).0
            ≡ err e))

  send_ping-drops :
      (ping_id : PacketId) (c : ClientConnection PacketId) (socket : UdpSocket) (now : ℕ)
      → (send_ping ping_id c socket now).1 ≡ none
      → (e : IoError) × ((send
            (record { socket = socket; addr = c.client_addr })
            (to_byte PacketKind.ping ∷ u.as_bytes ping_id)).0
          ≡ err e)
  unfolding send_ping
  send_ping-drops ping_id c socket now h =
      elim (Result-split
        (send (record { socket = socket; addr = c.client_addr })
          (to_byte PacketKind.ping ∷ u.as_bytes ping_id)).0) [
            | inl (e, bad) ↦ (e, bad)
            | inr (r, good) ↦ absurd (ground (arith, good))
          ]

  -- A client is dropped by `send_pings` only when it has not been pinged yet or the delay since its
  -- ping has passed, and then because that ping has no pong and the missing pongs, with this one,
  -- exceed the maximum, or because the next ping could not be sent.
  pub ping_client-drops :
      (config : ServerConfig) (ping_id : PacketId) (c : ClientConnection PacketId)
      (socket : UdpSocket) (now : ℕ)
      → (ping_client config ping_id c socket now).1 ≡ none
      → IsDue config.ping_delay c.active_ping now × IsDropped config ping_id c socket
  unfolding ping_client missed_pong
  ping_client-drops config ping_id c socket now h =
      elim (Bool-cases (is_ping_due config.ping_delay c.active_ping now)) [
        | inr early ↦ absurd (ground (arith, early))
        | inl due ↦ elim (Bool-cases (timed_out config.max_missed_pongs c)) [
          | inl late ↦ (
            is_ping_due-IsDue config.ping_delay c.active_ping now due,
            inl (timed_out-HasMissed config.max_missed_pongs c late),
          )
          | inr waits ↦ (
            is_ping_due-IsDue config.ping_delay c.active_ping now due,
            inr (send_ping-drops ping_id (missed_pong c) socket now (ground (arith, due, waits))),
          )
        ]
      ]
