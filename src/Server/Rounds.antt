-- ===== src/Server/Rounds.antt =====
-- The operations that go through all slots, and requests for the version, keep addresses apart.
use packet_test.Common.{
  ℕ, zero, suc, ◌≤◌, ◌≡◌, refl, arith, List, [], ◌∷◌, Option, none, some, get_elem?,
}
use packet_test.Config.{ServerConfig}
use packet_test.Common.Dict.{Ord, nat_ord, get, get-insert}
use packet_test.Socket.{SocketAddr, UdpSocket}
use packet_test.Packet.Kind.{Uuid}
use packet_test.Packet.Buffers
use packet_test.Packet.Buffers.{PacketBuffers}
use packet_test.Server.{Event, ClientConnection, Server, is_some}
use packet_test.Server.Update.{
  Visited, version_sent, handle_version_request, missed_pong, send_ping, ping_client, each_client,
  send_pings, first_empty_slot, update_client, update_buffers,
}
use packet_test.Server.Registry.{registrations, slots_of, IsValid, slots_of-none, slots_of-take}

-- What a visit may do with a slot: keep the client's address, or empty it.
abbrev pub Keeps : {PacketId : Type 0} → SocketAddr → Option (ClientConnection PacketId) → Type 0
Keeps addr none = Unit
Keeps addr (some c) = c.client_addr ≡ addr

module _ {PacketId : Type 0} ⦃u : Uuid PacketId⦄ where
  pub ping_client-Keeps :
      (config : ServerConfig) (ping_id : PacketId) (c : ClientConnection PacketId)
      (socket : UdpSocket) (now : ℕ)
      → Keeps c.client_addr (ping_client config ping_id c socket now).1
  unfolding ping_client send_ping missed_pong
  ping_client-Keeps config ping_id c socket now = ground arith

  module _ (f : ℕ → ClientConnection PacketId → UdpSocket → Visited PacketId)
      (keeps : (i : ℕ) (c : ClientConnection PacketId) (s : UdpSocket)
        → Keeps c.client_addr (f i c s).1) where
    slots_of-each_client :
        (a : SocketAddr) (i : ℕ) (clients : List (Option (ClientConnection PacketId)))
        (socket : UdpSocket)
        → slots_of a (each_client f i clients socket).1 ≤ slots_of a clients
    unfolding slots_of each_client
    slots_of-each_client a i [] socket = omega arith
    slots_of-each_client a i (none ∷ clients) socket = slots_of-each_client a (suc i) clients socket
    slots_of-each_client a i (some c ∷ clients) socket =
        kept (each_client f (suc i) clients (f i c socket).2).1 clients (f i c socket).1
          (keeps i c socket) (slots_of-each_client a (suc i) clients (f i c socket).2)
      where
        kept :
            (after before : List (Option (ClientConnection PacketId)))
            (slot : Option (ClientConnection PacketId))
            → Keeps c.client_addr slot
            → slots_of a after ≤ slots_of a before
            → slots_of a (slot ∷ after) ≤ slots_of a (some c ∷ before)
        kept after before none k h = omega arith
        kept after before (some d) k h = ground arith

    -- A client that is still there after the loop is in the slot where it was.
    pub each_client-stable :
        (i j : ℕ) (clients : List (Option (ClientConnection PacketId))) (socket : UdpSocket)
        (d : ClientConnection PacketId)
        → get_elem? (each_client f i clients socket).1 j ≡ some (some d)
        → (c : ClientConnection PacketId) × (get_elem? clients j ≡ some (some c))
          × (d.client_addr ≡ c.client_addr)
    unfolding each_client
    each_client-stable i j [] socket d h = cc
    each_client-stable i zero (none ∷ clients) socket d h = cc
    each_client-stable i (suc j) (none ∷ clients) socket d h =
        each_client-stable (suc i) j clients socket d h
    each_client-stable i zero (some c ∷ clients) socket d h =
        (c, refl, same (f i c socket).1 (keeps i c socket) h)
      where
        same :
            (slot : Option (ClientConnection PacketId))
            → Keeps c.client_addr slot
            → some slot ≡ some (some d)
            → d.client_addr ≡ c.client_addr
        same none k e = cc
        same (some x) k e = ground arith
    each_client-stable i (suc j) (some c ∷ clients) socket d h =
        each_client-stable (suc i) j clients (f i c socket).2 d h

  pub send_pings-IsValid :
      (s : Server PacketId) (fresh : ℕ → PacketId) (now : ℕ)
      → IsValid s
      → IsValid (send_pings s fresh now).1
  unfolding send_pings registrations
  send_pings-IsValid s fresh now v b = omega (
    arith,
    v b,
    slots_of-each_client (λ i c socket. ping_client s.config (fresh i) c socket now)
        (λ i c socket. ping_client-Keeps s.config (fresh i) c socket now) b 0 s.clients s.socket,
  )

module _ {PacketId : Type 0} ⦃o : Ord PacketId⦄ ⦃u : Uuid PacketId⦄ where
  pub update_client-Keeps :
      (config : ServerConfig) (c : ClientConnection PacketId) (socket : UdpSocket) (now : ℕ)
      → Keeps c.client_addr (update_client config c socket now).1
  unfolding update_client
  update_client-Keeps config c socket now = ground arith

  pub update_buffers-IsValid :
      (s : Server PacketId) (now : ℕ) → IsValid s → IsValid (update_buffers s now).1
  unfolding update_buffers registrations
  update_buffers-IsValid s now v b =
      let f : ℕ → ClientConnection PacketId → UdpSocket → Visited PacketId =
        λ _ c socket. update_client s.config c socket now in
      omega (
        arith,
        v b,
        slots_of-take b (first_empty_slot 0 s.clients) (each_client f 0 s.clients s.socket).1,
        slots_of-each_client f (λ i c socket. update_client-Keeps s.config c socket now) b 0
            s.clients s.socket,
      )

  pub handle_version_request-IsValid :
      (s s' : Server PacketId) (version : List ℕ) (a : SocketAddr) (events : List (Event PacketId))
      → handle_version_request s version a (is_some (get a s.listeners)) ≡ some (events, s')
      → IsValid s
      → IsValid s'
  unfolding handle_version_request version_sent registrations
  handle_version_request-IsValid s s' version a events h v b = ground (
    arith,
    h,
    v b,
    slots_of-none a s.clients,
    get-insert a b (Buffers.new s.config.connection.initial_send_batch_size) s.listeners,
  )
