-- ===== src/Client/Moves.antt =====
-- The state of a client's connection in src/net/client.rs as a state machine, and which of its moves
-- the client's operations make.
use packet_test.Common.{
  ℕ, zero, suc, ◌≡◌, refl, sym, arith, List, [], ◌∷◌, ◌++◌, map, Option, none, some, Bool, true,
  false, not, ◌&&◌, ◌==◌, if◌then◌else◌, get_elem?, Option-cases, ◌⊎◌, ◌≢◌, inl, inr,
}
use mathlib.Core.Path.{subst, subst₂}
use packet_test.Common.Dict.{Ord}
use packet_test.Config.{ClientConfig}
use packet_test.Socket.{SocketAddr, UdpSocket, recv}
use packet_test.Handler.Buffers.{handle_buffers}
use packet_test.Packet.Kind.{Uuid}
use packet_test.Packet.Packets.{Packets, ServerConnectionPacket, Rkyv}
use packet_test.Packet.Buffers.{PacketBuffers}
use packet_test.Client.{
  ClientState, ServerState, ServerListener, Client, is_disconnected, position, disconnected,
  connecting, connected, ServerState-cases,
}
use packet_test.Client.Requests.{with_state}
use packet_test.Client.Update.{update_listener, update_each, update_listeners, timeout_connection}
use packet_test.Client.Receive.{
  Call, ClientHandler, handle_packet, handle_ping, handle_version, handle_compatible,
  handle_datagram, handle_datagrams, update, error,
}

-- The moves that datagrams and time may make.
pub data Received : ClientState → ClientState → Type 0 where
  stays : (s : ClientState) → Received s s
  accepts : Received connecting connected
  drops : (s : ClientState) → Received s disconnected

-- The same as equations.
abbrev IsReceived : ClientState → ClientState → Type 0
IsReceived s t = (t ≡ s) ⊎ ((s ≡ connecting) × (t ≡ connected)) ⊎ (t ≡ disconnected)

IsReceived-Received : (s t : ClientState) → IsReceived s t → Received s t
IsReceived-Received s t (inl h) = subst (λ x. Received s x) (sym h) (stays s)
IsReceived-Received s t (inr (inl (h, k))) = subst₂ (λ x y. Received x y) (sym h) (sym k) accepts
IsReceived-Received s t (inr (inr h)) = subst (λ x. Received s x) (sym h) (drops s)

module _ {E PacketId : Type 0} where
  position_not_head :
      (a : SocketAddr) (ls : List (ServerListener E PacketId)) (l : ServerListener E PacketId)
      → get_elem? ls 0 ≡ some l
      → (l.server_addr == a) ≡ false
      → position a ls ≢ some 0
  unfolding position
  position_not_head a [] l h other e = cc
  position_not_head a (k ∷ ls) l h other e = ground (arith, h, other, e)

  timeout_connection-IsReceived :
      (c : Client E PacketId) (now : ℕ) → IsReceived c.state (timeout_connection c now).1.state
  unfolding timeout_connection
  timeout_connection-IsReceived c now = ground arith

module _ {E PacketId : Type 0} ⦃o : Ord PacketId⦄ ⦃u : Uuid PacketId⦄ where
  update_listener_slot :
      (l : ServerListener E PacketId) (socket : UdpSocket) (state : Option ClientState)
      (config : ClientConfig) (now : ℕ)
      → ((update_listener l socket state config now).2 ≡ state)
        ⊎ ((update_listener l socket state config now).2 ≡ some disconnected)
  unfolding update_listener
  update_listener_slot l socket state config now = elim (ServerState-cases l.state) [
    | inl (v, x) ↦ ground (arith, x)
    | inr (inl (b, last, x)) ↦ ground (arith, x)
    | inr (inr (r, x)) ↦ ground (arith, x)
  ]

  update_each_slot :
      (ls : List (ServerListener E PacketId)) (socket : UdpSocket) (state : Option ClientState)
      (config : ClientConfig) (now : ℕ)
      → ((update_each ls socket state config now).2 ≡ state)
        ⊎ ((update_each ls socket state config now).2 ≡ some disconnected)
  unfolding update_each
  update_each_slot [] socket state config now = inl refl
  update_each_slot (l ∷ ls) socket state config now =
      ground (arith, update_listener_slot l socket state config now)

  update_listeners-IsReceived :
      (c : Client E PacketId) (now : ℕ) → IsReceived c.state (update_listeners c now).1.state
  unfolding update_listeners
  update_listeners-IsReceived c now = ground (
    arith,
    update_each_slot c.listeners c.socket (if is_disconnected c.state then none else some c.state)
        c.config now,
  )

module _ (P : Packets) (PacketId : Type 0) where
  handle_packet-IsReceived :
      (connection : Bool) (state : ClientState) (addr : SocketAddr)
      (packet : ServerConnectionPacket P)
      → ((handle_packet {PacketId = PacketId} connection state addr packet).1 ≡ state)
        ⊎ ((connection ≡ true)
            × IsReceived state (handle_packet {PacketId = PacketId} connection state addr packet).1)
  unfolding handle_packet
  handle_packet-IsReceived connection state addr (ServerConnectionPacket.status x) = inl refl
  handle_packet-IsReceived connection state addr (ServerConnectionPacket.accept x) = ground arith
  handle_packet-IsReceived connection state addr (ServerConnectionPacket.reject x) = ground arith
  handle_packet-IsReceived connection state addr (ServerConnectionPacket.kick x) = ground arith
  handle_packet-IsReceived connection state addr (ServerConnectionPacket.user x) = ground arith

  handle_ping-IsReceived :
      (c : Client P.CompatibilityError PacketId) (a : SocketAddr) (buf : List ℕ)
      → IsReceived c.state (handle_ping {P = P} c a buf).1.state
  unfolding handle_ping
  handle_ping-IsReceived c a buf = ground arith

-- What a datagram of the listener at `index` does to the state: nothing, unless it is the first.
abbrev IsHeard : ℕ → ClientState → ClientState → Type 0
IsHeard index s t = (t ≡ s) ⊎ ((index ≡ 0) × IsReceived s t)

module _ {P : Packets} {PacketId : Type 0} ⦃o : Ord PacketId⦄ ⦃u : Uuid PacketId⦄ (rkyv : Rkyv P)
    (handler : ClientHandler P PacketId) where
  handle_version_state :
      (log : List (Call P PacketId)) (c : Client P.CompatibilityError PacketId) (index : ℕ)
      (l : ServerListener P.CompatibilityError PacketId) (buf : List ℕ) (now : ℕ)
      → (handle_version rkyv handler log c index l buf now).1.state ≡ c.state
  unfolding handle_version
  handle_version_state log c index l [] now = refl
  handle_version_state log c index l (kind ∷ rest) now = ground arith

  handle_compatible-IsHeard :
      (c : Client P.CompatibilityError PacketId) (index : ℕ)
      (l : ServerListener P.CompatibilityError PacketId) (b : PacketBuffers PacketId) (buf : List ℕ)
      (now : ℕ) (calls : List (Call P PacketId)) (c' : Client P.CompatibilityError PacketId)
      → handle_compatible rkyv handler c index l b buf now ≡ some (calls, c')
      → IsHeard index c.state c'.state
  unfolding handle_compatible
  handle_compatible-IsHeard c index l b buf now calls c' e =
      elim (Option-cases (handle_buffers rkyv.check_server b buf c.socket l.server_addr now)) [
        | inl h ↦ absurd (ground (arith, h, e))
        | inr (((none, reports), b', socket), h) ↦ inl (ground (arith, h, e))
        | inr (((some packet, reports), b', socket), h) ↦ ground (
          arith,
          h,
          e,
          handle_packet-IsReceived P PacketId (index == 0 && not (is_disconnected c.state)) c.state
              l.server_addr packet,
        )
      ]

  handle_datagram_heard :
      (log : List (Call P PacketId)) (c : Client P.CompatibilityError PacketId) (a : SocketAddr)
      (buf : List ℕ) (now : ℕ) (calls : List (Call P PacketId))
      (c' : Client P.CompatibilityError PacketId)
      → handle_datagram rkyv handler log c a buf now ≡ some (calls, c')
      → (c'.state ≡ c.state) ⊎ ((position a c.listeners ≡ some 0) × IsReceived c.state c'.state)
  unfolding handle_datagram
  handle_datagram_heard log c a buf now calls c' e = elim (Option-cases (position a c.listeners)) [
    | inl h ↦ inl (ground (arith, h, e))
    | inr (index, h) ↦ elim (Option-cases (get_elem? c.listeners index)) [
      | inl k ↦ absurd (ground (arith, h, k, e))
      | inr (l, k) ↦ elim (ServerState-cases l.state) [
        | inl (v, x) ↦ ground (arith, h, k, x, e, handle_version_state log c index l buf now)
        | inr (inl (b, last, x)) ↦ ground (
          arith,
          h,
          k,
          x,
          e,
          handle_compatible-IsHeard c index l b buf now calls c',
          handle_ping-IsReceived P PacketId
              (with_state c index l (ServerState.compatible b now) c.socket) a buf,
        )
        | inr (inr (r, x)) ↦ ground (arith, h, k, x, e)
      ]
    ]
  ]

  -- A datagram leaves the state of the client as it is, unless it comes from the first of its
  -- listeners.
  pub handle_datagram_first :
      (log : List (Call P PacketId)) (c : Client P.CompatibilityError PacketId) (a : SocketAddr)
      (buf : List ℕ) (now : ℕ) (calls : List (Call P PacketId))
      (c' : Client P.CompatibilityError PacketId) (l : ServerListener P.CompatibilityError PacketId)
      → get_elem? c.listeners 0 ≡ some l
      → (l.server_addr == a) ≡ false
      → handle_datagram rkyv handler log c a buf now ≡ some (calls, c')
      → c'.state ≡ c.state
  handle_datagram_first log c a buf now calls c' l first other e =
      elim (handle_datagram_heard log c a buf now calls c' e) [
        | inl same ↦ same
        | inr (found, r) ↦ absurd (position_not_head a c.listeners l first other found)
      ]

  handle_datagrams-IsReceived :
      (fuel : ℕ) (log : List (Call P PacketId)) (c : Client P.CompatibilityError PacketId) (now : ℕ)
      (log' : List (Call P PacketId)) (c' : Client P.CompatibilityError PacketId)
      → handle_datagrams rkyv handler fuel log c now ≡ some (some (log', c'))
      → IsReceived c.state c'.state
  unfolding handle_datagrams
  handle_datagrams-IsReceived zero log c now log' c' h = cc
  handle_datagrams-IsReceived (suc fuel) log c now log' c' h =
      elim (Option-cases (recv c.socket).0) [
        | inl k ↦ ground (arith, k, h)
        | inr ((a, buf), k) ↦
            elim (Option-cases (
              handle_datagram rkyv handler log (record c { socket = (recv c.socket).2 }) a buf
                now)) [
                  | inl e ↦ absurd (ground (arith, k, e, h))
                  | inr ((calls, c₁), e) ↦ ground (
                    arith,
                    handle_datagram_heard log (record c { socket = (recv c.socket).2 }) a buf now
                        calls c₁ e,
                    handle_datagrams-IsReceived fuel (log ++ calls) c₁ now log' c'
                        (ground (arith, k, e, h)),
                  )
                ]
      ]

  -- A whole `update`, of which every datagram is handled, keeps the client's state, makes it connected
  -- where it was connecting, or disconnects it. So it never starts a connection, and only a client
  -- that is connecting gets connected.
  pub update-Received :
      (fuel : ℕ) (log : List (Call P PacketId)) (c : Client P.CompatibilityError PacketId) (now : ℕ)
      (log' : List (Call P PacketId)) (c' : Client P.CompatibilityError PacketId)
      → update rkyv handler fuel log c now ≡ some (some (log', c'))
      → Received c.state c'.state
  unfolding update
  update-Received fuel log c now log' c' h =
      elim (Option-cases (
        handle_datagrams rkyv handler fuel (log ++ map error (update_listeners c now).0)
          (update_listeners c now).1 now)) [
            | inl k ↦ absurd (ground (arith, k, h))
            | inr (none, k) ↦ absurd (ground (arith, k, h))
            | inr (some (log₂, c₂), k) ↦ IsReceived-Received c.state c'.state (
                ground (
                  arith,
                  k,
                  h,
                  update_listeners-IsReceived c now,
                  handle_datagrams-IsReceived fuel (log ++ map error (update_listeners c now).0)
                      (update_listeners c now).1 now log₂ c₂ k,
                  timeout_connection-IsReceived c₂ now,
                ))
          ]
