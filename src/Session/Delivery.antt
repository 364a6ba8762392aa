-- ===== src/Session/Delivery.antt =====
-- What a client of src/net/client.rs does with the datagrams of its first server, where packets fit
-- one part and the sockets take what is sent.
use packet_test.Common.{
  ℕ, ◌≡◌, ◌≤◌, refl, arith, List, [], ◌∷◌, ◌++◌, map, none, some, ok, false, not, length, get_elem?,
  set,
}
use packet_test.Common.Dict.{Ord, get}
use packet_test.Socket.{SocketAddr}
use packet_test.Handler.{raw_packet, RawPacket}
use packet_test.Handler.Buffers.Single.{
  Took, arrival, handle_buffers-single, handle_buffers-ack_single, send-single_Took,
}
use packet_test.Packet.Kind.{Uuid, last_part, to_byte, from_byte}
use packet_test.Packet.Frame.{frame, ack_bytes}
use packet_test.Packet.Buffer.{PacketBuffer}
use packet_test.Packet.Serialize.VecRun.{flat}
use packet_test.Packet.Out.{PacketOut}
use packet_test.Packet.Buffers.{PacketBuffers}
use packet_test.Packet.Packets.{Packets, ServerConnectionPacket, Rkyv}
use packet_test.Packet.Exchange.Sender.{Underway}
use packet_test.Client.{
  ClientState, ServerState, ServerListener, Client, is_disconnected, disconnected, connecting,
}
use packet_test.Client.Requests.{get_or_add_listener}
use packet_test.Client.Connection.{send_to_listener, query, connect, send_connected}
use packet_test.Client.Receive.{
  Call, report, ClientHandler, handle_packet, handle_compatible, handle_datagram,
}
use packet_test.Session.{position_head}

-- The client's first listener is for the server `addr`, which is compatible, with these buffers.
abbrev pub First :
    {E PacketId : Type 0} → Client E PacketId → SocketAddr → PacketBuffers PacketId → Type 0
First {E = E} {PacketId = PacketId} c addr b =
    (l : ServerListener E PacketId) × (last : ℕ) × (get_elem? c.listeners 0 ≡ some l)
    × (l.server_addr ≡ addr)
    × (l.state ≡ ServerState.compatible b last)

module _ {E PacketId : Type 0} where
  get_elem?-set_first :
      (ls : List (ServerListener E PacketId)) (l m : ServerListener E PacketId)
      → get_elem? ls 0 ≡ some l
      → get_elem? (set ls 0 m) 0 ≡ some m
  get_elem?-set_first [] l m h = cc
  get_elem?-set_first (x ∷ ls) l m h = refl

module _ {E PacketId : Type 0} ⦃o : Ord PacketId⦄ ⦃u : Uuid PacketId⦄ where
  -- `connect` to that server, from a client that is disconnected.
  pub connect-single :
      (c : Client E PacketId) (addr : SocketAddr) (b : PacketBuffers PacketId) (id : PacketId)
      (writes : List (List ℕ)) (now : ℕ)
      → First c addr b
      → c.state ≡ disconnected
      → length (flat writes) ≤ 491
      → 1 ≤ b.send_buffer.batch_size
      → c.socket.answers ≡ []
      → (c' : Client E PacketId) × (b' : PacketBuffers PacketId) × (p : PacketOut)
        × (buffer : PacketBuffer) × (connect c (ok addr) id writes now ≡ some (ok id, c'))
        × (c'.state ≡ connecting)
        × First c' addr b'
        × (b'.receive_buffer ≡ b.receive_buffer)
        × (get id b'.send_buffer.packets ≡ some p)
        × Underway p buffer now 0
        × (buffer.acked ≡ false)
        × Took c.socket c'.socket ((addr, frame last_part id 0 (flat writes)) ∷ [])
  unfolding connect query get_or_add_listener send_to_listener
  connect-single c addr b id writes now (l, last, first, at, compatible) idle short some_size
        quiet =
      let (b', s', p, buffer, sent, same, found, under, unacked, took) =
        send-single_Took b id writes c.config.connection.background_serialization_threshold c.socket
          addr now short some_size quiet in
      let l' : ServerListener E PacketId = record l { state = ServerState.compatible b' last } in
      (
        record c { state = connecting; socket = s'.socket; listeners = set c.listeners 0 l' },
        b',
        p,
        buffer,
        ground (arith, idle, first, at, compatible, sent, position_head c.listeners l first),
        refl,
        (l', last, get_elem?-set_first c.listeners l l' first, at, refl),
        same,
        found,
        under,
        unacked,
        took,
      )

  -- `send` and `disconnect`, from a client that is connected to that server; they lead to `next`.
  pub send_connected-single :
      (c : Client E PacketId) (next : ClientState) (addr : SocketAddr) (b : PacketBuffers PacketId)
      (id : PacketId) (writes : List (List ℕ)) (now : ℕ)
      → First c addr b
      → length (flat writes) ≤ 491
      → 1 ≤ b.send_buffer.batch_size
      → c.socket.answers ≡ []
      → (c' : Client E PacketId) × (b' : PacketBuffers PacketId) × (p : PacketOut)
        × (buffer : PacketBuffer) × (send_connected c next id writes now ≡ some (ok id, c'))
        × (c'.state ≡ next)
        × First c' addr b'
        × (b'.receive_buffer ≡ b.receive_buffer)
        × (get id b'.send_buffer.packets ≡ some p)
        × Underway p buffer now 0
        × (buffer.acked ≡ false)
        × Took c.socket c'.socket ((addr, frame last_part id 0 (flat writes)) ∷ [])
  unfolding send_connected
  send_connected-single c next addr b id writes now (l, last, first, at, compatible) short some_size
        quiet =
      let (b', s', p, buffer, sent, same, found, under, unacked, took) =
        send-single_Took b id writes c.config.connection.background_serialization_threshold c.socket
          addr now short some_size quiet in
      let l' : ServerListener E PacketId = record l { state = ServerState.compatible b' last } in
      (
        record c { listeners = set c.listeners 0 l'; socket = s'.socket; state = next },
        b',
        p,
        buffer,
        ground (arith, first, at, compatible, sent),
        refl,
        (l', last, get_elem?-set_first c.listeners l l' first, at, refl),
        same,
        found,
        under,
        unacked,
        took,
      )

module _ {P : Packets} {PacketId : Type 0} ⦃o : Ord PacketId⦄ ⦃u : Uuid PacketId⦄ (rkyv : Rkyv P)
    (handler : ClientHandler P PacketId) where
  -- The ack of a packet under way.
  pub hears_ack :
      (log : List (Call P PacketId)) (c : Client P.CompatibilityError PacketId) (addr : SocketAddr)
      (b : PacketBuffers PacketId) (id : PacketId) (p : PacketOut) (buffer : PacketBuffer)
      (sent now : ℕ)
      → First c addr b
      → get id b.send_buffer.packets ≡ some p
      → Underway p buffer sent 0
      → buffer.acked ≡ false
      → (c' : Client P.CompatibilityError PacketId) × (b' : PacketBuffers PacketId)
        × (handle_datagram rkyv handler log c addr (ack_bytes id 0) now
            ≡ some (report (raw_packet (RawPacket.ack addr false)) ∷ [], c'))
        × (c'.state ≡ c.state)
        × First c' addr b'
        × (b'.receive_buffer ≡ b.receive_buffer)
        × (c'.socket ≡ c.socket)
  unfolding handle_datagram handle_compatible to_byte from_byte ack_bytes
  hears_ack log c addr b id p buffer sent now (l, last, first, at, compatible) found under unacked =
      let (b', handled, same, size) =
        handle_buffers-ack_single rkyv.check_server b id p buffer sent c.socket addr now found under
          unacked in
      let l' : ServerListener P.CompatibilityError PacketId = record l {
        state = ServerState.compatible b' now;
      } in
      (
        record c { listeners = set c.listeners 0 l' },
        b',
        ground (arith, first, at, compatible, handled, position_head c.listeners l first),
        refl,
        (l', now, get_elem?-set_first c.listeners l l' first, at, refl),
        same,
        refl,
      )

  -- A new packet: what the client makes of it is what `handle_packet` says.
  pub hears :
      (log : List (Call P PacketId)) (c : Client P.CompatibilityError PacketId) (addr : SocketAddr)
      (b : PacketBuffers PacketId) (id : PacketId) (payload : List ℕ)
      (whole : ServerConnectionPacket P) (now : ℕ)
      → First c addr b
      → rkyv.check_server payload ≡ some whole
      → get id b.receive_buffer.packets ≡ none
      → c.socket.answers ≡ []
      → let (call, state) = handle_packet (not (is_disconnected c.state)) c.state addr whole in
        (c' : Client P.CompatibilityError PacketId) × (b' : PacketBuffers PacketId)
        × (handle_datagram rkyv handler log c addr (frame last_part id 0 payload) now
            ≡ some (map report (arrival addr) ++ (call ∷ []), c'))
        × (c'.state ≡ state)
        × First c' addr b'
        × (b'.send_buffer ≡ b.send_buffer)
        × Took c.socket c'.socket ((addr, ack_bytes id 0) ∷ [])
  unfolding handle_datagram handle_compatible to_byte from_byte frame
  hears log c addr b id payload whole now (l, last, first, at, compatible) valid fresh quiet =
      let (b', s', handled, same, took) =
        handle_buffers-single rkyv.check_server b id payload whole c.socket addr now valid fresh
          quiet in
      let l' : ServerListener P.CompatibilityError PacketId = record l {
        state = ServerState.compatible b' now;
      } in
      (
        record c {
          listeners = set c.listeners 0 l';
          socket = s';
          state = (handle_packet (not (is_disconnected c.state)) c.state addr whole).1;
        },
        b',
        ground (arith, first, at, compatible, handled, position_head c.listeners l first),
        refl,
        (l', now, get_elem?-set_first c.listeners l l' first, at, refl),
        same,
        took,
      )
