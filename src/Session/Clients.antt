-- ===== src/Session/Clients.antt =====
-- What a server of src/net/server.rs does with the datagrams of one address, where packets fit one
-- part and the sockets take what is sent.
use packet_test.Common.{
  ℕ, ◌≡◌, ◌≤◌, refl, arith, List, [], ◌∷◌, ◌++◌, Option, none, some, ok, false, length,
}
use packet_test.Common.Dict.{Ord, nat_ord, get, insert, get-insert}
use packet_test.Socket.{SocketAddr}
use packet_test.Handler.{raw_packet, RawPacket}
use packet_test.Handler.Buffers.Single.{
  Took, arrival, handle_buffers-single, handle_buffers-ack_single, send-single_Took,
}
use packet_test.Packet.Kind.{Uuid, last_part, to_byte, from_byte}
use packet_test.Packet.Frame.{frame, ack_bytes}
use packet_test.Packet.Buffer.{PacketBuffer}
use packet_test.Packet.Out.{PacketOut}
use packet_test.Packet.Exchange.Sender.{Underway}
use packet_test.Packet.Serialize.VecRun.{flat}
use packet_test.Packet.Buffers.{PacketBuffers}
use packet_test.Packet.Packets.{Packets, ServerConnectionPacket, ClientConnectionPacket, Rkyv}
use packet_test.Server.{ClientConnection, Server, client, vacate, disconnect_client}
use packet_test.Server.Handle.{
  Call, ServerHandler, reported, with_client, replace_client, handle_client_packet, packet,
  disconnect, send_raw,
}
use packet_test.Server.Loop.{settle_client, handle_client, handle_datagram}
use packet_test.Server.Pong.{client-replace_client}
use packet_test.Server.Registry.{IsValid, registrations, slots_of, slots_of-vacate}
use packet_test.Server.Served.{slots_of-replace_client}

module _ {PacketId : Type 0} where
  client-vacated :
      (a : SocketAddr) (clients : List (Option (ClientConnection PacketId)))
      → slots_of a clients ≡ 0
      → client a clients ≡ none
  unfolding client slots_of
  client-vacated a [] h = refl
  client-vacated a (none ∷ clients) h = client-vacated a clients h
  client-vacated a (some d ∷ clients) h = ground (arith, h, client-vacated a clients)

  -- The one slot of an address is free once it is vacated.
  client-vacate :
      (s : Server PacketId) (a : SocketAddr) (c d : ClientConnection PacketId)
      → IsValid s
      → client a (replace_client d s.clients) ≡ some c
      → client a (vacate a (replace_client d s.clients)) ≡ none
  unfolding registrations
  client-vacate s a c d once found = client-vacated a (vacate a (replace_client d s.clients)) (
      ground (
        arith,
        once a,
        slots_of-replace_client a d s.clients,
        slots_of-vacate a a (replace_client d s.clients) c found,
      ))

module _ {P : Packets} {PacketId : Type 0} ⦃o : Ord PacketId⦄ ⦃u : Uuid PacketId⦄
    (rkyv : Rkyv P) where
  -- A packet that the server's user sends to a client.
  pub send_raw-single :
      (s : Server PacketId) (a : SocketAddr) (c : ClientConnection PacketId) (id : PacketId)
      (whole : ServerConnectionPacket P) (now : ℕ)
      → client a s.clients ≡ some c
      → c.client_addr ≡ a
      → length (flat (rkyv.write_server whole)) ≤ 491
      → 1 ≤ c.buffers.send_buffer.batch_size
      → s.socket.answers ≡ []
      → (s' : Server PacketId) × (c' : ClientConnection PacketId) × (p : PacketOut)
        × (buffer : PacketBuffer) × (send_raw rkyv s a id whole now ≡ some (some (ok id, s')))
        × (client a s'.clients ≡ some c')
        × (c'.client_addr ≡ a)
        × (get id c'.buffers.send_buffer.packets ≡ some p)
        × Underway p buffer now 0
        × (buffer.acked ≡ false)
        × Took s.socket s'.socket ((a, frame last_part id 0 (flat (rkyv.write_server whole))) ∷ [])
  unfolding send_raw
  send_raw-single s a c id whole now found at short some_size quiet =
      let (b', s', p, buffer, sent, same, there, under, unacked, took) =
        send-single_Took c.buffers id (rkyv.write_server whole)
          s.config.connection.background_serialization_threshold s.socket a now short some_size
          quiet in
      let c' : ClientConnection PacketId = record c { buffers = b' } in
      (
        with_client s c' s'.socket,
        c',
        p,
        buffer,
        ground (arith, found, sent),
        ground (arith, at, client-replace_client c c' s.clients, found),
        at,
        there,
        under,
        unacked,
        took,
      )

module _ {P : Packets} {PacketId : Type 0} ⦃o : Ord PacketId⦄ ⦃u : Uuid PacketId⦄ (rkyv : Rkyv P)
    (handler : ServerHandler P PacketId) where
  -- A packet of the user's from a client, which the handler is given.
  pub hears_user :
      (log : List (Call P PacketId)) (s : Server PacketId) (a : SocketAddr)
      (c : ClientConnection PacketId) (fresh_id id : PacketId) (payload : List ℕ) (x : P.Client)
      (now : ℕ)
      → client a s.clients ≡ some c
      → c.client_addr ≡ a
      → rkyv.check_client payload ≡ some (ClientConnectionPacket.user x)
      → get id c.buffers.receive_buffer.packets ≡ none
      → s.socket.answers ≡ []
      → (s' : Server PacketId) × (c' : ClientConnection PacketId) × (handle_datagram rkyv handler
            log s fresh_id a
            (frame last_part id 0 payload)
            now
          ≡ some (reported (arrival a) ++ (packet a x ∷ []), s'))
        × (client a s'.clients ≡ some c')
        × (c'.client_addr ≡ a)
        × (c'.buffers.send_buffer ≡ c.buffers.send_buffer)
        × (s'.listeners ≡ s.listeners)
        × Took s.socket s'.socket ((a, ack_bytes id 0) ∷ [])
  unfolding handle_datagram handle_client handle_client_packet settle_client to_byte from_byte frame
  hears_user log s a c fresh_id id payload x now found at valid fresh quiet =
      let (b', s', handled, same, took) =
        handle_buffers-single rkyv.check_client c.buffers id payload (ClientConnectionPacket.user x)
          s.socket a now valid fresh quiet in
      let c' : ClientConnection PacketId = record c { buffers = b' } in
      (
        with_client s c' s',
        c',
        ground (arith, found, at, handled),
        ground (arith, at, client-replace_client c c' s.clients, found),
        at,
        same,
        refl,
        took,
      )

  -- A client that disconnects, as the handler is told: it is a listener again.
  pub hears_disconnect :
      (log : List (Call P PacketId)) (s : Server PacketId) (a : SocketAddr)
      (c : ClientConnection PacketId) (fresh_id id : PacketId) (payload : List ℕ) (x : P.Disconnect)
      (now : ℕ)
      → IsValid s
      → client a s.clients ≡ some c
      → c.client_addr ≡ a
      → rkyv.check_client payload ≡ some (ClientConnectionPacket.disconnect x)
      → get id c.buffers.receive_buffer.packets ≡ none
      → s.socket.answers ≡ []
      → (s' : Server PacketId) × (b' : PacketBuffers PacketId) × (handle_datagram rkyv handler log s
            fresh_id a
            (frame last_part id 0 payload)
            now
          ≡ some (reported (arrival a) ++ (disconnect a x ∷ []), s'))
        × (client a s'.clients ≡ none)
        × (get a s'.listeners ≡ some b')
        × Took s.socket s'.socket ((a, ack_bytes id 0) ∷ [])
  unfolding handle_datagram handle_client handle_client_packet settle_client disconnect_client
      to_byte from_byte frame
  hears_disconnect log s a c fresh_id id payload x now once found at valid fresh quiet =
      let (b', s', handled, same, took) =
        handle_buffers-single rkyv.check_client c.buffers id payload
          (ClientConnectionPacket.disconnect x) s.socket a now valid fresh quiet in
      let c' : ClientConnection PacketId = record c { buffers = b' } in
      let still : client a (replace_client c' s.clients) ≡ some c' =
        ground (arith, at, client-replace_client c c' s.clients, found) in
      (
        record (with_client s c' s') {
          clients = vacate a (replace_client c' s.clients);
          listeners = insert a b' s.listeners;
        },
        b',
        ground (arith, found, at, handled, still),
        client-vacate s a c' c' once still,
        ground (arith, get-insert a a b' s.listeners),
        took,
      )

  -- The ack of a packet that is under way to a client.
  pub keeps_acked_client :
      (log : List (Call P PacketId)) (s : Server PacketId) (a : SocketAddr)
      (c : ClientConnection PacketId) (fresh_id id : PacketId) (p : PacketOut)
      (buffer : PacketBuffer) (sent now : ℕ)
      → client a s.clients ≡ some c
      → c.client_addr ≡ a
      → get id c.buffers.send_buffer.packets ≡ some p
      → Underway p buffer sent 0
      → buffer.acked ≡ false
      → (s' : Server PacketId) × (c' : ClientConnection PacketId) × (handle_datagram rkyv handler
            log s fresh_id a
            (ack_bytes id 0)
            now
          ≡ some (reported (raw_packet (RawPacket.ack a false) ∷ []), s'))
        × (client a s'.clients ≡ some c')
        × (s'.socket ≡ s.socket)
  unfolding handle_datagram handle_client to_byte from_byte ack_bytes
  keeps_acked_client log s a c fresh_id id p buffer sent now found at there under unacked =
      let (b', handled, same, size) =
        handle_buffers-ack_single rkyv.check_client c.buffers id p buffer sent s.socket a now there
          under unacked in
      let c' : ClientConnection PacketId = record c { buffers = b' } in
      (
        with_client s c' s.socket,
        c',
        ground (arith, found, at, handled),
        ground (arith, at, client-replace_client c c' s.clients, found),
        refl,
      )
