-- ===== src/Session/Service.antt =====
-- What a server of src/net/server.rs does with the datagrams of one address, where packets fit one
-- part and the sockets take what is sent.
use mathlib.Core.Path.{subst}
use packet_test.Common.{
  sym, ℕ, ◌≡◌, ◌≤◌, refl, arith, List, [], ◌∷◌, ◌++◌, Option, none, some, length,
}
use packet_test.Common.Dict.{Ord, nat_ord, get, remove, get-insert, get-remove}
use packet_test.Socket.{SocketAddr}
use packet_test.Handler.Buffers.Single.{
  Took, Took-append, arrival, handle_buffers-single, send-single_Took,
}
use packet_test.Packet.Kind.{Uuid, last_part, to_byte, from_byte}
use packet_test.Packet.Frame.{frame, ack_bytes}
use packet_test.Packet.Serialize.VecRun.{flat}
use packet_test.Packet.Buffers.{PacketBuffers}
use packet_test.Packet.Packets.{Packets, ServerConnectionPacket, ClientConnectionPacket, Rkyv}
use packet_test.Server.{ClientConnection, Server, client, place, new, accept_client}
use packet_test.Server.Handle.{
  Call, connect, accept, ServerHandler, reported, reply, answered, handle_connect,
  handle_listener_packet, with_listener,
}
use packet_test.Server.Loop.{handle_listener, settle_listener, handle_datagram}

module _ {PacketId : Type 0} where
  client-place :
      (clients : List (Option (ClientConnection PacketId))) (c : ClientConnection PacketId)
      → client c.client_addr clients ≡ none
      → client c.client_addr (place clients c) ≡ some c
  unfolding client place
  client-place [] c h = ground arith
  client-place (none ∷ clients) c h = ground arith
  client-place (some d ∷ clients) c h = ground (arith, h, client-place clients c)

  accept_client-registered :
      (s : Server PacketId) (a : SocketAddr) (b : PacketBuffers PacketId)
      → get a s.listeners ≡ some b
      → client a s.clients ≡ none
      → (s' : Server PacketId) × (accept_client s a ≡ some s')
        × (client a s'.clients ≡ some (new a b))
        × (get a s'.listeners ≡ none)
        × (s'.socket ≡ s.socket)
  unfolding accept_client new
  accept_client-registered s a b h k = (
    record s { listeners = remove a s.listeners; clients = place s.clients (new a b) },
    ground (arith, h),
    client-place s.clients (new a b) k,
    ground (arith, get-remove a a s.listeners),
    refl,
  )

module _ {P : Packets} {PacketId : Type 0} ⦃o : Ord PacketId⦄ ⦃u : Uuid PacketId⦄ (rkyv : Rkyv P)
    (handler : ServerHandler P PacketId) where
  -- A request to connect, from an address that the server listens to, which the handler accepts.
  pub accepts :
      (log : List (Call P PacketId)) (s : Server PacketId) (a : SocketAddr)
      (b : PacketBuffers PacketId) (id answer_id : PacketId) (payload : List ℕ) (x : P.Connect)
      (answer : P.Accept) (now : ℕ)
      → get a s.listeners ≡ some b
      → client a s.clients ≡ none
      → rkyv.check_client payload ≡ some (ClientConnectionPacket.connect x)
      → get id b.receive_buffer.packets ≡ none
      → handler.connect (log ++ reported (arrival a)) a x ≡ accept answer
      → length (flat (rkyv.write_server (ServerConnectionPacket.accept answer))) ≤ 491
      → 1 ≤ b.send_buffer.batch_size
      → s.socket.answers ≡ []
      → (s' : Server PacketId) × (c : ClientConnection PacketId) × (handle_datagram rkyv handler log
            s answer_id a
            (frame last_part id 0 payload)
            now
          ≡ some (reported (arrival a) ++ (connect a x ∷ []), s'))
        × (client a s'.clients ≡ some c)
        × (get a s'.listeners ≡ none)
        × Took s.socket s'.socket (
            (a, ack_bytes id 0)
            ∷ (
              a,
              frame last_part answer_id 0
                  (flat (rkyv.write_server (ServerConnectionPacket.accept answer))),
            )
            ∷ [])
  unfolding handle_datagram handle_listener handle_listener_packet handle_connect settle_listener
      answered reply to_byte from_byte frame
  accepts log s a b id answer_id payload x answer now listening absent valid fresh decides short
        some_size quiet =
      let (b₁, s₁, handled, same, acked) =
        handle_buffers-single rkyv.check_client b id payload (ClientConnectionPacket.connect x)
          s.socket a now valid fresh quiet in
      let (b₂, s₂, p, buffer, sent, kept, found, under, unacked, replied) =
        send-single_Took b₁ answer_id (rkyv.write_server (ServerConnectionPacket.accept answer))
          s.config.connection.background_serialization_threshold s₁ a now short
          (ground (arith, same, some_size)) acked.ready in
      let (s', accepted, there, gone, socket) =
        accept_client-registered (with_listener s a b₂ s₂.socket) a b₂
          (ground (arith, get-insert a a b₂ s.listeners)) absent in
      (
        s',
        new a b₂,
        ground (arith, listening, absent, handled, decides, sent, accepted),
        there,
        gone,
        subst
            (λ q. Took s.socket q (
              (a, ack_bytes id 0)
              ∷ (
                a,
                frame last_part answer_id 0
                    (flat (rkyv.write_server (ServerConnectionPacket.accept answer))),
              )
              ∷ []))
            (sym socket)
            (Took-append ((a, ack_bytes id 0) ∷ [])
              ((
                a,
                frame last_part answer_id 0
                    (flat (rkyv.write_server (ServerConnectionPacket.accept answer))),
              )
                ∷ [])
              acked replied),
      )
