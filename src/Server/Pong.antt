-- ===== src/Server/Pong.antt =====
-- The pongs of src/net/server.rs.
use packet_test.Common.{ℕ, ◌≡◌, refl, arith, List, [], ◌∷◌, Option, none, some, true, false}
use packet_test.Common.Dict.{Ord}
use packet_test.Packet.Kind.{PacketKind, Uuid, to_byte, from_byte}
use packet_test.Packet.Packets.{Packets, Rkyv}
use packet_test.Server.{ActivePing, ClientConnection, Server, pong, client}
use packet_test.Server.Update.{timed_out}
use packet_test.Server.Handle.{Call, event, ServerHandler, replace_client, with_client, handle_pong}
use packet_test.Server.Loop.{handle_datagram}

module _ {PacketId : Type 0} where
  pub client-replace_client :
      (c d : ClientConnection PacketId) (clients : List (Option (ClientConnection PacketId)))
      → client d.client_addr clients ≡ some c
      → client d.client_addr (replace_client d clients) ≡ some d
  unfolding client replace_client
  client-replace_client c d [] h = cc
  client-replace_client c d (none ∷ clients) h = client-replace_client c d clients h
  client-replace_client c d (some e ∷ clients) h =
      ground (arith, h, client-replace_client c d clients)

module _ {P : Packets} {PacketId : Type 0} ⦃o : Ord PacketId⦄ ⦃u : Uuid PacketId⦄ (rkyv : Rkyv P)
    (handler : ServerHandler P PacketId) where
  -- When the ping that a client was sent last comes back from it, the handler hears of a valid pong,
  -- and the client stays, with no missed pongs and so that the next ping does not find it timed out.
  pub ping_answered :
      (log : List (Call P PacketId)) (s : Server PacketId) (id : PacketId)
      (c : ClientConnection PacketId) (active_ping : ActivePing PacketId) (now : ℕ)
      (max_missed_pongs : Option ℕ)
      → client c.client_addr s.clients ≡ some c
      → c.active_ping ≡ some active_ping
      → (s' : Server PacketId) × (c' : ClientConnection PacketId) × (handle_datagram rkyv handler
            log s id c.client_addr
            (to_byte PacketKind.ping ∷ u.as_bytes active_ping.ping_id)
            now
          ≡ some (event (pong c.client_addr true) ∷ [], s'))
        × (client c.client_addr s'.clients ≡ some c')
        × (c'.missed_pongs ≡ 0)
        × (timed_out max_missed_pongs c' ≡ false)
  unfolding handle_datagram handle_pong to_byte from_byte timed_out
  ping_answered log s id c active_ping now max_missed_pongs found pinged =
      let c' : ClientConnection PacketId = record c { last_pong = some now; missed_pongs = 0 } in
      (
        with_client s c' s.socket,
        c',
        ground (
          arith,
          found,
          pinged,
          u.from_slice-as_bytes active_ping.ping_id,
          (o.beq_iff active_ping.ping_id active_ping.ping_id).1 refl,
        ),
        client-replace_client c c' s.clients found,
        refl,
        ground (arith, pinged),
      )
