-- ===== src/Server/Finish.antt =====
-- The end of `update` of src/net/server.rs: the datagrams that have come in, under resending.
use packet_test.Common.{
  ℕ, suc, ◌≡◌, ◌<◌, refl, ◌∙◌, arith, List, [], ◌∷◌, ◌++◌, map, Option, none, some, length,
  Option-cases, inl, inr,
}
use packet_test.Common.Dict.{Ord}
use packet_test.Config.{ServerConfig}
use packet_test.Socket.{UdpSocket}
use packet_test.Packet.Kind.{Uuid}
use packet_test.Packet.Packets.{Packets, Rkyv}
use packet_test.Packet.Serialize.{Panicking}
use packet_test.Packet.Arrivals.Resending.{buffers_update_arrivals}
use packet_test.Server.{ClientConnection, Server}
use packet_test.Server.Update.{Visited, each_client, update_client, update_buffers, send_pings}
use packet_test.Server.Handle.{Call, event, ServerHandler}
use packet_test.Server.Loop.{update}
use packet_test.Server.Ends.{handle_packets_ends}

module _ {PacketId : Type 0} ⦃u : Uuid PacketId⦄ where
  each_client_arrivals :
      (f : ℕ → ClientConnection PacketId → UdpSocket → Visited PacketId)
      → ((i : ℕ) (c : ClientConnection PacketId) (s : UdpSocket)
          → (f i c s).2.arrivals ≡ s.arrivals)
      → (i : ℕ) (clients : List (Option (ClientConnection PacketId))) (s : UdpSocket)
      → (each_client f i clients s).2.arrivals ≡ s.arrivals
  unfolding each_client
  each_client_arrivals f keeps i [] s = refl
  each_client_arrivals f keeps i (none ∷ clients) s = each_client_arrivals f keeps (suc i) clients s
  each_client_arrivals f keeps i (some c ∷ clients) s =
      each_client_arrivals f keeps (suc i) clients (f i c s).2 ∙ keeps i c s

module _ {PacketId : Type 0} ⦃o : Ord PacketId⦄ ⦃u : Uuid PacketId⦄ where
  update_client_arrivals :
      (config : ServerConfig) (c : ClientConnection PacketId) (s : UdpSocket) (now : ℕ)
      → (update_client config c s now).2.arrivals ≡ s.arrivals
  unfolding update_client
  update_client_arrivals config c s now = ground (
    arith,
    buffers_update_arrivals c.buffers config.connection.resend_delay
        config.connection.max_missed_acks config.connection.receive_timeout
        (record { socket = s; addr = c.client_addr }) now,
  )

  update_buffers_arrivals :
      (s : Server PacketId) (now : ℕ) → (update_buffers s now).1.socket.arrivals ≡ s.socket.arrivals
  unfolding update_buffers
  update_buffers_arrivals s now =
      each_client_arrivals (λ i c socket. update_client s.config c socket now)
        (λ i c socket. update_client_arrivals s.config c socket now) 0 s.clients s.socket

module _ {P : Packets} {PacketId : Type 0} ⦃o : Ord PacketId⦄ ⦃u : Uuid PacketId⦄ (rkyv : Rkyv P)
    (handler : ServerHandler P PacketId) where
  -- With more fuel than datagrams have come in, a whole `update` of the server comes to an end, by a
  -- result or by a panic.
  server_update_ends :
      (fuel : ℕ) (log : List (Call P PacketId)) (s : Server PacketId)
      (fresh fresh_ping : ℕ → PacketId) (now : ℕ)
      → length s.socket.arrivals < fuel
      → (r : Panicking (List (Call P PacketId) × Server PacketId)) × (update rkyv handler fuel log s
            fresh fresh_ping now
          ≡ some r)
  unfolding update
  server_update_ends fuel log s fresh fresh_ping now h =
      let (r, e) =
        handle_packets_ends rkyv handler fuel 0 (log ++ map event (update_buffers s now).0)
          (update_buffers s now).1 fresh now (ground (arith, h, update_buffers_arrivals s now)) in
      elim (Option-cases r) [
        | inl k ↦ (none, ground (arith, e, k))
        | inr ((log', s'), k) ↦ (
          some (
            log' ++ map event (send_pings s' fresh_ping now).0,
            (send_pings s' fresh_ping now).1,
          ),
          ground (arith, e, k),
        )
      ]
