-- ===== src/Server/Isolation.antt =====
-- What a datagram leaves alone in src/net/server.rs: everyone but its sender.
pub mod Tables
use mathlib.Core.Path.{subst}
use packet_test.Common.{
  Result, ℕ, ◌≡◌, ◌≢◌, refl, ◌∙◌, arith, List, [], ◌∷◌, ◌++◌, Option, none, some, Bool, true, false,
  ◌==◌, Option-cases, Bool-cases, inl, inr,
}
use packet_test.Common.Dict.{Ord, nat_ord, get, get-insert, get-remove}
use packet_test.Socket.{SocketAddr, UdpSocket}
use packet_test.Handler.Buffers.{handle_buffers}
use packet_test.Packet.Kind.{Uuid}
use packet_test.Packet.Packets.{Packets, Rkyv}
use packet_test.Packet.Buffers
use packet_test.Packet.Buffers.{PacketBuffers}
use packet_test.Server.{
  NonBlockingUdpSocket, IoError, ClientConnection, Server, client, is_some, place, vacate, new,
  accept_client, disconnect_client,
}
use packet_test.Server.Update.{send_version, version_sent, handle_version_request}
use packet_test.Server.Handle.{
  Call, ServerHandler, reported, replace_client, with_client, with_listener, handle_pong,
  handle_client_packet, handle_listener_packet,
}
use packet_test.Server.Loop.{
  settle_client, settle_listener, handle_client, handle_listener, handle_datagram, is_ping,
}
use packet_test.Server.Panics.{client_addr-client}
use packet_test.Server.Isolation.Tables.{
  Spares, Spares-trans, same-Spares, client-replace_other, with_client-Spares, with_listener-Spares,
  accept_client-Spares, disconnect_client-Spares,
}

module _ {P : Packets} {PacketId : Type 0} where
  settle_client-Spares :
      (s s' : Server PacketId) (a : SocketAddr) (out : Bool) (calls calls' : List (Call P PacketId))
      → settle_client s a out calls ≡ some (calls', s')
      → Spares a s s'
  unfolding settle_client
  settle_client-Spares s s' a false calls calls' h = same-Spares (ground (arith, h))
  settle_client-Spares s s' a true calls calls' h = elim (Option-cases (disconnect_client s a)) [
    | inl k ↦ absurd (ground (arith, h, k))
    | inr (s'', k) ↦ disconnect_client-Spares s s' a (ground (arith, h, k))
  ]

  settle_listener-Spares :
      (s s' : Server PacketId) (a : SocketAddr) (accepted : Bool)
      (calls calls' : List (Call P PacketId))
      → settle_listener s a accepted calls ≡ some (calls', s')
      → Spares a s s'
  unfolding settle_listener
  settle_listener-Spares s s' a false calls calls' h = same-Spares (ground (arith, h))
  settle_listener-Spares s s' a true calls calls' h = elim (Option-cases (accept_client s a)) [
    | inl k ↦ absurd (ground (arith, h, k))
    | inr (s'', k) ↦ accept_client-Spares s s' a (ground (arith, h, k))
  ]

module _ {P : Packets} {PacketId : Type 0} ⦃o : Ord PacketId⦄ ⦃u : Uuid PacketId⦄ (rkyv : Rkyv P)
    (handler : ServerHandler P PacketId) where
  handle_client-Spares :
      (log : List (Call P PacketId)) (s s' : Server PacketId) (id : PacketId)
      (c : ClientConnection PacketId) (buf : List ℕ) (now : ℕ) (calls : List (Call P PacketId))
      → handle_client rkyv handler log s id c buf now ≡ some (calls, s')
      → Spares c.client_addr s s'
  unfolding handle_client
  handle_client-Spares log s s' id c buf now calls h =
      elim (Option-cases
        (handle_buffers rkyv.check_client c.buffers buf s.socket c.client_addr now)) [
          | inl e ↦ absurd (ground (arith, h, e))
          | inr (((none, reports), buffers, socket), e) ↦
              subst (Spares c.client_addr s) (ground (arith, h, e))
                (with_client-Spares s (record c { buffers = buffers }) socket)
          | inr (((some packet, reports), buffers, socket), e) ↦
              elim (Option-cases (
                handle_client_packet rkyv handler s.config (log ++ reported reports) id
                  c.client_addr packet buffers socket now)) [
                    | inl k ↦ absurd (ground (arith, h, e, k))
                    | inr ((out, calls₁, buffers', socket'), k) ↦
                        let c' : ClientConnection PacketId = record c { buffers = buffers' } in
                        Spares-trans (with_client-Spares s c' socket') (
                          settle_client-Spares (with_client s c' socket') s' c.client_addr out
                            (reported reports ++ calls₁) calls (ground (arith, h, e, k)))
                  ]
        ]

  handle_listener-Spares :
      (log : List (Call P PacketId)) (s s' : Server PacketId) (id : PacketId) (a : SocketAddr)
      (b : PacketBuffers PacketId) (buf : List ℕ) (now : ℕ) (calls : List (Call P PacketId))
      → handle_listener rkyv handler log s id a b buf now ≡ some (calls, s')
      → Spares a s s'
  unfolding handle_listener
  handle_listener-Spares log s s' id a b buf now calls h =
      elim (Option-cases (handle_buffers rkyv.check_client b buf s.socket a now)) [
        | inl e ↦ absurd (ground (arith, h, e))
        | inr (((none, reports), buffers, socket), e) ↦
            subst (Spares a s) (ground (arith, h, e)) (with_listener-Spares s a buffers socket)
        | inr (((some packet, reports), buffers, socket), e) ↦
            elim (Option-cases (
              handle_listener_packet rkyv handler s.config (log ++ reported reports) id a packet
                buffers socket now)) [
                  | inl k ↦ absurd (ground (arith, h, e, k))
                  | inr ((accepted, calls₁, buffers', socket'), k) ↦
                      Spares-trans (with_listener-Spares s a buffers' socket') (
                        settle_listener-Spares (with_listener s a buffers' socket') s' a accepted
                          (reported reports ++ calls₁) calls (ground (arith, h, e, k)))
                ]
      ]

  version_request-Spares :
      (s : Server PacketId) (a : SocketAddr) (listening : Bool) (r : Result IoError Bool)
      (socket : NonBlockingUdpSocket)
      → Spares a s (version_sent s a listening r socket).1
  unfolding version_sent
  version_request-Spares s a listening r socket = record {
    clients = λ b other. ground arith;
    listeners = λ b other. ground (
      arith,
      other,
      get-insert a b (Buffers.new s.config.connection.initial_send_batch_size) s.listeners,
    );
    config = ground arith;
  }

  pong-Spares :
      (s : Server PacketId) (c : ClientConnection PacketId) (id : List ℕ) (now : ℕ)
      → Spares c.client_addr s (handle_pong s c id now).1
  unfolding handle_pong
  pong-Spares s c id now =
      let c' : ClientConnection PacketId = record c { last_pong = some now; missed_pongs = 0 } in
      let same : (b : SocketAddr)
          → b ≢ c.client_addr
          → client b (replace_client c' s.clients) ≡ client b s.clients =
        λ b other. client-replace_other b c' s.clients other in
      record {
        clients = λ b other. ground (arith, same b other);
        listeners = λ b other. ground arith;
        config = ground arith;
      }

  -- A datagram, from whatever address and unless it makes the server panic, leaves everyone but its
  -- sender alone: for every other address, the server has the same client, if any, and the same
  -- buffers of a listener, if any; and the configuration stays.
  pub handle_datagram-Spares :
      (log : List (Call P PacketId)) (s s' : Server PacketId) (id : PacketId) (a : SocketAddr)
      (buf : List ℕ) (now : ℕ) (calls : List (Call P PacketId))
      → handle_datagram rkyv handler log s id a buf now ≡ some (calls, s')
      → Spares a s s'
  unfolding handle_datagram handle_version_request
  handle_datagram-Spares log s s' id a [] now calls h =
      elim (Option-cases (send_version s.socket (P.write_version (handler.version log)) a)) [
        | inl long ↦ absurd (ground (arith, h, long))
        | inr ((r, socket), k) ↦
            subst (Spares a s) (ground (arith, h, k))
              (version_request-Spares s a (is_some (get a s.listeners)) r socket)
      ]
  handle_datagram-Spares log s s' id a (kind ∷ rest) now calls h =
      elim (Option-cases (client a s.clients)) [
        | inr (c, e) ↦
            let at = client_addr-client a s.clients c e in
            subst (λ d. Spares d s s') at
              (elim (Bool-cases (is_ping kind)) [
                | inl p ↦
                    subst (Spares c.client_addr s) (ground (arith, h, e, p))
                      (pong-Spares s c rest now)
                | inr p ↦
                    handle_client-Spares log s s' id c (kind ∷ rest) now calls
                      (ground (arith, h, e, p))
              ])
        | inl e ↦ elim (Option-cases (get a s.listeners)) [
          | inl k ↦ same-Spares (ground (arith, h, e, k))
          | inr (b, k) ↦
              handle_listener-Spares log s s' id a b (kind ∷ rest) now calls
                (ground (arith, h, e, k))
        ]
      ]
