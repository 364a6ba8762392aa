-- ===== src/Server/Updated.antt =====
-- Who is registered with the server of src/net/server.rs after its loop over the datagrams and after
-- a whole `update`.
use packet_test.Common.{
  ℕ, zero, suc, ◌≡◌, arith, List, [], ◌∷◌, ◌++◌, map, Option, none, some, Option-cases, inl, inr,
}
use packet_test.Common.Dict.{get, Ord, nat_ord}
use packet_test.Socket.{SocketAddr, recv}
use packet_test.Packet.Kind.{Uuid}
use packet_test.Packet.Packets.{Packets, Rkyv}
use packet_test.Server.{is_some, Server}
use packet_test.Server.Registry.{registrations, IsValid}
use packet_test.Server.Rounds.{
  send_pings-IsValid, update_buffers-IsValid, handle_version_request-IsValid,
}
use packet_test.Server.Update.{handle_version_request, update_buffers}
use packet_test.Server.Handle.{Call, event, ServerHandler}
use packet_test.Server.Loop.{handle_datagram, handle_packets, update}
use packet_test.Server.Served.{Conserves, handle_datagram-Conserves}

module _ {PacketId : Type 0} where
  Conserves-IsValid :
      {A : Type 0} (s : Server PacketId) (r : Option (A × Server PacketId)) (a : A)
      (s' : Server PacketId)
      → Conserves s r
      → r ≡ some (a, s')
      → IsValid s
      → IsValid s'
  Conserves-IsValid s none a s' same e v b = cc
  Conserves-IsValid s (some (a₀, s₀)) a s' same e v b = ground (arith, e, same b, v b)

module _ {P : Packets} {PacketId : Type 0} ⦃o : Ord PacketId⦄ ⦃u : Uuid PacketId⦄ (rkyv : Rkyv P)
    (handler : ServerHandler P PacketId) where
  handle_datagram-IsValid :
      (log : List (Call P PacketId)) (s : Server PacketId) (id : PacketId) (a : SocketAddr)
      (buf : List ℕ) (now : ℕ) (calls : List (Call P PacketId)) (s' : Server PacketId)
      → handle_datagram rkyv handler log s id a buf now ≡ some (calls, s')
      → IsValid s
      → IsValid s'
  unfolding handle_datagram
  handle_datagram-IsValid log s id a [] now calls s' e v =
      let bytes = P.write_version (handler.version log) in
      let listening = is_some (get a s.listeners) in
      elim (Option-cases (handle_version_request s bytes a listening)) [
        | inl long ↦ absurd (ground (arith, e, long))
        | inr ((events, s₀), k) ↦
            handle_version_request-IsValid s s' bytes a events (ground (arith, e, k)) v
      ]
  handle_datagram-IsValid log s id a (kind ∷ rest) now calls s' e v =
      Conserves-IsValid s (handle_datagram rkyv handler log s id a (kind ∷ rest) now) calls s'
        (handle_datagram-Conserves rkyv handler log s id a kind rest now v) e v

  pub handle_packets-IsValid :
      (fuel round : ℕ) (log : List (Call P PacketId)) (s : Server PacketId) (fresh : ℕ → PacketId)
      (now : ℕ) (log' : List (Call P PacketId)) (s' : Server PacketId)
      → handle_packets rkyv handler fuel round log s fresh now ≡ some (some (log', s'))
      → IsValid s
      → IsValid s'
  unfolding handle_packets registrations
  handle_packets-IsValid zero round log s fresh now log' s' h v = cc
  handle_packets-IsValid (suc fuel) round log s fresh now log' s' h v =
      elim (Option-cases (recv s.socket).0) [
        | inl k ↦ (λ b. ground (arith, k, h, v b))
        | inr ((addr, buf), k) ↦
            elim (Option-cases (
              handle_datagram rkyv handler log (record s { socket = (recv s.socket).2 })
                (fresh round) addr buf now)) [
                  | inl e ↦ ground (arith, k, e, h)
                  | inr ((calls, s₁), e) ↦
                      handle_packets-IsValid fuel (suc round) (log ++ calls) s₁ fresh now log' s'
                        (ground (arith, k, e, h))
                        (handle_datagram-IsValid log (record s { socket = (recv s.socket).2 })
                          (fresh round) addr buf now calls s₁ e v)
                ]
      ]

  -- A whole `update`, of which every datagram is handled, leaves no address registered twice on a
  -- server where none was.
  pub update-IsValid :
      (fuel : ℕ) (log : List (Call P PacketId)) (s : Server PacketId)
      (fresh fresh_ping : ℕ → PacketId) (now : ℕ) (log' : List (Call P PacketId))
      (s' : Server PacketId)
      → update rkyv handler fuel log s fresh fresh_ping now ≡ some (some (log', s'))
      → IsValid s
      → IsValid s'
  unfolding update
  update-IsValid fuel log s fresh fresh_ping now log' s' h v =
      elim (Option-cases (
        handle_packets rkyv handler fuel 0 (log ++ map event (update_buffers s now).0)
          (update_buffers s now).1 fresh now)) [
            | inl k ↦ ground (arith, k, h)
            | inr (none, k) ↦ ground (arith, k, h)
            | inr (some (log₂, s₂), k) ↦
                let v₂ : IsValid s₂ =
                  handle_packets-IsValid fuel 0 (log ++ map event (update_buffers s now).0)
                    (update_buffers s now).1 fresh now log₂ s₂ k (update_buffers-IsValid s now v) in
                ground (arith, k, h, send_pings-IsValid s₂ fresh_ping now v₂)
          ]
