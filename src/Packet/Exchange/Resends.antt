-- ===== src/Packet/Exchange/Resends.antt =====
-- A packet of one part whose ack never comes: `update` of `PacketBuffers` in src/packet.rs, again and
-- again.
use mathlib.Core.Path.{subst}
use packet_test.Common.{
  sym, append-nil, ℕ, suc, ◌+◌, ◌≤◌, ◌<◌, ◌≡◌, refl, ap, ap₂, ◌∙◌, arith, List, [], ◌∷◌, ◌++◌, none,
  some, Result, ok, true, length, replicate, append_assoc,
}
use packet_test.Common.Dict.{Ord, insert, retain}
use packet_test.Socket
use packet_test.Socket.{NonBlockingUdpSocket, IoError, SocketAddr, addr-send, send_quiet}
use packet_test.Packet.Kind.{Uuid, last_part}
use packet_test.Packet.Frame.{frame}
use packet_test.Packet.Buffer.{PacketBuffer}
use packet_test.Packet.Serialize.VecRun.{flat}
use packet_test.Packet.Out
use packet_test.Packet.Out.{PacketOut}
use packet_test.Packet.SendBuffer
use packet_test.Packet.SendBuffer.{SendPacketBuffer, sweep, visit}
use packet_test.Packet.Buffers.{PacketBuffers, send, update, timeout_packets}
use packet_test.Packet.Exchange.Sender.{Carries, Underway, send_pending-Underway}
use packet_test.Packet.Exchange.Steps.{send-single}

-- Times that lie a delay apart, the first one of `t`.
abbrev pub Spaced : ℕ → ℕ → List ℕ → Type 0
Spaced delay t [] = Unit
Spaced delay t (now ∷ times) = (t + delay ≤ now) × Spaced delay now times

-- One entry and `n` like it behind a log.
one_and_more :
    {A : Type 0} {log₁ : List (A × List ℕ)} {addr₁ : A} (log : List (A × List ℕ)) (addr : A)
    (d : List ℕ) (n k : ℕ)
    → log₁ ≡ log ++ ((addr, d) ∷ [])
    → addr₁ ≡ addr
    → suc n ≡ k
    → log₁ ++ replicate n (addr₁, d) ≡ log ++ replicate k (addr, d)
one_and_more {log₁ = log₁} log addr d n k same at count =
    ap₂ (λ l b. l ++ replicate n (b, d)) same at
    ∙ append_assoc log ((addr, d) ∷ []) (replicate n (addr, d))
    ∙ ap (λ m. log ++ replicate m (addr, d)) count

module _ {PacketId : Type 0} ⦃o : Ord PacketId⦄ ⦃u : Uuid PacketId⦄ where
  -- Updates at these times, of which only the result matters: errors are dropped.
  unfoldable pub updates :
      List ℕ
      → ℕ
      → ℕ
      → PacketBuffers PacketId
      → NonBlockingUdpSocket
      → PacketBuffers PacketId × NonBlockingUdpSocket
  updates [] delay max_missed_acks a socket = (a, socket)
  updates (now ∷ times) delay max_missed_acks a socket =
      let (r, a', socket') = update a delay (some max_missed_acks) none socket now in
      updates times delay max_missed_acks a' socket'

  module _ (a : PacketBuffers PacketId) (id : PacketId) (p : PacketOut) (most now : ℕ)
      (only : a.send_buffer.packets ≡ (id, p) ∷ []) where
    kept :
        p.missed_acks ≤ most
        → (timeout_packets a (some most) none now).send_buffer.packets ≡ (id, p) ∷ []
    unfolding timeout_packets SendBuffer.timeout_packets retain
    kept h = ground (arith, only, h)

    dropped :
        most < p.missed_acks → (timeout_packets a (some most) none now).send_buffer.packets ≡ []
    unfolding timeout_packets SendBuffer.timeout_packets retain
    dropped h = ground (arith, only, h)

  send_pending-resend :
      (s : SendPacketBuffer PacketId) (id : PacketId) (p : PacketOut) (b : PacketBuffer)
      (d : List ℕ) (sent missed delay : ℕ) (socket : NonBlockingUdpSocket) (now : ℕ)
      → s.packets ≡ (id, p) ∷ []
      → Underway p b sent missed
      → Carries b d
      → sent + delay ≤ now
      → (Socket.send socket d).0 ≡ ok true
      → (p' : PacketOut) × Underway p' b now (missed + 1)
        × ((SendBuffer.send_pending s delay socket now).1.packets ≡ (id, p') ∷ [])
        × ((SendBuffer.send_pending s delay socket now).2 ≡ (Socket.send socket d).1)
  unfolding SendBuffer.send_pending sweep visit
  send_pending-resend s id p b d sent missed delay socket now only h c late taken =
      let (result, under, after) =
        send_pending-Underway p b d id sent missed delay socket now h c late taken in
      (
        (Out.send_pending p id delay socket now).1,
        under,
        ground (arith, only, result),
        ground (arith, only, result, after),
      )

  send_pending-nothing :
      (s : SendPacketBuffer PacketId) (delay : ℕ) (socket : NonBlockingUdpSocket) (now : ℕ)
      → s.packets ≡ []
      → ((SendBuffer.send_pending s delay socket now).1.packets ≡ [])
        × ((SendBuffer.send_pending s delay socket now).2 ≡ socket)
  unfolding SendBuffer.send_pending sweep
  send_pending-nothing s delay socket now h = (ground (arith, h), ground (arith, h))

  -- Each of the updates sends the datagram once more.
  updates_resend :
      (times : List ℕ) (a : PacketBuffers PacketId) (id : PacketId) (p : PacketOut)
      (b : PacketBuffer) (d : List ℕ) (sent missed delay most : ℕ) (socket : NonBlockingUdpSocket)
      → a.send_buffer.packets ≡ (id, p) ∷ []
      → Underway p b sent missed
      → Carries b d
      → Spaced delay sent times
      → missed + length times ≤ most + 1
      → socket.socket.answers ≡ []
      → let (a', socket') = updates times delay most a socket in
        (p' : PacketOut) × (last : ℕ) × (a'.send_buffer.packets ≡ (id, p') ∷ [])
        × Underway p' b last (missed + length times)
        × (socket'.socket.sent ≡ socket.socket.sent ++ replicate (length times) (socket.addr, d))
  unfolding updates update
  updates_resend [] a id p b d sent missed delay most socket only h c spaced few quiet = (
    p,
    sent,
    only,
    subst (Underway p b sent) (omega arith) h,
    sym (append-nil socket.socket.sent),
  )
  updates_resend (now ∷ times) a id p b d sent missed delay most socket only h c spaced few quiet =
      let (taken, open_still, log) = send_quiet socket d quiet in
      let (p₁, under, packets, after) =
        send_pending-resend (timeout_packets a (some most) none now).send_buffer id p b d sent
          missed delay socket now (kept a id p most now only (omega (arith, h.missed_acks))) h c
          spaced.0 taken in
      let (r, a₁, s₁) = update a delay (some most) none socket now in
      let (p', last, packets', under', log') =
        updates_resend times a₁ id p₁ b d now (missed + 1) delay most s₁ packets under c spaced.1
          (omega (arith, few)) (ground (arith, after, open_still)) in
      (
        p',
        last,
        packets',
        subst (Underway p' b last) (omega arith) under',
        ground (
          arith,
          log',
          after,
          log,
          addr-send socket d,
          append_assoc socket.socket.sent ((socket.addr, d) ∷ [])
              (replicate (length times) (socket.addr, d)),
        ),
      )

  -- A packet of one part that is never acked, of a sender with no other packet, a positive batch size,
  -- no receive timeout and a socket that takes everything. It is sent at once, and again by each update that comes a
  -- delay after the last sending: with `max_missed_acks + 1` such updates the one datagram has gone out
  -- `max_missed_acks + 2` times, to the same address. The next update, at whatever time, sends nothing
  -- and drops the packet.
  pub unacked_life :
      (a : PacketBuffers PacketId) (id : PacketId) (writes : List (List ℕ)) (threshold : ℕ)
      (socket : NonBlockingUdpSocket) (sent delay max_missed_acks : ℕ) (times : List ℕ)
      (dropped_at : ℕ)
      → length (flat writes) ≤ 491
      → 1 ≤ a.send_buffer.batch_size
      → a.send_buffer.packets ≡ []
      → socket.socket.answers ≡ []
      → Spaced delay sent times
      → length times ≡ max_missed_acks + 1
      → (d : List ℕ) × (a₁ a₂ a₃ : PacketBuffers PacketId) × (s₁ s₂ s₃ : NonBlockingUdpSocket)
        × (r : Result IoError (Unit {0})) × (send a id writes threshold socket sent
            ≡ some (ok id, a₁, s₁))
        × (updates times delay max_missed_acks a₁ s₁ ≡ (a₂, s₂))
        × (s₂.socket.sent ≡ socket.socket.sent ++ replicate (max_missed_acks + 2) (socket.addr, d))
        × (update a₂ delay (some max_missed_acks) none s₂ dropped_at ≡ (r, a₃, s₃))
        × (a₃.send_buffer.packets ≡ [])
        × (s₃ ≡ s₂)
  unfolding insert update
  unacked_life a id writes threshold socket sent delay max_missed_acks times dropped_at short
        some_size idle quiet spaced enough =
      let d = frame last_part id 0 (flat writes) in
      let (taken, open_still, log) = send_quiet socket d quiet in
      let (p, b, out, under, carries) =
        send-single a id writes threshold socket sent short some_size taken in
      let a₁ : PacketBuffers PacketId = record a {
        send_buffer = record a.send_buffer { packets = insert id p a.send_buffer.packets };
      } in
      let s₁ = (Socket.send socket d).1 in
      let (p', last, packets, under', resent) =
        updates_resend times a₁ id p b d sent 0 delay max_missed_acks s₁ (ap (insert id p) idle)
          under carries spaced (omega (arith, enough)) open_still in
      let (a₂, s₂) = updates times delay max_missed_acks a₁ s₁ in
      let (empty, silent) =
        send_pending-nothing (timeout_packets a₂ (some max_missed_acks) none dropped_at).send_buffer
          delay s₂ dropped_at
          (dropped a₂ id p' max_missed_acks dropped_at packets
            (omega (arith, under'.missed_acks, enough))) in
      let (r, a₃, s₃) = update a₂ delay (some max_missed_acks) none s₂ dropped_at in
      (
        d,
        a₁,
        a₂,
        a₃,
        s₁,
        s₂,
        s₃,
        r,
        out,
        refl,
        resent
            ∙ one_and_more socket.socket.sent socket.addr d (length times) (max_missed_acks + 2) log
                (addr-send socket d) (omega (arith, enough)),
        refl,
        empty,
        silent,
      )
