-- ===== src/Packet/Out/Pending.antt =====
-- When a packet is given up or finished: what `send_pending` says with `true`, and what it does with a
-- packet whose first batch met a busy socket.
use mathlib.Core.Path.{subst}
use packet_test.Common.{
  suc, ap₂, Option-cases, ℕ, ◌≤◌, ◌≡◌, ◌⊎◌, ap, sym, ◌∙◌, arith, Result, ok, Bool, true, false,
  some, none, List, [], ◌∷◌, ◌++◌, inl, inr, Result-split, ltb, Bool-cases, map, take, append-nil,
}
use packet_test.Socket.{
  NonBlockingUdpSocket, IoError, Answer, accepted, failed, would_block, SocketAddr, Sent, send-Sent,
  addr-send,
}
use packet_test.Packet.Kind.{Uuid}
use packet_test.Packet.Frame.{done, done_bytes}
use packet_test.Packet.Buffer.{PacketBuffer, as_ref}
use packet_test.Packet.Serialize.{vec}
use packet_test.Packet.Queue
use packet_test.Socket
use packet_test.Packet.Queue.{PacketQueue, send_unacked, not_acked, unacked, refill, send_each}
use packet_test.Packet.Queue.Send.{SendEffect, send_unacked_batch, send_unacked_done, outgoing}
use packet_test.Packet.Out.{PacketOut, send, balance_batch_size, send_batch, send_pending, elapsed}
use packet_test.Packet.Out.Batch.{IsValid, balance_bounds}

module _ {PacketId : Type 0} ⦃u : Uuid PacketId⦄ (id : PacketId) where
  done-sent :
      (s : NonBlockingUdpSocket)
      → (done id s).0 ≡ ok true
      → (done id s).1.socket.sent ≡ s.socket.sent ++ ((s.addr, done_bytes id) ∷ [])
  unfolding done
  done-sent s e =
      subst (λ r. Sent s (done_bytes id) r (done id s).1) e (send-Sent s (done_bytes id))

  -- The ways of `send_batch`.
  module _ (p : PacketOut) (s : NonBlockingUdpSocket) (now : ℕ) where
    abbrev next_size : ℕ
    next_size = balance_batch_size p.batch_size p.last_batch_acks p.last_batch_size

    abbrev batch : Result IoError (ℕ × Bool) × PacketQueue × NonBlockingUdpSocket
    batch = send_unacked p.packet_queue next_size s

    abbrev after_batch : PacketOut
    after_batch = record p { batch_size = next_size; packet_queue = batch.1 }

    batch_done :
        batch.0 ≡ ok (0, true)
        → send_batch p id s now ≡ ((done id batch.2).0, after_batch, (done id batch.2).1)
    unfolding send_batch
    batch_done e = ground (arith, e)

    batch_true : (send_batch p id s now).0 ≡ ok true → batch.0 ≡ ok (0, true)
    unfolding send_batch
    batch_true e = elim (Result-split batch.0) [
      | inl (x, bad) ↦ ground (arith, bad)
      | inr ((count, all), good) ↦ ground (arith, good)
    ]

    nothing_sent :
        (bufs : List (List ℕ)) (s' : NonBlockingUdpSocket)
        → SendEffect bufs 0 s (ok (0, true)) s'
        → (s'.addr ≡ s.addr) × (s'.socket.sent ≡ s.socket.sent)
    nothing_sent bufs s' (k, counted, short, whole, kept, sent) =
        let e : k ≡ 0 = omega arith in
        (
          kept,
          sent
              ∙ ap (λ n. s.socket.sent ++ outgoing s.addr (take n bufs)) e
              ∙ append-nil s.socket.sent,
        )

    -- It answers `true` only where nothing was left to send.
    send_batch-true :
        IsValid p
        → (send_batch p id s now).0 ≡ ok true
        → (not_acked (send_batch p id s now).1.packet_queue.packets ≡ [])
          × ((send_batch p id s now).2.socket.sent
              ≡ s.socket.sent ++ ((s.addr, done_bytes id) ∷ []))
    send_batch-true v e =
        let none_left = batch_true e in
        let (effect, short) = send_unacked_batch p.packet_queue next_size s in
        let empty =
          send_unacked_done p.packet_queue next_size s
            (balance_bounds p.batch_size p.last_batch_acks p.last_batch_size v.batch_pos
              v.batch_max).0 in
        let bufs = take next_size (map as_ref (not_acked batch.1.packets)) in
        let (to, log) =
          nothing_sent bufs batch.2 (subst (λ r. SendEffect bufs 0 s r batch.2) none_left effect) in
        let whole = batch_done none_left in
        let sent = done-sent batch.2 (sym (ap (λ t. t.0) whole) ∙ e) in
        (
          ap (λ t. not_acked t.1.packet_queue.packets) whole ∙ empty none_left,
          ap (λ t. t.2.socket.sent) whole
              ∙ sent
              ∙ ap₂ (λ l a. l ++ ((a, done_bytes id) ∷ [])) log to,
        )

  -- The ways of `send_pending`.
  module _ (p : PacketOut) (resend_delay : ℕ) (s : NonBlockingUdpSocket) (now : ℕ) where
    pub pending_canceled :
        p.last_send ≡ none
        → send_pending p id resend_delay s now ≡ ((done id s).0, p, (done id s).1)
    unfolding send_pending
    pending_canceled e = ground (arith, e)

    pending_early :
        {last : ℕ}
        → p.last_send ≡ some last
        → ltb (elapsed now last) resend_delay ≡ true
        → send_pending p id resend_delay s now ≡ (ok false, p, s)
    unfolding send_pending
    pending_early e h = ground (arith, e, h)

    pending_due :
        {last : ℕ}
        → p.last_send ≡ some last
        → ltb (elapsed now last) resend_delay ≡ false
        → send_pending p id resend_delay s now ≡ send_batch p id s now
    unfolding send_pending
    pending_due e h = ground (arith, e, h)

    -- What `send_pending` says and leaves, where it says that the packet can be discarded.
    abbrev pub Finished : Result IoError Bool × PacketOut × NonBlockingUdpSocket → Type 0
    Finished (r, p', s') =
        (s'.socket.sent ≡ s.socket.sent ++ ((s.addr, done_bytes id) ∷ []))
        × ((p.last_send ≡ none)
            ⊎ ((last : ℕ) × (p.last_send ≡ some last)
                × (resend_delay ≤ elapsed now last)
                × (not_acked p'.packet_queue.packets ≡ [])))

    -- Where `send_pending` answers that a well-formed packet can be discarded, the `Done` datagram
    -- is all that it sent; and the packet was canceled, or the resend delay had passed and no
    -- buffer of its queue was left unacked.
    pub send_pending-true :
        IsValid p
        → (send_pending p id resend_delay s now).0 ≡ ok true
        → Finished (send_pending p id resend_delay s now)
    send_pending-true v e = elim (Option-cases p.last_send) [
      | inl canceled ↦
          let whole = pending_canceled canceled in
          subst Finished (sym whole) (done-sent s (sym (ap (λ t. t.0) whole) ∙ e), inl canceled)
      | inr (last, waiting) ↦ elim (Bool-cases (ltb (elapsed now last) resend_delay)) [
        | inl early ↦ cc (ap (λ t. t.0) (pending_early waiting early))
        | inr due ↦
            let whole = pending_due waiting due in
            let (empty, sent) = send_batch-true p s now v (sym (ap (λ t. t.0) whole) ∙ e) in
            subst Finished (sym whole) (sent, inr (last, waiting, ground (arith, due), empty))
      ]
    ]

  -- A packet whose first datagram meets a busy socket is taken for a canceled one:
  -- `PacketOut::send` succeeds with nothing sent, and the next `send_pending`, whatever the delay,
  -- sends `Done`, which the socket accepts, and says that the packet can be discarded. No part of
  -- it was ever sent.
  pub blocked_packet_lost :
      (b : PacketBuffer) (bs : List PacketBuffer) (n now later resend_delay : ℕ)
      (s : NonBlockingUdpSocket) (rest : List Answer)
      → b.acked ≡ false
      → s.socket.answers ≡ failed would_block ∷ accepted ∷ rest
      → (p : PacketOut) × ((send (vec (b ∷ bs)) s (suc n) now).0 ≡ ok p)
        × (let (r, p', s') =
              send_pending p id resend_delay (send (vec (b ∷ bs)) s (suc n) now).1 later in
            (r ≡ ok true) × (s'.socket.sent ≡ s.socket.sent ++ ((s.addr, done_bytes id) ∷ [])))
  unfolding send send_pending send_unacked unacked refill not_acked send_each Queue.new done
      Socket.send
  blocked_packet_lost b bs n now later resend_delay s rest fresh busy = (
    record {
      packet_queue = record { packets = b ∷ bs; first_unacked = 0; rx = none };
      last_send = none;
      missed_acks = 0;
      batch_size = suc n;
      last_batch_size = 0;
      last_batch_acks = 0;
    },
    ground arith,
    ground arith,
  )
