-- ===== src/Packet/Queue/Send.antt =====
-- What a batch puts on the wire.
use mathlib.Core.Path.{subst}
use packet_test.Common.{
  none, some, ◌↔◌, ◌⊎◌, ℕ, zero, suc, ◌+◌, ◌≤◌, ◌<◌, ◌≡◌, refl, ap, ◌∙◌, sym, List, [], ◌∷◌, ◌++◌,
  map, arith, Result, ok, err, Bool, true, false, length, take, append-nil, append_assoc,
  length-take, inl, inr,
}
use packet_test.Socket.{NonBlockingUdpSocket, SocketAddr, IoError, send, Sent, addr-send, send-Sent}
use packet_test.Packet.Buffer.{PacketBuffer, as_ref}
use packet_test.Packet.Queue.{PacketQueue, not_acked, refill, unacked, send_each, send_unacked}

-- Datagrams for one peer.
abbrev pub outgoing : SocketAddr → List (List ℕ) → List (SocketAddr × List ℕ)
outgoing to bufs = map (λ buf. (to, buf)) bufs

-- What the loop has put on the wire when it stops with `r`, having been `count` datagrams in.
abbrev pub SendEffect :
    List (List ℕ)
    → ℕ
    → NonBlockingUdpSocket
    → Result IoError (ℕ × Bool)
    → NonBlockingUdpSocket
    → Type 0
SendEffect bufs count s (err e) s' =
    (k : ℕ) × (k < length bufs)
    × (s'.addr ≡ s.addr)
    × (s'.socket.sent ≡ s.socket.sent ++ outgoing s.addr (take k bufs))
SendEffect bufs count s (ok (n, all)) s' =
    (k : ℕ) × (n ≡ count + k)
    × (k ≤ length bufs)
    × ((all ≡ true) ↔ (k ≡ length bufs))
    × (s'.addr ≡ s.addr)
    × (s'.socket.sent ≡ s.socket.sent ++ outgoing s.addr (take k bufs))

pub Result-cases :
    (r : Result IoError Bool) → (r ≡ ok true) ⊎ (r ≡ ok false) ⊎ ((e : IoError) × (r ≡ err e))
Result-cases (ok true) = inl refl
Result-cases (ok false) = inr (inl refl)
Result-cases (err e) = inr (inr (e, refl))

-- One round of the loop, by what the socket says.
module _ (buf : List ℕ) (bufs : List (List ℕ)) (count : ℕ) (s : NonBlockingUdpSocket) where
  round_sent :
      (send s buf).0 ≡ ok true
      → send_each (buf ∷ bufs) count s ≡ send_each bufs (count + 1) (send s buf).1
  unfolding send_each
  round_sent e = ground (arith, e)

  round_blocked :
      (send s buf).0 ≡ ok false
      → send_each (buf ∷ bufs) count s ≡ (ok (count, false), (send s buf).1)
  unfolding send_each
  round_blocked e = ground (arith, e)

  round_failed :
      {x : IoError}
      → (send s buf).0 ≡ err x
      → send_each (buf ∷ bufs) count s ≡ (err x, (send s buf).1)
  unfolding send_each
  round_failed e = ground (arith, e)

  -- The effect of the later rounds is that of all, where this one sent its datagram.
  one_more :
      (r : Result IoError (ℕ × Bool)) (s' s'' : NonBlockingUdpSocket)
      → s'.addr ≡ s.addr
      → s'.socket.sent ≡ s.socket.sent ++ ((s.addr, buf) ∷ [])
      → SendEffect bufs (count + 1) s' r s''
      → SendEffect (buf ∷ bufs) count s r s''
  one_more (err e) s' s'' to log (k, short, kept, sent) =
      (suc k, omega arith, kept ∙ to, sent ∙ extend k)
    where
      extend :
          (k : ℕ)
          → s'.socket.sent ++ outgoing s'.addr (take k bufs)
            ≡ s.socket.sent ++ outgoing s.addr (buf ∷ take k bufs)
      extend k =
          rw (log, to)
            (append_assoc s.socket.sent ((s.addr, buf) ∷ []) (outgoing s.addr (take k bufs)))
  one_more (ok (n, all)) s' s'' to log (k, counted, short, whole, kept, sent) = (
    suc k,
    omega arith,
    omega arith,
    (λ h. ap suc (whole.0 h), λ h. whole.1 (omega arith)),
    kept ∙ to,
    sent ∙ extend k,
  )
    where
      extend :
          (k : ℕ)
          → s'.socket.sent ++ outgoing s'.addr (take k bufs)
            ≡ s.socket.sent ++ outgoing s.addr (buf ∷ take k bufs)
      extend k =
          rw (log, to)
            (append_assoc s.socket.sent ((s.addr, buf) ∷ []) (outgoing s.addr (take k bufs)))

pub send_each-SendEffect :
    (bufs : List (List ℕ)) (count : ℕ) (s : NonBlockingUdpSocket)
    → SendEffect bufs count s (send_each bufs count s).0 (send_each bufs count s).1
unfolding send_each
send_each-SendEffect [] count s =
    (0, omega arith, omega arith, (λ _. refl, λ _. refl), refl, sym (append-nil s.socket.sent))
send_each-SendEffect (buf ∷ bufs) count s =
    let s' = (send s buf).1 in
    let to = addr-send s buf in
    elim (Result-cases (send s buf).0) [
      | inl e ↦
          subst (λ p. SendEffect (buf ∷ bufs) count s p.0 p.1) (sym (round_sent buf bufs count s e))
            (one_more buf bufs count s (send_each bufs (count + 1) s').0 s'
              (send_each bufs (count + 1) s').1 to
              (subst (λ r. Sent s buf r s') e (send-Sent s buf))
              (send_each-SendEffect bufs (count + 1) s'))
      | inr (inl e) ↦
          subst (λ p. SendEffect (buf ∷ bufs) count s p.0 p.1)
            (sym (round_blocked buf bufs count s e))
            (
              0,
              omega arith,
              omega arith,
              (λ h. cc, λ h. absurd (omega arith)),
              to,
              subst (λ r. Sent s buf r s') e (send-Sent s buf) ∙ sym (append-nil s.socket.sent),
            )
      | inr (inr (x, e)) ↦
          subst (λ p. SendEffect (buf ∷ bufs) count s p.0 p.1)
            (sym (round_failed buf bufs count s e))
            (
              0,
              omega arith,
              to,
              subst (λ r. Sent s buf r s') e (send-Sent s buf) ∙ sym (append-nil s.socket.sent),
            )
    ]

nothing_to_send :
    (bs : List PacketBuffer) (n : ℕ)
    → 0 < n
    → length (take n (map as_ref (not_acked bs))) ≡ 0
    → not_acked bs ≡ []
nothing_to_send bs zero h e = absurd (omega arith)
nothing_to_send bs (suc n) h e = none_left (not_acked bs) e
  where
    none_left : (l : List PacketBuffer) → length (take (suc n) (map as_ref l)) ≡ 0 → l ≡ []
    none_left [] e = refl
    none_left (x ∷ l) e = absurd (omega arith)

-- What the background thread has yet to hand over.
abbrev pub waiting : PacketQueue → List PacketBuffer
waiting q = elim q.rx [ none ↦ [] | some messages ↦ messages ]

abbrev pub Unacked : List PacketBuffer → Type 0
Unacked [] = Unit
Unacked (b ∷ bs) = (b.acked ≡ false) × Unacked bs

-- A batch sends the first buffers of the queue after it that are not acked.
pub send_unacked_batch :
    (q : PacketQueue) (batch_size : ℕ) (s : NonBlockingUdpSocket)
    → let (r, q', s') = send_unacked q batch_size s in
      let bufs = take batch_size (map as_ref (not_acked q'.packets)) in
      SendEffect bufs 0 s r s' × (length bufs ≤ batch_size)
unfolding send_unacked unacked
send_unacked_batch q n s =
    let bs = map as_ref (not_acked (refill q n).packets) in
    (send_each-SendEffect (take n bs) 0 s, omega (arith, length-take n bs))

-- A batch of positive size that sends nothing and is not blocked means that every buffer of the queue
-- is acked.
pub send_unacked_done :
    (q : PacketQueue) (batch_size : ℕ) (s : NonBlockingUdpSocket)
    → 0 < batch_size
    → (send_unacked q batch_size s).0 ≡ ok (0, true)
    → not_acked (send_unacked q batch_size s).1.packets ≡ []
unfolding send_unacked unacked
send_unacked_done q n s h e =
    let bufs = take n (map as_ref (not_acked (refill q n).packets)) in
    nothing_to_send (refill q n).packets n h (
      all_sent bufs s (send_each bufs 0 s).1 (
        subst (λ r. SendEffect bufs 0 s r (send_each bufs 0 s).1) e
          (send_each-SendEffect bufs 0 s)))
  where
    all_sent :
        (bufs : List (List ℕ)) (s s' : NonBlockingUdpSocket)
        → SendEffect bufs 0 s (ok (0, true)) s'
        → length bufs ≡ 0
    all_sent bufs s s' (k, counted, short, whole, kept, sent) = omega (arith, whole.0 refl)
