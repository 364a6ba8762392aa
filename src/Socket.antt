-- ===== src/Socket.antt =====
-- The socket of src/net.rs: `NonBlockingUdpSocket`, its `NonBlocking::send` and `recv`. The operating
-- system's answers are an argument: a list of what it says to the next calls (once the list is used
-- up, a send is accepted and a receive would block). `sent` keeps the datagrams that went out.
use packet_test.Common.{
  ◌≡◌, refl, arith, ℕ, suc, length, List, [], ◌∷◌, ◌++◌, Bool, true, false, Result, ok, err, take,
  Option, some, none,
}

abbrev pub SocketAddr : Type 0
SocketAddr = ℕ

-- `io::Error` by its kind.
pub data IoError : Type 0 where
  would_block : IoError
  other : ℕ → IoError

-- What the system answers to one `send_to`.
pub data Answer : Type 0 where
  accepted : Answer
  failed : IoError → Answer

pub record UdpSocket : Type 0 where
  pub answers : List Answer
  pub arrivals : List (Result IoError (SocketAddr × List ℕ))
  pub sent : List (SocketAddr × List ℕ)

answered : List Answer → Result IoError (Unit {0}) × List Answer
answered [] = (ok tt, [])
answered (accepted ∷ rest) = (ok tt, rest)
answered (failed e ∷ rest) = (err e, rest)

delivered :
    Result IoError (Unit {0})
    → List (SocketAddr × List ℕ)
    → SocketAddr
    → List ℕ
    → List (SocketAddr × List ℕ)
delivered (ok _) log to buf = log ++ ((to, buf) ∷ [])
delivered (err e) log to buf = log

-- `UdpSocket::send_to`: a datagram goes out whole or not at all.
send_to : UdpSocket → List ℕ → SocketAddr → Result IoError (Unit {0}) × UdpSocket
unfolding answered delivered
send_to s buf to =
    let (r, rest) = answered s.answers in
    (r, record s { answers = rest; sent = delivered r s.sent to buf })

pub record NonBlockingUdpSocket : Type 0 where
  pub socket : UdpSocket
  pub addr : SocketAddr

-- A call that would block is no error but `false`.
sent_or_blocked : Result IoError (Unit {0}) → Result IoError Bool
sent_or_blocked (ok _) = ok true
sent_or_blocked (err would_block) = ok false
sent_or_blocked (err (other n)) = err (other n)

unfoldable pub send : NonBlockingUdpSocket → List ℕ → Result IoError Bool × NonBlockingUdpSocket
unfolding send_to sent_or_blocked
send s buf =
    let (r, socket') = send_to s.socket buf s.addr in
    (sent_or_blocked r, record s { socket = socket' })

-- What a send leaves behind, by its result.
abbrev pub Sent :
    NonBlockingUdpSocket → List ℕ → Result IoError Bool → NonBlockingUdpSocket → Type 0
Sent s buf (ok true) s' = s'.socket.sent ≡ s.socket.sent ++ ((s.addr, buf) ∷ [])
Sent s buf _ s' = s'.socket.sent ≡ s.socket.sent

pub addr-send : (s : NonBlockingUdpSocket) (buf : List ℕ) → (send s buf).1.addr ≡ s.addr
unfolding send
addr-send s buf = refl

pub send-Sent : (s : NonBlockingUdpSocket) (buf : List ℕ) → Sent s buf (send s buf).0 (send s buf).1
unfolding send
send-Sent s buf = ground arith

-- A system with nothing against it takes the datagram.
pub send_quiet :
    (s : NonBlockingUdpSocket) (buf : List ℕ)
    → s.socket.answers ≡ []
    → ((send s buf).0 ≡ ok true)
      × ((send s buf).1.socket.answers ≡ [])
      × ((send s buf).1.socket.sent ≡ s.socket.sent ++ ((s.addr, buf) ∷ []))
unfolding send
send_quiet s buf h = (ground (arith, h), ground (arith, h), ground (arith, h))

-- `recv_from`, then `recv`: a datagram is cut to the 512 bytes of the buffer. A call that would block
-- gives nothing; another error goes to the handler.
unfoldable pub recv : UdpSocket → Option (SocketAddr × List ℕ) × Option IoError × UdpSocket
recv s = elim s.arrivals [
  | [] ↦ (none, none, s)
  | ok (addr, datagram) ∷ rest ↦
      (some (addr, take 512 datagram), none, record s { arrivals = rest })
  | err would_block ∷ rest ↦ (none, none, record s { arrivals = rest })
  | err (other n) ∷ rest ↦ (none, some (other n), record s { arrivals = rest })
]

-- A datagram that is received is taken from those that have come in.
pub recv_takes :
    (s : UdpSocket) (d : SocketAddr × List ℕ)
    → (recv s).0 ≡ some d
    → suc (length (recv s).2.arrivals) ≡ length s.arrivals
unfolding recv
recv_takes s d h = ground (arith, h)
