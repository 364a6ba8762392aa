-- ===== src/Client/Roster.antt =====
-- Which servers a client of src/net/client.rs listens to, by how many listeners each address has.
use packet_test.Common.{
  ℕ, zero, suc, ◌+◌, ◌-◌, ◌≤◌, ◌≡◌, refl, arith, List, [], ◌∷◌, ◌++◌, Option, none, some, Bool,
  ◌==◌, if◌then◌else◌, length, get_elem?, take, set, Option-cases, inl, inr,
}
use packet_test.Socket.{SocketAddr, UdpSocket}
use packet_test.Client.{ServerListener, swap_remove, position, pending_version_query}
use packet_test.Client.Requests.{refresh_each}
use packet_test.Client.Update.{timeout_each}

abbrev pub one_if : Bool → ℕ
one_if b = if b then 1 else 0

module _ {E PacketId : Type 0} where
  -- How many listeners an address has.
  unfoldable pub listeners_of : SocketAddr → List (ServerListener E PacketId) → ℕ
  listeners_of a [] = 0
  listeners_of a (l ∷ ls) = one_if (l.server_addr == a) + listeners_of a ls

  pub listeners_of-append :
      (a : SocketAddr) (ls : List (ServerListener E PacketId)) (l : ServerListener E PacketId)
      → listeners_of a (ls ++ (l ∷ [])) ≡ one_if (l.server_addr == a) + listeners_of a ls
  unfolding listeners_of
  listeners_of-append a [] l = refl
  listeners_of-append a (k ∷ ls) l = omega (arith, listeners_of-append a ls l)

  pub listeners_of-position :
      (a : SocketAddr) (ls : List (ServerListener E PacketId))
      → position a ls ≡ none
      → listeners_of a ls ≡ 0
  unfolding listeners_of position
  listeners_of-position a [] h = refl
  listeners_of-position a (l ∷ ls) h = ground (arith, h, listeners_of-position a ls)

  -- A write that keeps the address.
  pub listeners_of-set :
      (a : SocketAddr) (ls : List (ServerListener E PacketId)) (index : ℕ)
      (l m : ServerListener E PacketId)
      → get_elem? ls index ≡ some l
      → m.server_addr ≡ l.server_addr
      → listeners_of a (set ls index m) ≡ listeners_of a ls
  unfolding listeners_of
  listeners_of-set a [] index l m h same = cc
  listeners_of-set a (k ∷ ls) zero l m h same = ground (arith, h, same)
  listeners_of-set a (k ∷ ls) (suc index) l m h same =
      omega (arith, listeners_of-set a ls index l m h same)

  -- Without the last listener.
  listeners_of-take :
      (a : SocketAddr) (ls : List (ServerListener E PacketId)) (n : ℕ)
      (last : ServerListener E PacketId)
      → length ls ≡ suc n
      → get_elem? ls n ≡ some last
      → one_if (last.server_addr == a) + listeners_of a (take n ls) ≡ listeners_of a ls
  unfolding listeners_of
  listeners_of-take a [] n last size h = cc
  listeners_of-take a (k ∷ []) zero last size h = ground (arith, h)
  listeners_of-take a (k ∷ l ∷ ls) zero last size h = absurd (omega arith)
  listeners_of-take a (k ∷ ls) (suc n) last size h =
      omega (arith, listeners_of-take a ls n last (omega arith) h)

  listeners_of-take-set :
      (a : SocketAddr) (ls : List (ServerListener E PacketId)) (index n : ℕ)
      (last : ServerListener E PacketId)
      → length ls ≡ suc n
      → get_elem? ls n ≡ some last
      → listeners_of a (take n (set ls index last)) ≤ listeners_of a ls
  unfolding listeners_of
  listeners_of-take-set a [] index n last size h = cc
  listeners_of-take-set a (k ∷ ls) index zero last size h = omega arith
  listeners_of-take-set a (k ∷ ls) zero (suc n) last size h =
      omega (arith, listeners_of-take a ls n last (omega arith) h)
  listeners_of-take-set a (k ∷ ls) (suc index) (suc n) last size h =
      omega (arith, listeners_of-take-set a ls index n last (omega arith) h)

  pub listeners_of-swap_remove :
      (a : SocketAddr) (ls : List (ServerListener E PacketId)) (index : ℕ)
      → listeners_of a (swap_remove ls index) ≤ listeners_of a ls
  unfolding swap_remove listeners_of
  listeners_of-swap_remove a [] index = omega arith
  listeners_of-swap_remove a (k ∷ ls) index =
      elim (Option-cases (get_elem? (k ∷ ls) (length (k ∷ ls) - 1))) [
        | inl h ↦ ground (arith, h)
        | inr (last, h) ↦ ground (
          arith,
          h,
          listeners_of-take-set a (k ∷ ls) index (length (k ∷ ls) - 1) last (omega arith) h,
        )
      ]

  pub listeners_of-refresh_each :
      (a : SocketAddr) (ls : List (ServerListener E PacketId)) (socket : UdpSocket) (now : ℕ)
      → listeners_of a (refresh_each ls socket now).1 ≡ listeners_of a ls
  unfolding refresh_each listeners_of
  listeners_of-refresh_each a [] socket now = refl
  listeners_of-refresh_each a (l ∷ ls) socket now = ground (
    arith,
    listeners_of-refresh_each a ls
        (pending_version_query {E = E} {PacketId = PacketId} socket l.server_addr now).1 now,
  )

  pub listeners_of-timeout_each :
      (a : SocketAddr) (timeout : Option ℕ) (now : ℕ) (ls : List (ServerListener E PacketId))
      → listeners_of a (timeout_each timeout now ls).1 ≤ listeners_of a ls
  unfolding timeout_each listeners_of
  listeners_of-timeout_each a timeout now [] = omega arith
  listeners_of-timeout_each a timeout now (l ∷ ls) =
      ground (arith, listeners_of-timeout_each a timeout now ls)
