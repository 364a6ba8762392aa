-- ===== src/Server/Registry.antt =====
-- Who is registered with the server of src/net/server.rs: in how many places each address is.
use packet_test.Common.{
  ℕ, zero, suc, ◌+◌, ◌≤◌, ◌≡◌, refl, arith, List, [], ◌∷◌, Option, none, some, Bool, true, false,
  ◌==◌, if◌then◌else◌, take, Option-cases, inl, inr,
}
use packet_test.Common.Dict.{nat_ord, get, get-insert, get-remove}
use packet_test.Socket.{SocketAddr}
use packet_test.Server.{
  ClientConnection, Server, is_some, is_client, client, unlisten, new, place, accept_client, vacate,
  disconnect_client,
}

abbrev pub one_if : Bool → ℕ
one_if b = if b then 1 else 0

module _ {PacketId : Type 0} where
  -- How many slots an address holds.
  unfoldable pub slots_of : SocketAddr → List (Option (ClientConnection PacketId)) → ℕ
  slots_of a [] = 0
  slots_of a (none ∷ clients) = slots_of a clients
  slots_of a (some c ∷ clients) = one_if (c.client_addr == a) + slots_of a clients

  -- In how many places an address is registered.
  unfoldable pub registrations : Server PacketId → SocketAddr → ℕ
  registrations s a = one_if (is_some (get a s.listeners)) + slots_of a s.clients

  -- No address is registered twice.
  abbrev pub IsValid : Server PacketId → Type 0
  IsValid s = (a : SocketAddr) → registrations s a ≤ 1

  pub slots_of-none :
      (a : SocketAddr) (clients : List (Option (ClientConnection PacketId)))
      → is_client a clients ≡ false
      → slots_of a clients ≡ 0
  unfolding slots_of is_client
  slots_of-none a [] h = refl
  slots_of-none a (none ∷ clients) h = slots_of-none a clients h
  slots_of-none a (some c ∷ clients) h = ground (arith, slots_of-none a clients)

  pub slots_of-positive :
      (a : SocketAddr) (clients : List (Option (ClientConnection PacketId)))
      → is_client a clients ≡ true
      → 1 ≤ slots_of a clients
  unfolding is_client slots_of
  slots_of-positive a [] h = cc
  slots_of-positive a (none ∷ clients) h = slots_of-positive a clients h
  slots_of-positive a (some c ∷ clients) h = ground (arith, slots_of-positive a clients)

  pub slots_of-place :
      (a : SocketAddr) (clients : List (Option (ClientConnection PacketId)))
      (c : ClientConnection PacketId)
      → slots_of a (place clients c) ≡ one_if (c.client_addr == a) + slots_of a clients
  unfolding slots_of place
  slots_of-place a [] c = refl
  slots_of-place a (none ∷ clients) c = refl
  slots_of-place a (some d ∷ clients) c = omega (arith, slots_of-place a clients c)

  pub slots_of-vacate :
      (a b : SocketAddr) (clients : List (Option (ClientConnection PacketId)))
      (c : ClientConnection PacketId)
      → client b clients ≡ some c
      → one_if (b == a) + slots_of a (vacate b clients) ≡ slots_of a clients
  unfolding slots_of vacate client
  slots_of-vacate a b [] c h = cc
  slots_of-vacate a b (none ∷ clients) c h = slots_of-vacate a b clients c h
  slots_of-vacate a b (some d ∷ clients) c h = ground (arith, slots_of-vacate a b clients c)

  pub slots_of-take :
      (a : SocketAddr) (n : ℕ) (clients : List (Option (ClientConnection PacketId)))
      → slots_of a (take n clients) ≤ slots_of a clients
  unfolding slots_of
  slots_of-take a zero clients = omega arith
  slots_of-take a (suc n) [] = omega arith
  slots_of-take a (suc n) (none ∷ clients) = slots_of-take a n clients
  slots_of-take a (suc n) (some c ∷ clients) = omega (arith, slots_of-take a n clients)

  -- A client that accepts moves from the listeners to a slot.
  pub registrations-accept_client :
      (s s' : Server PacketId) (a : SocketAddr)
      → accept_client s a ≡ some s'
      → (b : SocketAddr) → registrations s' b ≡ registrations s b
  unfolding accept_client registrations new
  registrations-accept_client s s' a h b = elim (Option-cases (get a s.listeners)) [
    | inl missing ↦ ground (arith, missing)
    | inr (buffers, found) ↦
        ground
          (arith, found, get-remove a b s.listeners, slots_of-place b s.clients (new a buffers))
  ]

  -- A client that disconnects moves back.
  pub registrations-disconnect_client :
      (s s' : Server PacketId) (a : SocketAddr)
      → disconnect_client s a ≡ some s'
      → IsValid s
      → (b : SocketAddr) → registrations s' b ≡ registrations s b
  unfolding disconnect_client registrations
  registrations-disconnect_client s s' a h v b = elim (Option-cases (client a s.clients)) [
    | inl missing ↦ ground (arith, missing)
    | inr (c, found) ↦ ground (
      arith,
      found,
      v a,
      get-insert a b c.buffers s.listeners,
      slots_of-vacate a a s.clients c found,
      slots_of-vacate b a s.clients c found,
    )
  ]

  pub accept_client-IsValid :
      (s s' : Server PacketId) (a : SocketAddr)
      → accept_client s a ≡ some s'
      → IsValid s
      → IsValid s'
  accept_client-IsValid s s' a h v b = omega (arith, v b, registrations-accept_client s s' a h b)

  pub disconnect_client-IsValid :
      (s s' : Server PacketId) (a : SocketAddr)
      → disconnect_client s a ≡ some s'
      → IsValid s
      → IsValid s'
  disconnect_client-IsValid s s' a h v b =
      omega (arith, v b, registrations-disconnect_client s s' a h v b)

  pub unlisten-IsValid :
      (s : Server PacketId) (a : SocketAddr) → IsValid s → IsValid (unlisten s a).1
  unfolding unlisten registrations
  unlisten-IsValid s a v b = ground (arith, v b, get-remove a b s.listeners)
