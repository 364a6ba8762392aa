-- ===== src/Server/Isolation/Tables.antt =====
-- The tables of src/net/server.rs, as everyone but one address sees them.
use mathlib.Core.Path.{subst}
use packet_test.Common.{
  ◌≡◌, ◌≢◌, refl, ◌∙◌, arith, List, [], ◌∷◌, Option, none, some, Option-cases, inl, inr,
}
use packet_test.Common.Dict.{nat_ord, get, get-insert, get-remove}
use packet_test.Socket.{SocketAddr, UdpSocket}
use packet_test.Packet.Buffers.{PacketBuffers}
use packet_test.Server.{
  ClientConnection, Server, client, place, vacate, new, accept_client, disconnect_client,
}
use packet_test.Server.Handle.{replace_client, with_client, with_listener}

-- Of everyone but `a`, the second server has what the first one has.
pub record Spares {PacketId : Type 0} (a : SocketAddr) (s s' : Server PacketId) : Type 0 where
  pub clients : (b : SocketAddr) → b ≢ a → client b s'.clients ≡ client b s.clients
  pub listeners : (b : SocketAddr) → b ≢ a → get b s'.listeners ≡ get b s.listeners
  pub config : s'.config ≡ s.config

module _ {PacketId : Type 0} where
  pub client-replace_other :
      (b : SocketAddr) (c : ClientConnection PacketId)
      (clients : List (Option (ClientConnection PacketId)))
      → b ≢ c.client_addr
      → client b (replace_client c clients) ≡ client b clients
  unfolding client replace_client
  client-replace_other b c [] h = refl
  client-replace_other b c (none ∷ clients) h = client-replace_other b c clients h
  client-replace_other b c (some d ∷ clients) h =
      ground (arith, h, client-replace_other b c clients h)

  client-vacate_other :
      (a b : SocketAddr) (clients : List (Option (ClientConnection PacketId)))
      → b ≢ a
      → client b (vacate a clients) ≡ client b clients
  unfolding client vacate
  client-vacate_other a b [] h = refl
  client-vacate_other a b (none ∷ clients) h = client-vacate_other a b clients h
  client-vacate_other a b (some d ∷ clients) h =
      ground (arith, h, client-vacate_other a b clients h)

  client-place_other :
      (b : SocketAddr) (c : ClientConnection PacketId)
      (clients : List (Option (ClientConnection PacketId)))
      → b ≢ c.client_addr
      → client b (place clients c) ≡ client b clients
  unfolding client place
  client-place_other b c [] h = ground (arith, h)
  client-place_other b c (none ∷ clients) h = ground (arith, h)
  client-place_other b c (some d ∷ clients) h = ground (arith, client-place_other b c clients h)

  pub Spares-trans :
      {a : SocketAddr} {s₀ s₁ s₂ : Server PacketId}
      → Spares a s₀ s₁
      → Spares a s₁ s₂
      → Spares a s₀ s₂
  Spares-trans h k = record {
    clients = λ b other. k.clients b other ∙ h.clients b other;
    listeners = λ b other. k.listeners b other ∙ h.listeners b other;
    config = k.config ∙ h.config;
  }

  pub same-Spares : {a : SocketAddr} {s s' : Server PacketId} → s ≡ s' → Spares a s s'
  same-Spares {a} {s} same =
      subst (Spares a s) same
        (record { clients = λ b other. refl; listeners = λ b other. refl; config = refl })

  pub with_client-Spares :
      (s : Server PacketId) (c : ClientConnection PacketId) (socket : UdpSocket)
      → Spares c.client_addr s (with_client s c socket)
  with_client-Spares s c socket = record {
    clients = λ b other. client-replace_other b c s.clients other;
    listeners = λ b other. refl;
    config = refl;
  }

  pub with_listener-Spares :
      (s : Server PacketId) (a : SocketAddr) (b : PacketBuffers PacketId) (socket : UdpSocket)
      → Spares a s (with_listener s a b socket)
  with_listener-Spares s a b socket = record {
    clients = λ d other. refl;
    listeners = λ d other. ground (arith, other, get-insert a d b s.listeners);
    config = refl;
  }

  pub accept_client-Spares :
      (s s' : Server PacketId) (a : SocketAddr) → accept_client s a ≡ some s' → Spares a s s'
  unfolding accept_client new
  accept_client-Spares s s' a h = elim (Option-cases (get a s.listeners)) [
    | inl k ↦ absurd (ground (arith, h, k))
    | inr (b, k) ↦ record {
      clients = λ d other. ground (arith, h, k, client-place_other d (new a b) s.clients other);
      listeners = λ d other. ground (arith, h, k, other, get-remove a d s.listeners);
      config = ground (arith, h, k);
    }
  ]

  pub disconnect_client-Spares :
      (s s' : Server PacketId) (a : SocketAddr) → disconnect_client s a ≡ some s' → Spares a s s'
  unfolding disconnect_client
  disconnect_client-Spares s s' a h = elim (Option-cases (client a s.clients)) [
    | inl k ↦ absurd (ground (arith, h, k))
    | inr (c, k) ↦ record {
      clients = λ d other. ground (arith, h, k, client-vacate_other a d s.clients other);
      listeners = λ d other. ground (arith, h, k, other, get-insert a d c.buffers s.listeners);
      config = ground (arith, h, k);
    }
  ]
