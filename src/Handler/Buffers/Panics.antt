-- ===== src/Handler/Buffers/Panics.antt =====
-- Which datagrams make server and client of src/net/ panic in the buffers.
use packet_test.Common.{ℕ, ◌≡◌, arith, List, Option, none, Option-cases, inl, inr}
use packet_test.Common.Dict.{Ord}
use packet_test.Socket.{SocketAddr, UdpSocket}
use packet_test.Handler.Buffers.{handle_buffers}
use packet_test.Packet.Kind.{Uuid}
use packet_test.Packet.Buffers
use packet_test.Packet.Buffers.{PacketBuffers}
use packet_test.Packet.Buffers.Panics.{Late, handle-Late}

module _ {A PacketId : Type 0} ⦃o : Ord PacketId⦄ ⦃u : Uuid PacketId⦄ where
  pub handle_buffers-Late :
      (check : List ℕ → Option A) (b : PacketBuffers PacketId) (buf : List ℕ) (socket : UdpSocket)
      (addr : SocketAddr) (now : ℕ)
      → handle_buffers check b buf socket addr now ≡ none
      → Late b.receive_buffer buf
  unfolding handle_buffers
  handle_buffers-Late check b buf socket addr now h =
      elim (Option-cases (Buffers.handle b buf (record { socket = socket; addr = addr }) now)) [
        | inl k ↦ handle-Late b buf (record { socket = socket; addr = addr }) now k
        | inr (x, k) ↦ absurd (ground (arith, h, k))
      ]
