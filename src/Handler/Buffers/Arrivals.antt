-- ===== src/Handler/Buffers/Arrivals.antt =====
-- The datagrams that have come in, where one of them is handed to the buffers.
use packet_test.Common.{ℕ, ◌≡◌, arith, List, Option, none, some}
use packet_test.Common.Dict.{Ord}
use packet_test.Socket.{SocketAddr, UdpSocket}
use packet_test.Packet.Kind.{Uuid}
use packet_test.Packet.Arrivals.{buffers_handle_arrivals}
use packet_test.Packet.Buffers.{PacketBuffers}
use packet_test.Handler.Buffers.{handle_buffers}

-- The same of what an operation leaves of a plain socket.
abbrev pub LeavesUdp : {A B : Type 0} → UdpSocket → Option (A × B × UdpSocket) → Type 0
LeavesUdp s none = Unit
LeavesUdp s (some (a, b, s')) = s'.arrivals ≡ s.arrivals

pub handle_buffers_arrivals :
    {A PacketId : Type 0} ⦃o : Ord PacketId⦄ ⦃u : Uuid PacketId⦄ (check : List ℕ → Option A)
    (b : PacketBuffers PacketId) (buf : List ℕ) (s : UdpSocket) (addr : SocketAddr) (now : ℕ)
    → LeavesUdp s (handle_buffers check b buf s addr now)
unfolding handle_buffers
handle_buffers_arrivals check b buf s addr now =
    ground (arith, buffers_handle_arrivals b buf (record { socket = s; addr = addr }) now)
