-- ===== src/Server/Tests.antt =====
-- Runs of the server's tables on small inputs, and the theorems applied to them.
use packet_test.Common.{
  false, ℕ, ◌+◌, ◌≡◌, ◌<◌, refl, List, Option, arith, [], ◌∷◌, none, some, ok, get_elem?,
}
use packet_test.Server.Fixtures.{
  config, silent, lively, quiet_socket, empty_server, server, rkyv, handler, whole,
}
use packet_test.Common.Dict.{get, remove, nat_ord, insert}
use packet_test.Socket
use packet_test.Socket.{UdpSocket, SocketAddr, other, failed, accepted}
use packet_test.Packet.Tests.{nat_uuid, both, as_bytes, from_slice}
use packet_test.Server.{
  ActivePing, ClientConnection, Server, accept_client, place, new, is_some, timeout,
  host_with_config,
}
use packet_test.Server.Update.{
  send_pings, ping_client, each_client, timed_out, missed_pong, send_version,
  handle_version_request, version_sent, send_ping,
}
use packet_test.Packet.Buffers
use packet_test.Packet.ReceiveBuffer
use packet_test.Packet.ReceiveBuffer.{handle_part, receive_single, acking}
use packet_test.Packet.Frame.{frame, seq_index_of, payload_of, id_of}
use packet_test.Packet.Kind.{from_byte, to_byte}
use packet_test.Handler.Buffers.{handle_buffers, validated, report_part, report_handling}
use packet_test.Packet.Serialize.{
  get_last?, set_last, vec_write_loop, vec_write, vec_serialize_value, serialize_packet,
}
use packet_test.Server.Fixtures.{numbers}
use packet_test.Server.Handle.{Call, accept, reply, handle_connect, handle_listener_packet}
use packet_test.Server.Loop.{handle_datagram, handle_listener, settle_listener}
use packet_test.Server.Served.{Conserves, handle_datagram-Conserves}
use packet_test.Server.Isolation.{handle_datagram-Spares}
use packet_test.Server.Isolation.Tables.{Spares}
use packet_test.Server.Admission.{Admitted, handle_datagram_admits}
use packet_test.Packet.Queue.{not_acked, refill, unacked, send_each, send_unacked}
use packet_test.Packet.Buffer.{append, mark_last}
use packet_test.Common.Bytes.{get_range, get_from, to_le_bytes, from_le_bytes}
use packet_test.Common.Dict
use packet_test.Packet.Buffer
use packet_test.Packet.Frame
use packet_test.Packet.Out
use packet_test.Packet.Queue
use packet_test.Packet.SendBuffer
use packet_test.Server.Handle
use packet_test.Server.Registry.{IsValid, registrations, slots_of}
use packet_test.Server.Reach.{
  IsDue, IsDropped, hosted, stepped, version_requested, pinged, Reachable-IsValid,
  ping_client-drops,
}

abbrev ids : ℕ → ℕ
ids index = 50 + index

-- The silent client has missed its third pong; the other one gets its ping.
send_pings_events : (send_pings server ids 120).0 ≡ timeout 30 ∷ packet_test.Server.ping 40 ∷ []
unfolding send_pings each_client ping_client timed_out missed_pong send_ping Socket.send
send_pings_events = refl

accept_client_fills_gap :
    (accept_client server 20)
    ≡ some (record server {
      listeners = [];
      clients = some silent ∷ some (new 20 both) ∷ some lively ∷ [];
    })
unfolding accept_client get remove place
accept_client_fills_gap = refl

-- The server after the version request of a new address.
abbrev requesting : Server ℕ
requesting = record empty_server {
  listeners = (20, Buffers.new 8) ∷ [];
  socket = record quiet_socket {
    sent = (20, to_byte packet_test.Packet.Kind.version ∷ 1 ∷ []) ∷ [];
  };
}

requested : handle_version_request empty_server (1 ∷ []) 20 false ≡ some ([], requesting)
unfolding handle_version_request send_version version_sent Socket.send get insert
    packet_test.Server.is_client Buffers.new packet_test.Packet.SendBuffer.new
requested = refl

Reachable-IsValid_example : IsValid (send_pings requesting ids 120).1
unfolding host_with_config handle_version_request get
Reachable-IsValid_example = Reachable-IsValid rkyv handler (
    stepped
      (stepped (hosted (ok quiet_socket) config refl) (version_requested (1 ∷ []) 20 [] requested))
      (pinged ids 120))

pinged_lively :
    get_elem? (send_pings server ids 120).1.clients 2
    ≡ some (
        some (record lively {
          active_ping = some (record { ping_id = 52; ping = 120 });
          last_pong = none;
        }))
unfolding send_pings each_client ping_client timed_out missed_pong send_ping Socket.send
pinged_lively = refl

silent_dropped : (ping_client config 7 silent quiet_socket 120).1 ≡ none
unfolding ping_client timed_out missed_pong
silent_dropped = refl

ping_client-drops_example : IsDue 10 silent.active_ping 120 × IsDropped config 7 silent quiet_socket
ping_client-drops_example = ping_client-drops config 7 silent quiet_socket 120 silent_dropped

server-IsValid : IsValid server
unfolding registrations get slots_of
server-IsValid b = ground arith

handle_datagram-Conserves_example :
    Conserves server (handle_datagram rkyv handler [] server 9 20 (3 ∷ whole 1 5) 130)
handle_datagram-Conserves_example =
    handle_datagram-Conserves rkyv handler [] server 9 20 3 (whole 1 5) 130 server-IsValid

-- The listener asks to connect with the number that is accepted.
abbrev joining : Option (List (Call numbers ℕ) × Server ℕ)
joining = handle_datagram rkyv handler [] server 9 20 (whole 1 5) 130

abbrev or_server : Option (List (Call numbers ℕ) × Server ℕ) → List (Call numbers ℕ) × Server ℕ
or_server none = ([], server)
or_server (some r) = r

abbrev joined : List (Call numbers ℕ) × Server ℕ
joined = or_server joining

joins : (joining ≡ some joined) × (slots_of 20 server.clients < slots_of 20 joined.1.clients)
unfolding slots_of packet_test.Server.client accept_client reply Handle.answered handle_connect
    handle_listener_packet settle_listener handle_listener handle_datagram validated report_part
    report_handling handle_buffers Buffers.send Buffers.handle acking receive_single
    ReceiveBuffer.receive handle_part ReceiveBuffer.handle SendBuffer.send Out.send Queue.new
    not_acked refill unacked send_each send_unacked get_last? set_last vec_write_loop vec_write
    vec_serialize_value serialize_packet seq_index_of payload_of frame Frame.ack id_of append
    Buffer.new mark_last to_byte from_byte Dict.get insert get_range get_from to_le_bytes
    from_le_bytes Socket.send as_bytes from_slice place new
joins = (refl, omega arith)

handle_datagram-Spares_example : Spares 20 server joined.1
handle_datagram-Spares_example =
    handle_datagram-Spares rkyv handler [] server joined.1 9 20 (whole 1 5) 130 joined.0 joins.0

handle_datagram_admits_example : (◌≡◌ {A = SocketAddr} 20 20) × Admitted handler [] 20 joined.0
handle_datagram_admits_example =
    handle_datagram_admits rkyv handler [] server 9 20 (whole 1 5) 130 joined.0 joined.1 20 joins.0
      joins.1
