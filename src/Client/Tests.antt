-- ===== src/Client/Tests.antt =====
-- Runs of the client on small inputs, and the theorems applied to them.
use packet_test.Common.{
  ℕ, ◌≡◌, refl, arith, List, [], ◌∷◌, Option, none, some, Result, ok, err, false, ◌==◌,
  if◌then◌else◌,
}
use mathlib.Core.List.{filter_map}
use packet_test.Common.Dict.{nat_ord}
use packet_test.Config.{ClientConfig, default_connection}
use packet_test.Socket
use packet_test.Socket.{SocketAddr, UdpSocket, IoError, failed, other, would_block}
use packet_test.Packet.Kind.{from_byte, to_byte}
use packet_test.Packet.Frame.{ack_bytes, seq_index_of, id_of}
use packet_test.Packet.Serialize.{
  get_last?, set_last, vec_write_loop, vec_write, vec_serialize_value, serialize_packet,
}
use packet_test.Packet.Tests.{nat_uuid, both, as_bytes, from_slice}
use packet_test.Packet.Buffers
use packet_test.Packet.Queue.{not_acked, refill, unacked, send_each, send_unacked}
use packet_test.Packet.Buffer.{append, mark_last}
use packet_test.Packet.Buffer
use packet_test.Packet.Out
use packet_test.Packet.Queue
use packet_test.Packet.SendBuffer
use packet_test.Handler.Buffers.{report_handling, handle_buffers}
use packet_test.Packet.Buffers.{handle_sent}
use packet_test.Packet.SendBuffer.{handle_ack}
use packet_test.Common.Bytes.{get_range, to_le_bytes, from_le_bytes}
use packet_test.Common.Dict
use packet_test.Packet.ReceiveBuffer
use packet_test.Server.Fixtures.{numbers, rkyv, quiet_socket}
use packet_test.Client.{
  ClientState, ServerState, ServerListener, Client, ConnectError, Compatibility, disconnected,
  connecting, connected, disconnecting, position, send_version_query, pending_version_query,
  server_addr, with_config,
}
use packet_test.Client.Requests.{listen, get_or_add_listener, refresh_all, refresh_each}
use packet_test.Client.Connection.{connect, send, disconnect, send_to_listener, query}
use packet_test.Client.Update.{update_listener, update_listeners, timeout_connection}
use packet_test.Client.Receive.{
  update, Call, ClientHandler, handle_datagram, handle_datagrams, handle_version, handle_compatible,
}
use packet_test.Client.Moves.{handle_datagram_first}
use packet_test.Client.Requested.{IsDistinct}
use packet_test.Client.Reach.{
  connecting_to, Move, requested, listened, created, stepped, Reachable-IsDistinct, Step-Move,
}
use packet_test.Client.First.{connect-server_addr}
use packet_test.Client.Expiry.{overdue, alive, state_after, timeout_connection_filtered}
use packet_test.Client.Stuck.{
  Requeried, refresh_all-send, update_listener-pending_version_query, update_listeners-server_addr,
  handle_compatible_disconnecting,
}

-- It takes the versions below 2.
abbrev judge : ℕ → Result ℕ (Unit {0})
judge v = if v == 1 then ok tt else err v

abbrev handler : ClientHandler numbers ℕ
handler = record { compatibility = λ log v. judge v }

abbrev config : ClientConfig
config = record { connection = default_connection; timeout = some 50 }

abbrev first : ServerListener ℕ ℕ
first = record { server_addr = 8; state = ServerState.compatible both 100 }

abbrev second : ServerListener ℕ ℕ
second = record { server_addr = 9; state = ServerState.compatible both 180 }

abbrev waiting : ServerListener ℕ ℕ
waiting = record { server_addr = 9; state = ServerState.pending_version (some 100) }

abbrev new_client : Client ℕ ℕ
new_client = record { config = config; socket = quiet_socket; state = disconnected; listeners = [] }

abbrev idle : Client ℕ ℕ
idle = record new_client { listeners = first ∷ second ∷ [] }

abbrev player : Client ℕ ℕ
player = record new_client { state = connected; listeners = first ∷ waiting ∷ [] }

-- The version of the other server comes in.
abbrev told : Client ℕ ℕ
told = (handle_version rkyv handler [] player 1 waiting (0 ∷ 1 ∷ []) 120).1

told-some :
    handle_datagram rkyv handler [] player 9 (0 ∷ 1 ∷ []) 120
    ≡ some (packet_test.Client.Receive.compatibility 1 ∷ [], told)
unfolding handle_datagram handle_version position from_byte
told-some = refl

handle_datagram_first_example : told.state ≡ connected
handle_datagram_first_example =
    handle_datagram_first rkyv handler [] player 9 (0 ∷ 1 ∷ []) 120
      (packet_test.Client.Receive.compatibility 1 ∷ []) told first refl refl told-some

abbrev listening : Client ℕ ℕ
listening = (get_or_add_listener new_client 8 100).1

listening-some : listen new_client 8 100 ≡ some (ok Compatibility.pending, listening)
unfolding listen get_or_add_listener pending_version_query send_version_query Socket.send position
listening-some = refl

Reachable-IsDistinct_example : IsDistinct listening
unfolding with_config
Reachable-IsDistinct_example = Reachable-IsDistinct rkyv handler (
    stepped (created (ok quiet_socket) config refl)
      (listened 8 100 (ok Compatibility.pending) listening-some))

timeout_connection_filtered_example :
    ((timeout_connection idle 200).0 ≡ filter_map (overdue (some 50) 200) idle.listeners)
    × ((timeout_connection idle 200).1.listeners ≡ filter_map (alive (some 50) 200) idle.listeners)
    × ((timeout_connection idle 200).1.state
        ≡ state_after disconnected (filter_map (overdue (some 50) 200) idle.listeners))
timeout_connection_filtered_example = timeout_connection_filtered idle 200

abbrev refreshed : Client ℕ ℕ
refreshed = (refresh_all player 130).1

refreshed_ok : refresh_all player 130 ≡ (ok tt, refreshed)
unfolding refresh_all refresh_each pending_version_query send_version_query Socket.send
refreshed_ok = refl

refresh_all-send_example :
    (send refreshed 5 ((1 ∷ []) ∷ []) 140 ≡ none)
    × (disconnect refreshed 5 ((1 ∷ []) ∷ []) 140 ≡ none)
refresh_all-send_example =
    refresh_all-send player refreshed 130 5 ((1 ∷ []) ∷ []) 140 refl refreshed_ok

abbrev busy_socket : UdpSocket
busy_socket = record quiet_socket { answers = failed would_block ∷ [] }

abbrev unsent : ServerState ℕ ℕ
unsent = ServerState.pending_version none

blocked : (send_version_query busy_socket 8).0 ≡ ok false
unfolding send_version_query Socket.send
blocked = refl

blocked_state : (pending_version_query busy_socket 8 100).0 ≡ ok (unsent)
unfolding pending_version_query send_version_query Socket.send
blocked_state = refl

update_listener-pending_version_query_example :
    Requeried false
      (record { server_addr = 8; state = unsent })
      quiet_socket
      none
      (update_listener
        (record { server_addr = 8; state = unsent })
        quiet_socket
        none
        config
        2000000000)
update_listener-pending_version_query_example =
    update_listener-pending_version_query busy_socket quiet_socket 8 100 2000000000 none config
      unsent false blocked_state blocked (omega arith)

-- The only listener of a connected client waits for its version again, and the network is down.
abbrev cut_off : Client ℕ ℕ
cut_off = record player {
  socket = record quiet_socket { answers = failed (other 1) ∷ [] };
  listeners = waiting ∷ [];
}

down : (send_version_query cut_off.socket 9).0 ≡ err (other 1)
unfolding send_version_query Socket.send
down = refl

update_listeners-server_addr_example :
    ((update_listeners cut_off 2000000000).1.state ≡ connected)
    × (server_addr (update_listeners cut_off 2000000000).1 ≡ none)
update_listeners-server_addr_example =
    update_listeners-server_addr cut_off waiting 100 2000000000 (other 1) refl refl refl
      (omega arith) down

-- The first server's is the address that a client connecting to the second one comes to.
abbrev or_client : Option (Result ConnectError ℕ × Client ℕ ℕ) → Result ConnectError ℕ × Client ℕ ℕ
or_client none = (err ConnectError.not_disconnected, new_client)
or_client (some r) = r

abbrev dialed : Client ℕ ℕ
dialed = (or_client (connect idle (ok 9) 5 ((1 ∷ 5 ∷ []) ∷ []) 190)).1

dialed-some : connect idle (ok 9) 5 ((1 ∷ 5 ∷ []) ∷ []) 190 ≡ some (ok 5, dialed)
unfolding position get_or_add_listener send_to_listener query connect Buffers.send SendBuffer.send
    Out.send Queue.new not_acked refill unacked send_each send_unacked get_last? set_last
    vec_write_loop vec_write vec_serialize_value serialize_packet append Buffer.new mark_last
    Socket.send
dialed-some = refl

connect-server_addr_example : server_addr dialed ≡ some (some 8)
connect-server_addr_example =
    connect-server_addr idle dialed first (ok 9) 5 5 ((1 ∷ 5 ∷ []) ∷ []) 190 refl dialed-some

Step-Move_example : Move connecting_to disconnected (Client.state dialed)
Step-Move_example =
    Step-Move rkyv handler (requested (ok 9) 5 ((1 ∷ 5 ∷ []) ∷ []) 190 (ok 5) dialed-some)

abbrev leaving : Client ℕ ℕ
leaving = record idle { state = disconnecting }

-- The acknowledgement of its packet's first part comes in.
abbrev or_calls : Option (List (Call numbers ℕ) × Client ℕ ℕ) → List (Call numbers ℕ) × Client ℕ ℕ
or_calls none = ([], new_client)
or_calls (some r) = r

abbrev acked : List (Call numbers ℕ) × Client ℕ ℕ
acked =
    or_calls
      (handle_compatible rkyv handler leaving 0 first both (ack_bytes {PacketId = ℕ} 7 0) 190)

acked-some :
    handle_compatible rkyv handler leaving 0 first both (ack_bytes {PacketId = ℕ} 7 0) 190
    ≡ some acked
unfolding handle_compatible report_handling handle_buffers handle_sent Buffers.handle
    ReceiveBuffer.handle SendBuffer.ack handle_ack SendBuffer.handle Out.ack Queue.ack seq_index_of
    ack_bytes id_of to_byte from_byte Dict.get get_range to_le_bytes from_le_bytes as_bytes
    from_slice
acked-some = refl

handle_compatible_disconnecting_example : (Client.state acked.1) ≡ disconnecting
handle_compatible_disconnecting_example =
    handle_compatible_disconnecting rkyv handler leaving acked.1 0 first both
      (ack_bytes {PacketId = ℕ} 7 0) 190 acked.0 refl acked-some
