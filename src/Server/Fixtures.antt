-- ===== src/Server/Fixtures.antt =====
-- Packets of numbers, a server with a listener and two clients, and a handler, for the tests.
use packet_test.Common.{ℕ, ◌+◌, List, [], ◌∷◌, Option, none, some, ◌==◌, if◌then◌else◌}
use packet_test.Common.Dict.{nat_ord}
use packet_test.Config.{ServerConfig, default_connection}
use packet_test.Socket.{UdpSocket}
use packet_test.Packet.Kind.{PacketKind}
use packet_test.Packet.Frame.{frame}
use packet_test.Packet.Packets.{Packets, ServerConnectionPacket, ClientConnectionPacket, Rkyv}
use packet_test.Packet.Tests.{nat_uuid, both}
use packet_test.Server.{ClientConnection, Server}
use packet_test.Server.Handle.{Connect, accept, reject, ServerHandler}

abbrev pub read_number : List ℕ → Option ℕ
read_number [] = none
read_number (n ∷ ns) = some n

abbrev pub numbers : Packets
numbers = record {
  Version = ℕ;
  CompatibilityError = ℕ;
  Query = ℕ;
  Status = ℕ;
  Connect = ℕ;
  Disconnect = ℕ;
  Accept = ℕ;
  Reject = ℕ;
  Kick = ℕ;
  Server = ℕ;
  Client = ℕ;
  write_version = λ v. v ∷ [];
  read_version = read_number;
}

abbrev pub write_server : ServerConnectionPacket numbers → List (List ℕ)
write_server (ServerConnectionPacket.status x) = (0 ∷ x ∷ []) ∷ []
write_server (ServerConnectionPacket.accept x) = (1 ∷ x ∷ []) ∷ []
write_server (ServerConnectionPacket.reject x) = (2 ∷ x ∷ []) ∷ []
write_server (ServerConnectionPacket.kick x) = (3 ∷ x ∷ []) ∷ []
write_server (ServerConnectionPacket.user x) = (4 ∷ x ∷ []) ∷ []

abbrev pub server_packet : ℕ → ℕ → Option (ServerConnectionPacket numbers)
server_packet tag x =
    if tag == 0
    then some (ServerConnectionPacket.status x)
    else if tag == 1
    then some (ServerConnectionPacket.accept x)
    else if tag == 2
    then some (ServerConnectionPacket.reject x)
    else if tag == 3
    then some (ServerConnectionPacket.kick x)
    else if tag == 4
    then some (ServerConnectionPacket.user x)
    else none

abbrev pub client_packet : ℕ → ℕ → Option (ClientConnectionPacket numbers)
client_packet tag x =
    if tag == 0
    then some (ClientConnectionPacket.query x)
    else if tag == 1
    then some (ClientConnectionPacket.connect x)
    else if tag == 2
    then some (ClientConnectionPacket.disconnect x)
    else if tag == 3
    then some (ClientConnectionPacket.user x)
    else none

-- A packet is its tag and its number.
abbrev pub read_pair : {A : Type 0} → (ℕ → ℕ → Option A) → List ℕ → Option A
read_pair f [] = none
read_pair f (tag ∷ []) = none
read_pair f (tag ∷ x ∷ rest) = f tag x

abbrev pub rkyv : Rkyv numbers
rkyv = record {
  write_server = write_server;
  check_server = read_pair server_packet;
  check_client = read_pair client_packet;
}

-- It accepts who knows the number 5.
abbrev pub decide : ℕ → Connect numbers
decide c = if c == 5 then accept 6 else reject 7

abbrev pub handler : ServerHandler numbers ℕ
handler = record {
  version = λ log. 1;
  query = λ log addr q. q + 1;
  connect = λ log addr c. decide c;
}

abbrev pub config : ServerConfig
config = record {
  connection = default_connection;
  ping_delay = 10;
  max_missed_pongs = some 2;
  listener_timeout = none;
}

abbrev pub silent : ClientConnection ℕ
silent = record {
  client_addr = 30;
  buffers = both;
  active_ping = some (record { ping_id = 1; ping = 100 });
  last_pong = none;
  missed_pongs = 2;
}

abbrev pub lively : ClientConnection ℕ
lively = record silent { client_addr = 40; last_pong = some 105; missed_pongs = 0 }

abbrev pub quiet_socket : UdpSocket
quiet_socket = record { answers = []; arrivals = []; sent = [] }

abbrev pub empty_server : Server ℕ
empty_server = record { config = config; socket = quiet_socket; listeners = []; clients = [] }

abbrev pub server : Server ℕ
server = record {
  config = config;
  socket = quiet_socket;
  listeners = (20, both) ∷ [];
  clients = some silent ∷ none ∷ some lively ∷ [];
}

-- The one datagram of a packet of two numbers.
abbrev pub whole : ℕ → ℕ → List ℕ
whole a b = frame {PacketId = ℕ} PacketKind.last_part 9 0 (a ∷ b ∷ [])
