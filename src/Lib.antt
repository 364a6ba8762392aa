-- ===== src/Lib.antt =====
-- The reliable packets of ultinet, a server-client networking library over UDP (crate packet-test).
--
-- A packet is what rkyv makes of a value: a string of bytes. The sender cuts it into datagrams of 512
-- bytes, which carry a kind, the packet's id, a sequence index and 491 bytes of payload; it sends them
-- in batches whose size follows the acks, again and again until all are acked, and ends with `Done`.
-- The receiver acks each datagram, puts the payloads together and forgets the packet on `Done`.
--
-- A server keeps such buffers for its listeners, who have asked for its version, and for its clients,
-- whom it pings. A client keeps them for the servers that it listens to and that it found compatible,
-- and has a connection to one of them. Either hands each datagram that comes in to the buffers of its
-- sender, and the packets that these complete to a handler of the user's.
--
-- Which file models which part:
--   Socket                 src/net.rs: NonBlockingUdpSocket, NonBlocking::send, recv
--   Packet/Kind            src/packet.rs: sizes, PacketKind, PacketId
--   Packet/Error           src/packet.rs: the error types
--   Packet/Frame           src/packet.rs and src/packet/send.rs: ack, done, and the slices of `handle`
--   Packet/Buffer          src/packet/send.rs: PacketBuffer, one datagram under construction
--   Packet/Serialize       src/packet/serialize.rs: both serializers, the thread, serialize_packet
--   Packet/Queue           src/packet/send.rs: PacketQueue, the buffers not yet acked
--   Packet/Out             src/packet/send.rs: PacketOut, one packet on its way out
--   Packet/Reassemble      src/packet/receive.rs: ReassembledPacket
--   Packet/SendBuffer      src/packet.rs: SendPacketBuffer, all packets sent to a peer
--   Packet/ReceiveBuffer   src/packet.rs: ReceivePacketBuffer, all packets coming in from a peer
--   Packet/Buffers         src/packet.rs: PacketBuffers, both directions
--   Packet/Packets         src/packet.rs: Packets, DefaultPackets, the packets of server and client
--   Config                 src/config.rs: the three configurations
--   Handler                src/net.rs: RawPacket, HandlerError, what a ConnectionHandler is told
--   Handler/Buffers        src/net/server.rs: handle_buffers, as src/net/client.rs has it in `update`
--   Server                 src/net/server.rs: the tables of listeners and clients
--   Server/Update          src/net/server.rs: version requests, pings and resending
--   Server/Handle          src/net/server.rs: ServerHandler, one packet of handle_packets, Client::send
--   Server/Loop            src/net/server.rs: handle_packets and update
--   Client                 src/net/client.rs: Client, its states and its listeners
--   Client/Requests        src/net/client.rs: listen, forget, forget_all, refresh_all
--   Client/Connection      src/net/client.rs: query, connect, disconnect, send
--   Client/Update          src/net/client.rs: resending and timeouts
--   Client/Receive         src/net/client.rs: ClientHandler, the loop over the datagrams, update
-- The modules below each of these hold what is proved of it; Packet/Exchange is about both ends of
-- a packet of one part, and Session about a server and a client together. The modules called Tests run
-- the model on small inputs (Server/Fixtures has those of the server), and Common has what all share:
-- tests, lists, results, byte strings and `BTreeMap` (Common/Dict).
--
-- A method on `&mut self` is a function from the state to its answer and the new state; a socket is
-- passed along in the same way. An operation keeps its name in the source. `Option` stands for a panic
-- where the code can panic (`Panicking`), and the error types are those of the source. The clock is an
-- argument `now`, in nanoseconds, read once per operation. What the operating system says to each call
-- is a list in the socket, and `sent` keeps what went out. The crate uuid is the interface
-- `Packet.Kind.Uuid`, whose laws say that `as_bytes` gives 16 bytes and `from_slice` takes just those.
-- rkyv is the list of the byte strings that it writes, the same each time it serializes a value. The
-- serializing thread is what the receiver gets of it before the channel closes, so that what it does
-- in the background has no order of its own against the rest.
--
-- Numbers are unbounded; where the source saturates, converts to a narrower type or counts chunks in
-- a `u32`, so does the model (a sum out of range panics, as overflow checks have it), and a bound that
-- the source relies on is a hypothesis: an index below 2^32, a packet of at most 2^32 parts, a version
-- of at most 511 bytes. The write loops run on fuel, twice the bytes plus two, since each round uses up
-- a byte or starts a buffer that takes one; running out of it counts as a panic.
--
-- The loops of server and client over the datagrams run on fuel (`Fueled`: nothing where it runs out):
-- one more than the datagrams that have come in is enough, since each round takes one and nothing
-- that is sent adds any. What the user's handler answers is a function of the calls that it has got before, which the
-- loops log; the calls that come back are those of the operation. Fresh ids of packets and pings are
-- arguments, in place of `Uuid::new_v4`. An archived packet is the packet itself, and what it is
-- validated as is the interface `Packet.Packets.Rkyv`; the packets that the client sends come as the
-- byte strings that rkyv writes of them. What binding a socket, or connecting it to a peer, comes to is
-- an argument; that a connected socket hears of its peer only is not modelled.
--
-- Not modelled: the logging handler `BasicLogConnectionHandler` and `Debug`, which are output,
-- statistics (`stats`, `bytes_per_sec`) and the examples.
pub mod Common
pub mod Socket
pub mod Handler
pub mod Config
pub mod Packet
pub mod Server
pub mod Client
pub mod Session
