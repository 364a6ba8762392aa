-- ===== src/Packet/Packets.antt =====
-- The traits and packet types of src/packet.rs: what a user of the library chooses, and the packets
-- that server and client send each other. Nothing sends or reads update packets, so that there is only
-- their trait, and what `NoPacket` makes of it. An archived value is the value itself.
use packet_test.Common.{ℕ, List, [], ◌∷◌, Option, none, some, Result, err}

-- `Packets`, with the two functions of `VersionPacket`.
pub record Packets : Type 1 where
  pub Version : Type 0
  pub CompatibilityError : Type 0
  pub Query : Type 0
  pub Status : Type 0
  pub Connect : Type 0
  pub Disconnect : Type 0
  pub Accept : Type 0
  pub Reject : Type 0
  pub Kick : Type 0
  pub Server : Type 0
  pub Client : Type 0
  pub write_version : Version → List ℕ
  pub read_version : List ℕ → Option Version

pub data ServerConnectionPacket (P : Packets) : Type 0 where
  status : P.Status → ServerConnectionPacket P
  accept : P.Accept → ServerConnectionPacket P
  reject : P.Reject → ServerConnectionPacket P
  kick : P.Kick → ServerConnectionPacket P
  user : P.Server → ServerConnectionPacket P

pub data ClientConnectionPacket (P : Packets) : Type 0 where
  query : P.Query → ClientConnectionPacket P
  connect : P.Connect → ClientConnectionPacket P
  disconnect : P.Disconnect → ClientConnectionPacket P
  user : P.Client → ClientConnectionPacket P

-- What the code uses of rkyv: the writes of a server's packet, and `check_archived_root`.
pub record Rkyv (P : Packets) : Type 0 where
  pub write_server : ServerConnectionPacket P → List (List ℕ)
  pub check_server : List ℕ → Option (ServerConnectionPacket P)
  pub check_client : List ℕ → Option (ClientConnectionPacket P)

-- `VersionPacket` for `()`: nothing is written, and only nothing is read.
abbrev pub read_nothing : List ℕ → Option (Unit {0})
read_nothing [] = some tt
read_nothing (b ∷ bs) = none

-- No value at all.
pub data NoPacket : Type 0 where

-- `UpdatePacket`: `write` fills the front of a buffer.
record UpdatePacket (A : Type 0) : Type 1 where
  ReadError : Type 0
  len : A → ℕ
  write : A → List ℕ → List ℕ
  read : List ℕ → Result ReadError A

data NoUpdateError : Type 0 where
  no_update_error : NoUpdateError

-- `UpdatePacket` for `NoPacket`: only `read` can be called.
abbrev no_update : UpdatePacket NoPacket
no_update = record {
  ReadError = NoUpdateError;
  len = λ p. elim p [ ];
  write = λ p buf. elim p [ ];
  read = λ buf. err no_update_error;
}

-- `DefaultPackets`; its compatibility error is `Infallible`, of which there is no value either.
abbrev pub default_packets : Packets
default_packets = record {
  Version = Unit {0};
  CompatibilityError = NoPacket;
  Query = Unit {0};
  Status = Unit {0};
  Connect = Unit {0};
  Disconnect = Unit {0};
  Accept = Unit {0};
  Reject = Unit {0};
  Kick = Unit {0};
  Server = NoPacket;
  Client = NoPacket;
  write_version = λ v. [];
  read_version = read_nothing;
}
